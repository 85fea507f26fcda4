-- ===== src/Listener/Tcp/Routes.antt =====
-- The entries that the TCP listener makes for the domains of one message.
use smtprelay.Base.{
  ℕ, zero, suc, ◌+◌, ◌≡◌, refl, ap, pos, List, [], ◌∷◌, ◌++◌, arith, append_assoc, append-nil,
  replicate, Bytes,
}
use smtprelay.Base.Outcome.{Outcome, ok, err, panicked, diverged, blocked, Returns}
use smtprelay.Dns.{MxError}
use smtprelay.Dns.Server.{lookup_mail_server-Returns}
use smtprelay.Message.{Msg}
use smtprelay.Config.{Conf}
use smtprelay.Stats.{mail_dropped_increase_counter}
use smtprelay.Queue.{QueueEntry, Relay}
use smtprelay.Listener.{Inbound, Envelope, server_of_domain, entry_for}
use smtprelay.Listener.Tcp.{build}

-- New entries at the end of the mail queue, and `k` more dropped messages, one by one.
pub record Processed (es : List QueueEntry) (k : ℕ) (r r' : Relay) : Type 0 where
  pub mail_queue : r'.mail_queue ≡ r.mail_queue ++ es
  pub dropped : r'.stats.mail_dropped_channel ≡ r.stats.mail_dropped_channel ++ replicate k (pos 1)
  pub error_queue : r'.error_queue ≡ r.error_queue
  pub sent : r'.stats.mail_sent_channel ≡ r.stats.mail_sent_channel
  pub sender_limiter : r'.sender_limiter ≡ r.sender_limiter
  pub tcp_handlers_limiter : r'.tcp_handlers_limiter ≡ r.tcp_handlers_limiter
  pub tcp_connections_limiter : r'.tcp_connections_limiter ≡ r.tcp_connections_limiter

replicate-+ {ℓ} :
    {A : Type ℓ} (m n : ℕ) (a : A) → replicate (m + n) a ≡ replicate m a ++ replicate n a
replicate-+ zero n a = let step : 0 + n ≡ n = omega arith in rw step refl
replicate-+ (suc m) n a =
    let step : suc m + n ≡ suc (m + n) = omega arith in
    rw step (ap (λ l. a ∷ l) (replicate-+ m n a))

pub Processed-trans :
    {es fs : List QueueEntry} {j k : ℕ} {r s t : Relay}
    → Processed es j r s
    → Processed fs k s t
    → Processed (es ++ fs) (j + k) r t
Processed-trans {es} {fs} {j} {k} {r} h g = ground (
  arith,
  append_assoc r.mail_queue es fs,
  append_assoc r.stats.mail_dropped_channel (replicate j (pos 1)) (replicate k (pos 1)),
  replicate-+ j k (pos 1),
)

module _ (inb : Inbound) (conf : Conf) where
  -- The entries for the domains that have a server, and how many have none.
  unfoldable pub found : Envelope → Msg → List Bytes → List QueueEntry
  found env msg [] = []
  found env msg (d ∷ ds) =
      let rest = found env msg ds in
      elim (server_of_domain inb conf d) [
        | ok server ↦ entry_for inb conf env msg d server ∷ rest
        | _ ↦ rest
      ]

  unfoldable pub lost : List Bytes → ℕ
  lost [] = 0
  lost (d ∷ ds) = elim (server_of_domain inb conf d) [ ok server ↦ lost ds | _ ↦ suc (lost ds) ]

  unfoldable pub one_dropped : Relay → Relay
  one_dropped r = record r { stats = mail_dropped_increase_counter 1 r.stats }

  abbrev BuildEnds : Envelope → Msg → List Bytes → Relay → Type 0
  BuildEnds env msg ds r =
      (r' : Relay) × (build inb conf env msg ds r ≡ (ok (found env msg ds), r'))
      × Processed [] (lost ds) r r'

  build_step :
      (o : Outcome MxError Bytes) (env : Envelope) (msg : Msg) (d : Bytes) (ds : List Bytes)
      (r : Relay)
      → server_of_domain inb conf d ≡ o
      → Returns o
      → BuildEnds env msg ds r
      → BuildEnds env msg ds (one_dropped r)
      → BuildEnds env msg (d ∷ ds) r
  unfolding build found lost one_dropped mail_dropped_increase_counter
  build_step (ok server) env msg d ds r e h (r', run, p) lower = (r', ground arith, ground arith)
  build_step (err x) env msg d ds r e h same (r', run, p) = (
    r',
    ground arith,
    ground (
      arith,
      append_assoc r.stats.mail_dropped_channel (pos 1 ∷ []) (replicate (lost ds) (pos 1)),
    ),
  )
  build_step panicked env msg d ds r e h same lower = absurd h
  build_step diverged env msg d ds r e h same lower = absurd h
  build_step blocked env msg d ds r e h same lower = absurd h

  server_of_domain-Returns : (d : Bytes) → Returns (server_of_domain inb conf d)
  unfolding server_of_domain
  server_of_domain-Returns d = lookup_mail_server-Returns inb.resolve _ 0

  pub build_lem :
      (env : Envelope) (msg : Msg) (ds : List Bytes) (r : Relay) → BuildEnds env msg ds r
  build_lem env msg [] r =
      unfold build found lost in
      (r, refl, ground (arith, append-nil r.mail_queue, append-nil r.stats.mail_dropped_channel))
  build_lem env msg (d ∷ ds) r =
      build_step (server_of_domain inb conf d) env msg d ds r refl (server_of_domain-Returns d)
        (build_lem env msg ds r) (build_lem env msg ds (one_dropped r))
