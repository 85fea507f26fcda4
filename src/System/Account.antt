-- ===== src/System/Account.antt =====
-- No message is lost or made up: each one that was taken is somewhere.
use smtprelay.Base.{
  pos, ℕ, ◌+◌, ◌≤◌, ◌<◌, ◌≡◌, refl, ap, inl, inr, Option, none, some, List, [], ◌∷◌, map, arith,
  length, length-append, length-map, Bytes,
}
use smtprelay.Base.Outcome.{ok}
use smtprelay.Config.{Conf}
use smtprelay.Stats.{mail_queue_check_max, init_statistics, mail_dropped_increase_counter}
use smtprelay.Queue.{
  QueueEntry, Relay, push_mail, pop_mail, extract_error, max_error_buffer_size, flush_errors,
}
use smtprelay.Queue.Flush.{forced, flush_errors_inv}
use smtprelay.Dkim.{DkimLibrary, Key}
use smtprelay.Status.{parse_outcoming_error}
use mathlib.Core.Path.{subst}
use smtprelay.Sender.{Outside, deferred, send_mail}
use smtprelay.Sender.Fate.{send_mail_lem, Settled, Released}
use smtprelay.System.{
  System, init, Step, accept, pop, start, finish, extract, requeue, flush, refuse, Reach, here,
  next,
}

abbrev pub held_count : Option QueueEntry → ℕ
held_count none = 0
held_count (some e) = 1

-- The messages in the two queues, sent and dropped.
abbrev pub relay_count : Relay → ℕ
relay_count r =
    length r.mail_queue
    + length r.error_queue
    + length r.stats.mail_sent_channel
    + length r.stats.mail_dropped_channel

-- The messages under way.
abbrev pub flying_count : System → ℕ
flying_count s = held_count s.popped + length s.flying + held_count s.held

push_mail_count :
    (e : QueueEntry) (r r' : Relay)
    → push_mail e r ≡ (ok tt, r')
    → (relay_count r' ≡ relay_count r + 1) × (r'.sender_limiter ≡ r.sender_limiter)
unfolding push_mail mail_queue_check_max
push_mail_count e r r' h = ground (arith, length-append r.mail_queue (e ∷ []))

pop_mail_count :
    (e : QueueEntry) (r r' : Relay)
    → pop_mail r ≡ (ok e, r')
    → (relay_count r ≡ relay_count r' + 1) × (r'.sender_limiter ≡ r.sender_limiter)
unfolding pop_mail
pop_mail_count e r r' h = ground arith

extract_count :
    (slept : ℕ → ℕ) (now later : ℕ) (e : QueueEntry) (r r' : Relay)
    → extract_error slept now r ≡ (ok (e, later), r')
    → (relay_count r ≡ relay_count r' + 1) × (r'.sender_limiter ≡ r.sender_limiter)
unfolding extract_error
extract_count slept now later e r r' h = ground arith

pub flush_count :
    (k : ℕ) (r r' : Relay)
    → flush_errors k r ≡ (ok tt, r')
    → (relay_count r' ≡ relay_count r) × (r'.sender_limiter ≡ r.sender_limiter)
flush_count k r r' h = rw (flush_errors_inv k r r' h) (
  omega (
    arith,
    length-append r.mail_queue (map (forced k) r.error_queue),
    length-map r.error_queue (forced k),
  ),
  refl,
)

module _ {C S : Type 0} (lib : DkimLibrary C S) (repo : List (Bytes × Key C S)) (conf : Conf) where
  Settled-count :
      (out : Outside) (e : QueueEntry) (r s : Relay)
      → Released r s
      → Settled lib repo conf out e r s
      → relay_count s ≡ relay_count r + 1
  Settled-count out e r s free (inl (a, done)) = omega (
    arith,
    ap length free.mail_queue,
    ap length done.error_queue,
    ap length done.sent,
    ap length done.dropped,
    length-append r.stats.mail_sent_channel (pos 1 ∷ []),
  )
  Settled-count out e r s free (inr (inl (text, a, why, gone))) = omega (
    arith,
    ap length free.mail_queue,
    ap length gone.error_queue,
    ap length gone.sent,
    ap length gone.dropped,
    length-append r.stats.mail_dropped_channel (pos 1 ∷ []),
  )
  Settled-count out e r s free (inr (inr (text, server, a, perm, below, found, waits))) = omega (
    arith,
    ap length free.mail_queue,
    ap length waits.error_queue,
    ap length waits.sent,
    ap length waits.dropped,
    length-append r.error_queue
        (deferred lib repo conf out e (parse_outcoming_error text) server ∷ []),
  )

  send_count :
      (out : Outside) (e : QueueEntry) (r r' : Relay)
      → 0 < r.sender_limiter
      → length r.error_queue < max_error_buffer_size
      → send_mail lib repo conf out e r ≡ (ok tt, r')
      → (relay_count r' ≡ relay_count r + 1) × (r'.sender_limiter + 1 ≡ r.sender_limiter)
  send_count out e r r' held room h =
      let (s, run, free, fate) = send_mail_lem lib repo conf out e r held room in
      let same : s ≡ r' = ground arith in
      subst (λ t. (relay_count t ≡ relay_count r + 1) × (t.sender_limiter + 1 ≡ r.sender_limiter))
        same (Settled-count out e r s free fate, free.sender_limiter)

  -- What holds between two steps.
  pub record Inv (s : System) : Type 0 where
    pub conserved : s.taken + s.refused ≡ relay_count s.relay + flying_count s
    pub limited : s.relay.sender_limiter ≡ length s.flying
    pub bounded : length s.flying ≤ conf.max_outcoming_connections

  pub init-Inv : Inv init
  unfolding init init_statistics
  init-Inv = ground arith

  -- Every step keeps it.
  pub Step-Inv : {s t : System} → Step lib repo conf s t → Inv s → Inv t
  unfolding mail_dropped_increase_counter
  Step-Inv {s} (accept e r fresh run same) v = ground (arith, push_mail_count e s.relay r run)
  Step-Inv {s} (refuse same) v =
      ground (arith, length-append s.relay.stats.mail_dropped_channel (pos 1 ∷ []))
  Step-Inv {s} (pop e r empty run same) v = ground (arith, pop_mail_count e s.relay r run)
  Step-Inv (start e waits free same) v = ground arith
  Step-Inv {s} (finish before after e out r flies room run same) v = ground (
    arith,
    ap length flies,
    length-append before (e ∷ after),
    length-append before after,
    send_count out e s.relay r,
  )
  Step-Inv {s} (extract slept now later e r empty run same) v =
      ground (arith, extract_count slept now later e s.relay r run)
  Step-Inv {s} (requeue e r holds run same) v = ground (arith, push_mail_count e s.relay r run)
  Step-Inv {s} (flush r run same) v =
      ground (arith, flush_count conf.deferred_mail_max_errors s.relay r run)

  -- In every state that the relay can reach, by any interleaving of its goroutines: each message that
  -- was taken or refused is in a queue, or under way, or counted as sent or dropped; the value of the
  -- limiter is the number of running attempts; and these are never more than the configuration allows.
  pub Reach-Inv : {s : System} → Reach lib repo conf init s → Inv s
  Reach-Inv here = init-Inv
  Reach-Inv (next r st) = Step-Inv st (Reach-Inv r)
