-- ===== src/Listener/Smtp/Entries.antt =====
-- The loop of `smtpHandler` over the domains: one entry for each of them, or none at all.
use smtprelay.Base.{◌≡◌, refl, ◌⊎◌, inl, inr, List, [], ◌∷◌, ◌++◌, arith, length, Bytes}
use smtprelay.Base.Outcome.{Outcome, ok, err, panicked, diverged, blocked, Returns}
use smtprelay.Status.{err_domain_not_found}
use smtprelay.Dns.{MxError}
use smtprelay.Dns.Server.{lookup_mail_server-Returns}
use smtprelay.Message.{Msg, get_domain_recipient_list}
use smtprelay.Message.Domains.{all_recipients}
use smtprelay.Config.{Conf}
use smtprelay.Stats.{mail_dropped_increase_counter}
use smtprelay.Queue.{QueueEntry, Relay}
use smtprelay.Listener.{Inbound, Envelope, server_of_domain, entry_for}
use smtprelay.Listener.Smtp.{refuse, build}

-- The globals with one more dropped message.
abbrev pub one_dropped : Relay → Relay
one_dropped r = record r { stats = mail_dropped_increase_counter 1 r.stats }

-- The recipients of several entries, one after the other.
abbrev pub recipients_of : List QueueEntry → List Bytes
recipients_of [] = []
recipients_of (e ∷ es) = e.recipients ++ recipients_of es

module _ (inb : Inbound) (conf : Conf) (env : Envelope) (msg : Msg) where
  -- One entry for each domain, made for a server that was found for it.
  abbrev pub Built : List Bytes → List QueueEntry → Type 0
  Built [] [] = Unit
  Built [] (e ∷ es) = ⊥
  Built (d ∷ ds) [] = ⊥
  Built (d ∷ ds) (e ∷ es) =
      (server : Bytes) × (server_of_domain inb conf d ≡ ok server)
      × (e ≡ entry_for inb conf env msg d server)
      × Built ds es

  -- The entries hold the recipient lists of the domains.
  pub recipients_of-Built :
      (ds : List Bytes) (es : List QueueEntry)
      → Built ds es
      → recipients_of es ≡ all_recipients ds msg.rcpt
  unfolding all_recipients entry_for get_domain_recipient_list
  recipients_of-Built [] [] b = refl
  recipients_of-Built [] (e ∷ es) b = absurd b
  recipients_of-Built (d ∷ ds) [] b = absurd b
  recipients_of-Built (d ∷ ds) (e ∷ es) (server, found, made, rest) =
      let ih : recipients_of es ≡ all_recipients ds msg.rcpt = recipients_of-Built ds es rest in
      rw (made, ih) refl

  pub length-Built : (ds : List Bytes) (es : List QueueEntry) → Built ds es → length es ≡ length ds
  length-Built [] [] b = refl
  length-Built [] (e ∷ es) b = absurd b
  length-Built (d ∷ ds) [] b = absurd b
  length-Built (d ∷ ds) (e ∷ es) (server, found, made, rest) =
      omega (arith, length-Built ds es rest)

  -- For one of the domains no server is found.
  abbrev pub Lacking : List Bytes → Type 0
  Lacking [] = ⊥
  Lacking (d ∷ ds) = ((e : MxError) × server_of_domain inb conf d ≡ err e) ⊎ Lacking ds

  -- Either every domain has a server, or one has none and the message is refused and counted as dropped.
  abbrev pub BuildEnds : List Bytes → Relay → Type 0
  BuildEnds ds r =
      ((es : List QueueEntry) × (build inb conf env msg ds r ≡ (ok es, r)) × Built ds es)
      ⊎ ((build inb conf env msg ds r ≡ (err err_domain_not_found, one_dropped r)) × Lacking ds)

  build_found :
      (d server : Bytes) (ds : List Bytes) (r : Relay)
      → server_of_domain inb conf d ≡ ok server
      → BuildEnds ds r
      → BuildEnds (d ∷ ds) r
  build_found d server ds r found (inl (es, run, b)) = inl (
    entry_for inb conf env msg d server ∷ es,
    unfold build in ground arith,
    (server, found, refl, b),
  )
  build_found d server ds r found (inr (run, lost)) = inr (unfold build in ground arith, inr lost)

  build_missing :
      (d : Bytes) {e : MxError} (ds : List Bytes) (r : Relay)
      → server_of_domain inb conf d ≡ err e
      → BuildEnds (d ∷ ds) r
  build_missing d {e} ds r lost = inr (unfold build refuse in ground arith, inl (e, lost))

  build_step :
      (o : Outcome MxError Bytes) (d : Bytes) (ds : List Bytes) (r : Relay)
      → server_of_domain inb conf d ≡ o
      → Returns o
      → BuildEnds ds r
      → BuildEnds (d ∷ ds) r
  build_step (ok server) d ds r e h rest = build_found d server ds r e rest
  build_step (err x) d ds r e h rest = build_missing d ds r e
  build_step panicked d ds r e h rest = absurd h
  build_step diverged d ds r e h rest = absurd h
  build_step blocked d ds r e h rest = absurd h

  server_of_domain-Returns : (d : Bytes) → Returns (server_of_domain inb conf d)
  unfolding server_of_domain
  server_of_domain-Returns d = lookup_mail_server-Returns inb.resolve _ 0

  pub build_lem : (ds : List Bytes) (r : Relay) → BuildEnds ds r
  build_lem [] r = inl ([], unfold build in refl, tt)
  build_lem (d ∷ ds) r =
      build_step (server_of_domain inb conf d) d ds r refl (server_of_domain-Returns d)
        (build_lem ds r)
