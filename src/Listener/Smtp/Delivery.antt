-- ===== src/Listener/Smtp/Delivery.antt =====
-- Whom an accepted message is queued for.
use smtprelay.Base.{
  ◌+◌, ◌≤◌, ◌<◌, ◌≡◌, ◌≢◌, ap, ◌∙◌, inl, inr, true, List, [], ◌∷◌, ◌++◌, arith, length, Bytes,
  occurs, equal_fold,
}
use smtprelay.Base.Outcome.{ok}
use smtprelay.Message.{EmailAddress, Msg, domains, add_domains}
use smtprelay.Message.Domains.{keys, raw_addresses}
use smtprelay.Message.Parsing.{parse_message-ok}
use smtprelay.Message.Spelling.{OneSpelling, visit-covers, visit-exact, visit-repeats}
use smtprelay.Config.{Conf}
use smtprelay.Queue.{QueueEntry, Relay, max_mail_buffer_size}
use smtprelay.Listener.{Inbound, Envelope}
use smtprelay.Listener.Smtp.{smtp_handler}
use smtprelay.Listener.Smtp.Entries.{recipients_of, recipients_of-Built}
use smtprelay.Listener.Smtp.Verdict.{Taken}
use smtprelay.Listener.Smtp.Accept.{parsed, HandlerEnds, smtp_handler_lem}

module _ (inb : Inbound) (conf : Conf) (env : Envelope) (id : Bytes)
    (each_key : (k : Bytes) (ks : List Bytes) → occurs k (inb.visit ks) ≡ occurs k ks)
    (r r' : Relay)
    (room : (msg : Msg)
      → parsed inb conf env id ≡ ok msg
      → length r.mail_queue + length (inb.visit (domains msg)) ≤ max_mail_buffer_size)
    (accepted : smtp_handler inb conf env id r ≡ (ok tt, r')) where
  from_ends :
      HandlerEnds inb conf env id r
      → (msg : Msg) × (parsed inb conf env id ≡ ok msg) × Taken inb conf env msg r r'
  from_ends (inl (msg, s, p, run, (es, fits, b, q), h)) =
      let same : s ≡ r' = ground arith in (msg, p, (es, fits, b, rw same at q))
  from_ends (inr (inl (e, s, run, why, h, k))) = absurd (ground arith)
  from_ends (inr (inr (s, p, run, u, h))) = absurd (ground (arith, run))

  -- The message behind an acceptance, and the entries that were queued for it.
  pub accepted_msg : (msg : Msg) × (parsed inb conf env id ≡ ok msg) × Taken inb conf env msg r r'
  accepted_msg = from_ends (smtp_handler_lem inb conf env id r room)

  visits_all :
      (msg : Msg)
      → parsed inb conf env id ≡ ok msg
      → (k : Bytes) → occurs k (inb.visit (domains msg)) ≡ occurs k (keys (add_domains msg.rcpt []))
  unfolding domains
  visits_all msg p k =
      let facts = parse_message-ok inb.mail id env.recipients env.sender env.body p in
      each_key k (keys msg.rcpt_domains) ∙ ap (λ m. occurs k (keys m)) facts.3

  given_recipients :
      (msg : Msg) → parsed inb conf env id ≡ ok msg → raw_addresses msg.rcpt ≡ env.recipients
  given_recipients msg p = (parse_message-ok inb.mail id env.recipients env.sender env.body p).0

  -- Nobody is forgotten: of the entries that an accepted message adds to the mail queue, each recipient
  -- is named at least as often as in the envelope.
  pub accepted_covers :
      (es : List QueueEntry) × (r'.mail_queue ≡ r.mail_queue ++ es)
      × ((a : Bytes) → occurs a env.recipients ≤ occurs a (recipients_of es))
  accepted_covers =
      let (msg, p, (es, fits, b, q)) = accepted_msg in
      (
        es,
        q.mail_queue,
        λ a.
            rw (recipients_of-Built inb conf env msg _ es b, ← given_recipients msg p)
              (visit-covers (inb.visit (domains msg)) msg.rcpt (visits_all msg p) a),
      )

  -- Where domains that differ only in letter case are spelled alike, each recipient is named exactly as
  -- often as in the envelope.
  pub accepted_exact :
      ((msg : Msg) → parsed inb conf env id ≡ ok msg → OneSpelling msg.rcpt)
      → (es : List QueueEntry) × (r'.mail_queue ≡ r.mail_queue ++ es)
        × ((a : Bytes) → occurs a (recipients_of es) ≡ occurs a env.recipients)
  accepted_exact alike =
      let (msg, p, (es, fits, b, q)) = accepted_msg in
      (
        es,
        q.mail_queue,
        λ a.
            rw (recipients_of-Built inb conf env msg _ es b, ← given_recipients msg p)
              (visit-exact (inb.visit (domains msg)) msg.rcpt (visits_all msg p) (alike msg p) a),
      )

  -- Where the domains of the first two recipients differ in letter case only, the first recipient is
  -- named more often than in the envelope: the message is queued for it more than once.
  pub accepted_repeats :
      (a b : EmailAddress) (rcpt : List EmailAddress)
      → ((msg : Msg) → parsed inb conf env id ≡ ok msg → msg.rcpt ≡ a ∷ b ∷ rcpt)
      → b.domain ≢ a.domain
      → equal_fold b.domain a.domain ≡ true
      → (es : List QueueEntry) × (r'.mail_queue ≡ r.mail_queue ++ es)
        × (occurs a.raw_address env.recipients < occurs a.raw_address (recipients_of es))
  accepted_repeats a b rcpt two differ fold =
      let (msg, p, (es, fits, built, q)) = accepted_msg in
      let same : msg.rcpt ≡ a ∷ b ∷ rcpt = two msg p in
      (
        es,
        q.mail_queue,
        rw (recipients_of-Built inb conf env msg _ es built, ← given_recipients msg p, same)
            (visit-repeats (inb.visit (domains msg)) a b rcpt (rw same at (visits_all msg p)) differ
              fold),
      )
