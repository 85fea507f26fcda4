-- ===== src/Listener/Smtp/Accept.antt =====
-- `smtpHandler` as a whole.
use smtprelay.Base.{
  ◌+◌, ◌≤◌, ◌≡◌, refl, ◌⊎◌, inl, inr, pos, negsuc, List, [], ◌∷◌, ◌++◌, arith, append_assoc, length,
  Bytes,
}
use smtprelay.Base.Outcome.{Outcome, ok, err, panicked, diverged, blocked, Halts}
use smtprelay.Status.{SmtpError, err_message_error}
use smtprelay.Message.{Msg, MessageError, domains, parse_message}
use smtprelay.Message.Ending.{parse_message-Halts}
use smtprelay.Config.{Conf}
use smtprelay.Stats.{mail_handlers_increase_counter, mail_handlers_decrease_counter}
use smtprelay.Queue.{QueueEntry, Relay, max_mail_buffer_size}
use smtprelay.Listener.{Inbound, Envelope}
use smtprelay.Listener.Smtp.{refuse, handle_parsed, smtp_handler}
use smtprelay.Listener.Smtp.Entries.{one_dropped}
use smtprelay.Listener.Smtp.Verdict.{
  Refused, Queued, Steady, Taken, Reason, MsgEnds, one_dropped-Refused, one_dropped-Steady, msg_lem,
}

module _ (inb : Inbound) (conf : Conf) (env : Envelope) (id : Bytes) where
  abbrev pub parsed : Outcome MessageError Msg
  parsed = parse_message inb.mail id env.recipients env.sender env.body

  -- The counter of the handlers went up and down.
  pub record Handled (r r' : Relay) : Type 0 where
    pub handlers :
        r'.stats.mail_handlers_channel ≡ r.stats.mail_handlers_channel ++ pos 1 ∷ negsuc 0 ∷ []
    pub senders : r'.stats.mail_senders_channel ≡ r.stats.mail_senders_channel
    pub sender_limiter : r'.sender_limiter ≡ r.sender_limiter
    pub tcp_handlers_limiter : r'.tcp_handlers_limiter ≡ r.tcp_handlers_limiter
    pub tcp_connections_limiter : r'.tcp_connections_limiter ≡ r.tcp_connections_limiter

  -- Why the handler refuses: the message does not parse, or it is refused for itself.
  abbrev pub HandlerReason : SmtpError → Type 0
  HandlerReason e =
      ((x : MessageError) × (parsed ≡ err x) × (e ≡ err_message_error))
      ⊎ ((msg : Msg) × (parsed ≡ ok msg) × Reason inb conf env msg e)

  -- Nothing is queued, sent or dropped.
  abbrev pub Untouched : Relay → Relay → Type 0
  Untouched r r' =
      (r'.mail_queue ≡ r.mail_queue)
      × (r'.error_queue ≡ r.error_queue)
      × (r'.stats.mail_sent_channel ≡ r.stats.mail_sent_channel)
      × (r'.stats.mail_dropped_channel ≡ r.stats.mail_dropped_channel)

  -- The ways in which the handler ends.
  abbrev pub HandlerEnds : Relay → Type 0
  HandlerEnds r =
      ((msg : Msg) × (r' : Relay) × (parsed ≡ ok msg)
        × (smtp_handler inb conf env id r ≡ (ok tt, r'))
        × Taken inb conf env msg r r'
        × Handled r r')
      ⊎ (((e : SmtpError) × (r' : Relay) × (smtp_handler inb conf env id r ≡ (err e, r'))
            × HandlerReason e
            × Refused r r'
            × Handled r r')
          ⊎ ((r' : Relay) × (parsed ≡ panicked)
              × (smtp_handler inb conf env id r ≡ (panicked, r'))
              × Untouched r r'
              × Handled r r'))

  abbrev entered : Relay → Relay
  entered r = record r { stats = mail_handlers_increase_counter 1 r.stats }

  abbrev left : Relay → Relay
  left r = record r { stats = mail_handlers_decrease_counter 1 r.stats }

  handler_ok :
      (r r₁ : Relay)
      → handle_parsed inb conf env parsed (entered r) ≡ (ok tt, r₁)
      → smtp_handler inb conf env id r ≡ (ok tt, left r₁)
  unfolding smtp_handler
  handler_ok r r₁ run = ground arith

  handler_err :
      (e : SmtpError) (r r₁ : Relay)
      → handle_parsed inb conf env parsed (entered r) ≡ (err e, r₁)
      → smtp_handler inb conf env id r ≡ (err e, left r₁)
  unfolding smtp_handler
  handler_err e r r₁ run = ground arith

  handler_panicked :
      (r r₁ : Relay)
      → handle_parsed inb conf env parsed (entered r) ≡ (panicked, r₁)
      → smtp_handler inb conf env id r ≡ (panicked, left r₁)
  unfolding smtp_handler
  handler_panicked r r₁ run = ground arith

  Steady-Handled : (r r₁ : Relay) → Steady (entered r) r₁ → Handled r (left r₁)
  unfolding mail_handlers_increase_counter mail_handlers_decrease_counter
  Steady-Handled r r₁ same =
      ground (arith, append_assoc r.stats.mail_handlers_channel (pos 1 ∷ []) (negsuc 0 ∷ []))

  left-Queued :
      (es : List QueueEntry) (r r₁ : Relay) → Queued es (entered r) r₁ → Queued es r (left r₁)
  unfolding mail_handlers_increase_counter mail_handlers_decrease_counter
  left-Queued es r r₁ q = ground arith

  left-Refused : (r r₁ : Relay) → Refused (entered r) r₁ → Refused r (left r₁)
  unfolding mail_handlers_increase_counter mail_handlers_decrease_counter
  left-Refused r r₁ q = ground arith

  handler_msg :
      (msg : Msg) (r : Relay)
      → parsed ≡ ok msg
      → MsgEnds inb conf env msg (entered r)
      → HandlerEnds r
  handler_msg msg r p (inl (r₁, run, (es, fits, b, q), same)) = inl (
    msg,
    left r₁,
    p,
    handler_ok r r₁ (rw p run),
    (es, fits, b, left-Queued es r r₁ q),
    Steady-Handled r r₁ same,
  )
  handler_msg msg r p (inr (e, r₁, run, why, q, same)) = inr (
      inl (
        e,
        left r₁,
        handler_err e r r₁ (rw p run),
        inr (msg, p, why),
        left-Refused r r₁ q,
        Steady-Handled r r₁ same,
      ))

  left-Untouched : (r : Relay) → Untouched r (left (entered r))
  unfolding mail_handlers_increase_counter mail_handlers_decrease_counter
  left-Untouched r = ground arith

  handler_step :
      (o : Outcome MessageError Msg) (r : Relay)
      → parsed ≡ o
      → Halts o
      → ((msg : Msg)
          → parsed ≡ ok msg
          → length r.mail_queue + length (inb.visit (domains msg)) ≤ max_mail_buffer_size)
      → HandlerEnds r
  handler_step (ok msg) r p h room =
      handler_msg msg r p (msg_lem inb conf env msg (entered r) (room msg p))
  handler_step (err x) r p h room = inr (
      inl (
        err_message_error,
        left (one_dropped (entered r)),
        handler_err err_message_error r (one_dropped (entered r)) (rw p (unfold refuse in refl)),
        inl (x, p, refl),
        left-Refused r _ (one_dropped-Refused inb conf env (entered r)),
        Steady-Handled r _ (one_dropped-Steady inb conf env (entered r)),
      ))
  handler_step panicked r p h room = inr (
      inr (
        left (entered r),
        p,
        handler_panicked r (entered r) (rw p refl),
        left-Untouched r,
        Steady-Handled r (entered r) (ground arith),
      ))
  handler_step diverged r p h room = absurd h
  handler_step blocked r p h room = absurd h

  -- Where the mail queue has room for an entry for each domain of the message, the handler comes to an
  -- end in one of three ways. It accepts: the number of recipients is from one to the limit, every
  -- domain has a server, and the entries of all domains, in the order of the visit, stand at the end
  -- of the mail queue. It refuses: because the message does not parse, because the number of recipients
  -- is not from one to the limit, or because for some domain no server is found, each with the error
  -- of its own; both queues are as before, and one more message is counted as dropped. Or it panics,
  -- where the parsing of the message does, with queues and counters of the sent and dropped as before.
  -- In all three cases the counter of the handlers goes up and down, and no limiter changes.
  pub smtp_handler_lem :
      (r : Relay)
      → ((msg : Msg)
          → parsed ≡ ok msg
          → length r.mail_queue + length (inb.visit (domains msg)) ≤ max_mail_buffer_size)
      → HandlerEnds r
  smtp_handler_lem r room =
      handler_step parsed r refl
        (parse_message-Halts inb.mail id env.recipients env.sender env.body) room
