-- ===== src/Listener/Smtp/Verdict.antt =====
-- The handling of a message that was parsed: it is queued whole, or refused whole.
use smtprelay.Base.{
  ◌+◌, ◌≤◌, ◌≡◌, refl, ◌∙◌, ◌⊎◌, inl, inr, pos, ◌||◌, List, [], ◌∷◌, ◌++◌, arith, ltb, ◌==◌,
  Bool-cases, length,
}
use smtprelay.Base.Outcome.{ok, err}
use smtprelay.Status.{SmtpError, err_too_many_recipients, err_domain_not_found}
use smtprelay.Message.{Msg, domains}
use smtprelay.Config.{Conf}
use smtprelay.Stats.{mail_dropped_increase_counter}
use smtprelay.Queue.{QueueEntry, Relay, max_mail_buffer_size, push_all}
use smtprelay.Queue.Flush.{push_all_lem}
use smtprelay.Listener.{Inbound, Envelope}
use smtprelay.Listener.Smtp.{refuse, build, handle_msg}
use smtprelay.Listener.Smtp.Entries.{
  one_dropped, Built, Lacking, BuildEnds, build_lem, length-Built,
}

-- The globals after a refusal: one more dropped message, the queues as they were.
pub record Refused (r r' : Relay) : Type 0 where
  pub mail_queue : r'.mail_queue ≡ r.mail_queue
  pub error_queue : r'.error_queue ≡ r.error_queue
  pub sent : r'.stats.mail_sent_channel ≡ r.stats.mail_sent_channel
  pub dropped : r'.stats.mail_dropped_channel ≡ r.stats.mail_dropped_channel ++ pos 1 ∷ []

-- The globals after an acceptance: new entries at the end of the mail queue.
pub record Queued (es : List QueueEntry) (r r' : Relay) : Type 0 where
  pub mail_queue : r'.mail_queue ≡ r.mail_queue ++ es
  pub error_queue : r'.error_queue ≡ r.error_queue
  pub sent : r'.stats.mail_sent_channel ≡ r.stats.mail_sent_channel
  pub dropped : r'.stats.mail_dropped_channel ≡ r.stats.mail_dropped_channel

-- What no ending changes but for the channel of the handlers.
pub record Steady (r r' : Relay) : Type 0 where
  pub handlers : r'.stats.mail_handlers_channel ≡ r.stats.mail_handlers_channel
  pub senders : r'.stats.mail_senders_channel ≡ r.stats.mail_senders_channel
  pub sender_limiter : r'.sender_limiter ≡ r.sender_limiter
  pub tcp_handlers_limiter : r'.tcp_handlers_limiter ≡ r.tcp_handlers_limiter
  pub tcp_connections_limiter : r'.tcp_connections_limiter ≡ r.tcp_connections_limiter

module _ (inb : Inbound) (conf : Conf) (env : Envelope) where
  -- The limits on the recipients hold.
  abbrev pub FitsLimits : Type 0
  FitsLimits = (1 ≤ length env.recipients) × (length env.recipients ≤ conf.max_recipients)

  -- Taken: an entry for each domain of the message stands in the mail queue.
  abbrev pub Taken : Msg → Relay → Relay → Type 0
  Taken msg r r' =
      (es : List QueueEntry) × FitsLimits
      × Built inb conf env msg (inb.visit (domains msg)) es
      × Queued es r r'

  handle_built :
      (msg : Msg) (es : List QueueEntry) (r : Relay)
      → FitsLimits
      → build inb conf env msg (inb.visit (domains msg)) r ≡ (ok es, r)
      → handle_msg inb conf env msg r ≡ push_all es r
  unfolding handle_msg
  handle_built msg es r fits run = ground arith

  handle_unbuilt :
      (msg : Msg) (r : Relay)
      → FitsLimits
      → build inb conf env msg (inb.visit (domains msg)) r
        ≡ (err err_domain_not_found, one_dropped r)
      → handle_msg inb conf env msg r ≡ (err err_domain_not_found, one_dropped r)
  unfolding handle_msg
  handle_unbuilt msg r fits run = ground arith

  handle_beyond :
      (msg : Msg) (r : Relay)
      → ¬ FitsLimits
      → handle_msg inb conf env msg r ≡ (err err_too_many_recipients, one_dropped r)
  unfolding handle_msg refuse
  handle_beyond msg r beyond = ground arith

  -- Why a parsed message is refused, and with which error.
  abbrev pub Reason : Msg → SmtpError → Type 0
  Reason msg e =
      ((e ≡ err_too_many_recipients) × ¬ FitsLimits)
      ⊎ ((e ≡ err_domain_not_found)
          × FitsLimits
          × Lacking inb conf env msg (inb.visit (domains msg)))

  -- How the handling of a parsed message ends.
  abbrev pub MsgEnds : Msg → Relay → Type 0
  MsgEnds msg r =
      ((r' : Relay) × (handle_msg inb conf env msg r ≡ (ok tt, r')) × Taken msg r r' × Steady r r')
      ⊎ ((e : SmtpError) × (r' : Relay) × (handle_msg inb conf env msg r ≡ (err e, r'))
          × Reason msg e
          × Refused r r'
          × Steady r r')

  pub one_dropped-Refused : (r : Relay) → Refused r (one_dropped r)
  unfolding mail_dropped_increase_counter
  one_dropped-Refused r = ground arith

  pub one_dropped-Steady : (r : Relay) → Steady r (one_dropped r)
  unfolding mail_dropped_increase_counter
  one_dropped-Steady r = ground arith

  pushed_msg :
      (msg : Msg) (es : List QueueEntry) (r : Relay)
      → FitsLimits
      → length r.mail_queue + length (inb.visit (domains msg)) ≤ max_mail_buffer_size
      → build inb conf env msg (inb.visit (domains msg)) r ≡ (ok es, r)
      → Built inb conf env msg (inb.visit (domains msg)) es
      → MsgEnds msg r
  pushed_msg msg es r fits room run b =
      let (r', pushed, q, same) =
        push_all_lem es r (omega (arith, length-Built inb conf env msg _ es b)) in
      inl (r', handle_built msg es r fits run ∙ pushed, (es, fits, b, ground arith), ground arith)

  refused_msg :
      (msg : Msg) (e : SmtpError) (r : Relay)
      → handle_msg inb conf env msg r ≡ (err e, one_dropped r)
      → Reason msg e
      → MsgEnds msg r
  refused_msg msg e r run why =
      inr (e, one_dropped r, run, why, one_dropped-Refused r, one_dropped-Steady r)

  built_msg :
      (msg : Msg) (r : Relay)
      → FitsLimits
      → length r.mail_queue + length (inb.visit (domains msg)) ≤ max_mail_buffer_size
      → BuildEnds inb conf env msg (inb.visit (domains msg)) r
      → MsgEnds msg r
  built_msg msg r fits room (inl (es, run, b)) = pushed_msg msg es r fits room run b
  built_msg msg r fits room (inr (run, lost)) =
      refused_msg msg _ r (handle_unbuilt msg r fits run) (inr (refl, fits, lost))

  pub msg_lem :
      (msg : Msg) (r : Relay)
      → length r.mail_queue + length (inb.visit (domains msg)) ≤ max_mail_buffer_size
      → MsgEnds msg r
  msg_lem msg r room =
      elim (Bool-cases
        (ltb conf.max_recipients (length env.recipients) || length env.recipients == 0)) [
          | inl beyond ↦
              let outside : ¬ FitsLimits = λ fits. ground arith in
              refused_msg msg _ r (handle_beyond msg r outside) (inl (refl, outside))
          | inr within ↦ built_msg msg r (ground arith) room (build_lem inb conf env msg _ r)
        ]
