-- ===== src/Listener/Smtp.antt =====
-- `smtpHandler` of smtplistener.go, and `handlerPanicProcessor` of smtprelay.go.
pub mod Entries
pub mod Verdict
pub mod Accept
pub mod Delivery
pub mod Accepting
use smtprelay.Base.{
  ℕ, Bool, true, false, ◌||◌, List, [], ◌∷◌, ltb, ◌==◌, if◌then◌else◌, length, Bytes,
}
use smtprelay.Base.Outcome.{Outcome, ok, err, panicked, diverged, blocked}
use smtprelay.Status.{
  SmtpError, err_message_error, err_message_error_unknown, err_too_many_recipients,
  err_domain_not_found,
}
use smtprelay.Dns.{MxError}
use smtprelay.Message.{Msg, MessageError, domains, parse_message}
use smtprelay.Config.{Conf}
use smtprelay.Stats.{
  mail_dropped_increase_counter, mail_handlers_increase_counter, mail_handlers_decrease_counter,
}
use smtprelay.Queue.{
  QueueEntry, Relay, Exec, bind, ◌>>=◌, ◌>>◌, pure, raise, count_stats, defer, push_all,
}
use smtprelay.Listener.{Inbound, Envelope, server_of_domain, entry_for}

-- A message that is refused is counted as dropped.
unfoldable pub refuse : {A : Type 0} → SmtpError → Exec A
refuse e = do count_stats (mail_dropped_increase_counter 1); raise e

module _ (inb : Inbound) (conf : Conf) (env : Envelope) where
  -- `for domain, _ := range msg.RcptDomains { … }`: the first domain without a server ends the call.
  unfoldable pub build : Msg → List Bytes → Exec (List QueueEntry)
  build msg [] = pure []
  build msg (domain ∷ ds) = elim (server_of_domain inb conf domain) [
    | ok server ↦ do
      entries ← build msg ds
      pure (entry_for inb conf env msg domain server ∷ entries)
    | err e ↦ refuse err_domain_not_found
    | panicked ↦ λ r. (panicked, r)
    | diverged ↦ λ r. (diverged, r)
    | blocked ↦ λ r. (blocked, r)
  ]

  -- The call after `ParseMessage`.
  unfoldable pub handle_msg : Msg → Exec (Unit {0})
  handle_msg msg =
      if ltb conf.max_recipients (length env.recipients) || length env.recipients == 0
      then refuse err_too_many_recipients
      else do entries ← build msg (inb.visit (domains msg)); push_all entries

  abbrev pub handle_parsed : Outcome MessageError Msg → Exec (Unit {0})
  handle_parsed (ok msg) = handle_msg msg
  handle_parsed (err e) = refuse err_message_error
  handle_parsed panicked = λ r. (panicked, r)
  handle_parsed diverged = λ r. (diverged, r)
  handle_parsed blocked = λ r. (blocked, r)

  -- `smtpHandler`; `id` is the fresh identifier.
  unfoldable pub smtp_handler : Bytes → Exec (Unit {0})
  smtp_handler id = do
    count_stats (mail_handlers_increase_counter 1)
    defer (count_stats (mail_handlers_decrease_counter 1))
        (handle_parsed (parse_message inb.mail id env.recipients env.sender env.body))

-- `handlerPanicProcessor`: a panic of the handler becomes an error.
abbrev pub recovered : Outcome SmtpError (Unit {0}) × Relay → Outcome SmtpError (Unit {0}) × Relay
recovered (ok a, r) = (ok a, r)
recovered (err e, r) = (err e, r)
recovered (panicked, r) = (err err_message_error_unknown, r)
recovered (diverged, r) = (diverged, r)
recovered (blocked, r) = (blocked, r)

unfoldable pub handler_panic_processor : Exec (Unit {0}) → Exec (Unit {0})
handler_panic_processor handler r = recovered (handler r)
