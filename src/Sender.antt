-- ===== src/Sender.antt =====
-- sender.go: one attempt to send an entry, and what becomes of it.
pub mod Attempt
pub mod Fate
use smtprelay.Base.{
  ℕ, ◌+◌, ◌*◌, ◌-◌, Bool, true, false, Option, none, some, List, [], ◌∷◌, ◌++◌, leb, ◌==◌,
  if◌then◌else◌, Bytes,
}
use smtprelay.Base.Outcome.{Outcome, ok, err, panicked, diverged, blocked}
use smtprelay.Status.{SmtpError, parse_outcoming_error, is_permanent}
use smtprelay.Dns.{Mx, MxError, lookup_mail_server}
use smtprelay.Config.{Conf}
use smtprelay.Stats.{
  mail_sent_increase_counter, mail_dropped_increase_counter, mail_senders_increase_counter,
  mail_senders_decrease_counter,
}
use smtprelay.Queue.{
  QueueEntry, Relay, Exec, bind, ◌>>=◌, ◌>>◌, pure, lift, count_stats, defer, push_error, second,
}
use smtprelay.Dkim.{DkimLibrary, Key, dkim_sign}

-- What an attempt meets outside: the DNS, the clock, and `smtp.SendMail` of the package `smtp`, called
-- with the server, the sender, the recipients, the text and the name of this host; it gives the text
-- of its error, or `none` if the message went through.
pub record Outside : Type 0 where
  pub resolve : Bytes → Option (List Mx)
  pub now : ℕ
  pub smtp_send : Bytes → Bytes → List Bytes → Bytes → Bytes → Option Bytes

-- `<-SenderLimiter`
unfoldable pub release_sender : Exec (Unit {0})
release_sender r =
    if r.sender_limiter == 0
    then (blocked, r)
    else (ok tt, record r { sender_limiter = r.sender_limiter - 1 })

-- `lookupMailServer`, or the old server if that fails.
abbrev pub server_or : Bytes → Outcome MxError Bytes → Outcome SmtpError Bytes
server_or old (ok server) = ok server
server_or old (err e) = ok old
server_or old panicked = panicked
server_or old diverged = diverged
server_or old blocked = blocked

module _ {C S : Type 0} (lib : DkimLibrary C S) (repo : List (Bytes × Key C S)) (conf : Conf) where
  -- The text that is sent.
  unfoldable pub text_of : QueueEntry → Bytes
  text_of entry =
      if conf.dkim_enabled
      then (let (signed, done) = dkim_sign lib repo entry.body entry.sender_domain in
          if done then signed else entry.body)
      else entry.body

  module _ (out : Outside) where
    -- The server of the next attempt, by the number of errors so far.
    unfoldable pub next_server : QueueEntry → ℕ → Outcome SmtpError Bytes
    next_server entry errors =
        if conf.relay_mode_enabled
        then ok conf.relay_server
        else server_or entry.mail_server
            (lookup_mail_server out.resolve entry.recipient_domain errors)

    -- The entry as it goes to the error queue.
    abbrev pub deferred : QueueEntry → SmtpError → Bytes → QueueEntry
    deferred entry e server = record entry {
      mail_server = server;
      error = e;
      error_count = entry.error_count + 1;
      queue_time = out.now;
      unqueue_time = out.now + conf.deferred_mail_delay * second;
    }

    -- The branch of `SendMail` for an error.
    unfoldable pub failed : QueueEntry → SmtpError → Exec (Unit {0})
    failed entry e =
        if is_permanent e
        then count_stats (mail_dropped_increase_counter 1)
        else if leb conf.deferred_mail_max_errors (entry.error_count + 1)
        then count_stats (mail_dropped_increase_counter 1)
        else do
          server ← lift (next_server entry (entry.error_count + 1))
          push_error (deferred entry e server)

    unfoldable pub attempt : QueueEntry → Exec (Unit {0})
    attempt entry =
        elim (out.smtp_send entry.mail_server entry.sender entry.recipients (text_of entry)
          conf.server_host_name) [
            | none ↦ count_stats (mail_sent_increase_counter 1)
            | some text ↦ failed entry (parse_outcoming_error text)
          ]

    -- `SendMail`
    unfoldable pub send_mail : QueueEntry → Exec (Unit {0})
    unfolding release_sender
    send_mail entry = do
      count_stats (mail_senders_increase_counter 1)
      defer (do count_stats (mail_senders_decrease_counter 1); release_sender) (attempt entry)
