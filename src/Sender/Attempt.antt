-- ===== src/Sender/Attempt.antt =====
-- How an attempt ends, branch by branch.
use smtprelay.Base.{
  ℕ, ◌+◌, ◌≤◌, ◌<◌, ◌≡◌, refl, inl, inr, pos, true, false, List, [], ◌∷◌, ◌++◌, arith, Bool-cases,
  length, Bytes,
}
use smtprelay.Base.Outcome.{Outcome, ok, err, panicked, diverged, blocked, Returns}
use smtprelay.Status.{SmtpError, is_permanent}
use smtprelay.Dns.{MxError}
use smtprelay.Dns.Server.{lookup_mail_server-Returns}
use smtprelay.Config.{Conf}
use smtprelay.Stats.{mail_dropped_increase_counter, mail_queue_check_max}
use smtprelay.Queue.{QueueEntry, Relay, max_error_buffer_size, push_error}
use smtprelay.Dkim.{DkimLibrary, Key}
use smtprelay.Sender.{Outside, server_or, next_server, deferred, failed}

-- The globals that every ending of an attempt leaves alone.
pub record Untouched (r r' : Relay) : Type 0 where
  pub mail_queue : r'.mail_queue ≡ r.mail_queue
  pub handlers : r'.stats.mail_handlers_channel ≡ r.stats.mail_handlers_channel
  pub senders : r'.stats.mail_senders_channel ≡ r.stats.mail_senders_channel
  pub sender_limiter : r'.sender_limiter ≡ r.sender_limiter
  pub tcp_handlers_limiter : r'.tcp_handlers_limiter ≡ r.tcp_handlers_limiter
  pub tcp_connections_limiter : r'.tcp_connections_limiter ≡ r.tcp_connections_limiter

-- Counted as sent, and gone.
pub record Sent (r r' : Relay) : Type 0 where
  pub sent : r'.stats.mail_sent_channel ≡ r.stats.mail_sent_channel ++ pos 1 ∷ []
  pub dropped : r'.stats.mail_dropped_channel ≡ r.stats.mail_dropped_channel
  pub error_queue : r'.error_queue ≡ r.error_queue

-- Counted as dropped, and gone.
pub record Dropped (r r' : Relay) : Type 0 where
  pub sent : r'.stats.mail_sent_channel ≡ r.stats.mail_sent_channel
  pub dropped : r'.stats.mail_dropped_channel ≡ r.stats.mail_dropped_channel ++ pos 1 ∷ []
  pub error_queue : r'.error_queue ≡ r.error_queue

-- Last in the error queue, with the new server, and counted neither as sent nor as dropped.
pub record Deferred (next : QueueEntry) (r r' : Relay) : Type 0 where
  pub sent : r'.stats.mail_sent_channel ≡ r.stats.mail_sent_channel
  pub dropped : r'.stats.mail_dropped_channel ≡ r.stats.mail_dropped_channel
  pub error_queue : r'.error_queue ≡ r.error_queue ++ next ∷ []

server_or-ok :
    (old : Bytes) (o : Outcome MxError Bytes) → Returns o → (s : Bytes) × (server_or old o ≡ ok s)
server_or-ok old (ok s) h = (s, refl)
server_or-ok old (err e) h = (old, refl)
server_or-ok old panicked h = absurd h
server_or-ok old diverged h = absurd h
server_or-ok old blocked h = absurd h

module _ {C S : Type 0} (lib : DkimLibrary C S) (repo : List (Bytes × Key C S)) (conf : Conf)
    (out : Outside) (entry : QueueEntry) where
  -- There is always a server for the next attempt.
  pub next_server-ok : (n : ℕ) → (s : Bytes) × (next_server lib repo conf out entry n ≡ ok s)
  unfolding next_server
  next_server-ok n = elim (Bool-cases conf.relay_mode_enabled) [
    | inl relay ↦ (conf.relay_server, rw relay)
    | inr direct ↦ rw direct (
        server_or-ok entry.mail_server _
          (lookup_mail_server-Returns out.resolve entry.recipient_domain n))
  ]

  module _ (r : Relay) where
    -- A permanent error drops the message at once.
    pub failed_permanent :
        (e : SmtpError)
        → is_permanent e ≡ true
        → (r' : Relay) × (failed lib repo conf out entry e r ≡ (ok tt, r'))
          × Untouched r r'
          × Dropped r r'
    unfolding failed mail_dropped_increase_counter
    failed_permanent e p = (
      record r { stats = mail_dropped_increase_counter 1 r.stats },
      ground arith,
      ground arith,
      ground arith,
    )

    -- So does any error that brings the counter to the limit.
    pub failed_limit :
        (e : SmtpError)
        → conf.deferred_mail_max_errors ≤ entry.error_count + 1
        → (r' : Relay) × (failed lib repo conf out entry e r ≡ (ok tt, r'))
          × Untouched r r'
          × Dropped r r'
    unfolding failed mail_dropped_increase_counter
    failed_limit e limit = (
      record r { stats = mail_dropped_increase_counter 1 r.stats },
      ground arith,
      ground arith,
      ground arith,
    )

    -- Any other error puts the message into the error queue.
    pub failed_transient :
        (e : SmtpError)
        → is_permanent e ≡ false
        → entry.error_count + 1 < conf.deferred_mail_max_errors
        → length r.error_queue < max_error_buffer_size
        → (server : Bytes) × (r' : Relay) × (next_server lib repo conf out entry
              (entry.error_count + 1)
            ≡ ok server)
          × (failed lib repo conf out entry e r ≡ (ok tt, r'))
          × Untouched r r'
          × Deferred (deferred lib repo conf out entry e server) r r'
    unfolding failed push_error mail_queue_check_max
    failed_transient e p below room =
        let (server, found) = next_server-ok (entry.error_count + 1) in
        (
          server,
          record r {
            error_queue = r.error_queue ++ deferred lib repo conf out entry e server ∷ [];
            stats = mail_queue_check_max (length r.error_queue) (length r.mail_queue) r.stats;
          },
          found,
          ground arith,
          ground arith,
          ground arith,
        )
