-- ===== src/Tests/Sending.antt =====
-- Attempts to send, the queues and the steps of the relay, on concrete inputs.
use smtprelay.Base.{ℕ, ◌≡◌, ◌+◌, ◌≤◌, refl, some, [], ◌∷◌, ◌++◌, map, arith, codes}
use smtprelay.Base.Outcome.{ok}
use smtprelay.Queue.{QueueEntry, Relay, extract_error, flush_errors, second}
use smtprelay.Queue.Waiting.{Waited, extract_error_lem}
use smtprelay.Queue.Flush.{forced, flush_errors_lem}
use smtprelay.Sender.{send_mail}
use smtprelay.Sender.Fate.{Released, Settled, send_mail_lem}
use smtprelay.Tests.Fixtures.{conf, lib, repo, outside, entry, relay}

send_mail_lem_example :
    (r' : Relay) × (send_mail lib repo conf (outside (some (codes "450 later"))) entry relay
      ≡ (ok tt, r'))
    × Released relay r'
    × Settled lib repo conf (outside (some (codes "450 later"))) entry relay r'
send_mail_lem_example =
    send_mail_lem lib repo conf (outside (some (codes "450 later"))) entry relay (omega arith)
      (omega arith)

abbrev flushed : QueueEntry
flushed = forced 3 entry

-- An entry that waits until 5.
abbrev waiting : QueueEntry
waiting = record entry { unqueue_time = 5; error_count = 1 }

abbrev with_errors : Relay
with_errors = record relay { error_queue = waiting ∷ entry ∷ [] }

-- A clock that is late by 3 behind each sleep.
abbrev slow : ℕ → ℕ
slow t = t + second + 3

extract_error_lem_example :
    (later : ℕ) × (extract_error slow 2 with_errors
      ≡ (ok (waiting, later), record with_errors { error_queue = entry ∷ [] }))
    × (waiting.unqueue_time ≤ later)
    × Waited slow waiting.unqueue_time 2 later
extract_error_lem_example =
    extract_error_lem slow 2 with_errors waiting (entry ∷ []) (λ t. omega arith) refl

flush_errors_lem_example : flush_errors 3 with_errors ≡ (
  ok tt,
  record with_errors {
    mail_queue = with_errors.mail_queue ++ map (forced 3) with_errors.error_queue;
    error_queue = [];
  },
)
flush_errors_lem_example = flush_errors_lem 3 with_errors (omega arith)
