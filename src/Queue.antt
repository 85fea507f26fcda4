-- ===== src/Queue.antt =====
-- mq.go and the gauges of stats.go: the mail queue, the error queue and the global state of the
-- relay, with the effects of a goroutine on it.
pub mod Waiting
pub mod Flush
pub mod Peak
use smtprelay.Base.{
  ℕ, zero, suc, ◌+◌, ◌*◌, Bool, true, false, List, [], ◌∷◌, ◌++◌, ltb, leb, ◌==◌, if◌then◌else◌,
  length, Bytes,
}
use smtprelay.Base.Outcome.{Outcome, ok, err, panicked, diverged, blocked}
use smtprelay.Status.{SmtpError}
use smtprelay.Stats.{Stats, mail_queue_check_max}

abbrev pub max_mail_buffer_size : ℕ
max_mail_buffer_size = 1000000

abbrev pub max_error_buffer_size : ℕ
max_error_buffer_size = 1000000

-- Times are counted in nanoseconds; the zero time is 0.
pub record QueueEntry : Type 0 where
  pub mail_server : Bytes
  pub sender : Bytes
  pub recipients : List Bytes
  pub sender_domain : Bytes
  pub recipient_domain : Bytes
  pub message_id : Bytes
  pub body : Bytes  -- `Data`
  pub error : SmtpError
  pub error_count : ℕ
  pub queue_time : ℕ
  pub unqueue_time : ℕ

-- The globals: the buffers of `MailChannel` and `ErrorChannel`, the statistics, and how many values
-- stand in `SenderLimiter`, `TCPHandlersLimiter` and `TCPConnectionsLimiter`.
pub record Relay : Type 0 where
  pub mail_queue : List QueueEntry
  pub error_queue : List QueueEntry
  pub stats : Stats
  pub sender_limiter : ℕ
  pub tcp_handlers_limiter : ℕ
  pub tcp_connections_limiter : ℕ

-- What a goroutine does: how it ends, and the globals afterwards. After an error or a panic what was
-- written stays written.
abbrev pub Exec : Type 0 → Type 0
Exec A = Relay → Outcome SmtpError A × Relay

-- `m`, and then `f` on its value.
abbrev pub bind :
    {A B : Type 0} → Outcome SmtpError A × Relay → (A → Exec B) → Outcome SmtpError B × Relay
bind (ok a, r) f = f a r
bind (err e, r) f = (err e, r)
bind (panicked, r) f = (panicked, r)
bind (diverged, r) f = (diverged, r)
bind (blocked, r) f = (blocked, r)

infixl 5 ◌>>=◌ ◌>>◌
abbrev pub ◌>>=◌ : {A B : Type 0} → Exec A → (A → Exec B) → Exec B
◌>>=◌ m f r = bind (m r) f

abbrev pub ◌>>◌ : {A B : Type 0} → Exec A → Exec B → Exec B
◌>>◌ m k r = bind (m r) (λ _. k)

module _ {A : Type 0} where
  abbrev pub pure : A → Exec A
  pure a r = (ok a, r)

  abbrev pub raise : SmtpError → Exec A
  raise e r = (err e, r)

  abbrev pub gets : (Relay → A) → Exec A
  gets f r = (ok (f r), r)

  -- The result of a call that does not touch the globals.
  abbrev pub lift : Outcome SmtpError A → Exec A
  lift o r = (o, r)

abbrev pub modify : (Relay → Relay) → Exec (Unit {0})
modify f r = (ok tt, f r)

abbrev pub count_stats : (Stats → Stats) → Exec (Unit {0})
count_stats f r = (ok tt, record r { stats = f r.stats })

-- `defer`: the clean-up runs after a value, an error or a panic.
abbrev pub cleaned :
    {A : Type 0}
    → Outcome SmtpError A
    → Outcome SmtpError (Unit {0}) × Relay
    → Outcome SmtpError A × Relay
cleaned o (ok _, r) = (o, r)
cleaned o (err _, r) = (o, r)
cleaned o (panicked, r) = (panicked, r)
cleaned o (diverged, r) = (diverged, r)
cleaned o (blocked, r) = (blocked, r)

abbrev pub run_deferred :
    {A : Type 0} → Outcome SmtpError A × Relay → Exec (Unit {0}) → Outcome SmtpError A × Relay
run_deferred (ok a, r) last = cleaned (ok a) (last r)
run_deferred (err e, r) last = cleaned (err e) (last r)
run_deferred (panicked, r) last = cleaned panicked (last r)
run_deferred (diverged, r) last = (diverged, r)
run_deferred (blocked, r) last = (blocked, r)

abbrev pub defer : {A : Type 0} → Exec (Unit {0}) → Exec A → Exec A
defer last m r = run_deferred (m r) last

-- `GetErrorQueueLength` and `GetMailQueueLength`
abbrev pub get_error_queue_length : Relay → ℕ
get_error_queue_length r = length r.error_queue

abbrev pub get_mail_queue_length : Relay → ℕ
get_mail_queue_length r = length r.mail_queue

-- `InitQueues`, with the rest of the globals as they are.
unfoldable pub init_queues : Relay → Relay
init_queues r = record r { mail_queue = []; error_queue = [] }

unfoldable pub check_max : Relay → Relay
unfolding mail_queue_check_max
check_max r = record r {
  stats = mail_queue_check_max (get_error_queue_length r) (get_mail_queue_length r) r.stats;
}

-- `MailChannel <- entry`, which waits while the buffer is full.
unfoldable pub send_mail_channel : QueueEntry → Exec (Unit {0})
send_mail_channel entry r =
    if ltb (length r.mail_queue) max_mail_buffer_size
    then (ok tt, record r { mail_queue = r.mail_queue ++ entry ∷ [] })
    else (blocked, r)

unfoldable pub send_error_channel : QueueEntry → Exec (Unit {0})
send_error_channel entry r =
    if ltb (length r.error_queue) max_error_buffer_size
    then (ok tt, record r { error_queue = r.error_queue ++ entry ∷ [] })
    else (blocked, r)

unfoldable pub push_mail : QueueEntry → Exec (Unit {0})
unfolding check_max send_mail_channel
push_mail entry = do modify check_max; send_mail_channel entry

unfoldable pub push_error : QueueEntry → Exec (Unit {0})
unfolding check_max send_error_channel
push_error entry = do modify check_max; send_error_channel entry

-- `for _, entry := range entries { PushMail(entry) }`
unfoldable pub push_all : List QueueEntry → Exec (Unit {0})
push_all [] = pure tt
push_all (e ∷ es) = do push_mail e; push_all es

pop : List QueueEntry → Relay → (List QueueEntry → Relay) → Outcome SmtpError QueueEntry × Relay
pop [] r rest = (blocked, r)
pop (e ∷ es) r rest = (ok e, rest es)

-- `PopMail`: waits while the queue is empty.
unfoldable pub pop_mail : Exec QueueEntry
unfolding pop
pop_mail r = pop r.mail_queue r (λ es. record r { mail_queue = es })

abbrev pub second : ℕ
second = 1000000000

-- `for unqueue.After(time.Now()) { time.Sleep(1 * time.Second) }` from the time `now`, with fuel: the
-- time at which it ends. `slept` gives the time of the next round, behind the sleep of the round at a
-- time.
unfoldable pub wait_until : (ℕ → ℕ) → ℕ → ℕ → ℕ → Outcome SmtpError ℕ
wait_until slept zero unqueue now = diverged
wait_until slept (suc fuel) unqueue now =
    let rest = wait_until slept fuel unqueue (slept now) in if ltb now unqueue then rest else ok now

-- `ExtractError` at the time `now`: the entry, and the time at which it is handed over.
unfoldable pub extract_error : (ℕ → ℕ) → ℕ → Exec (QueueEntry × ℕ)
unfolding pop
extract_error slept now = do
  entry ← λ r. pop r.error_queue r (λ es. record r { error_queue = es })
  later ← lift (wait_until slept (suc entry.unqueue_time) entry.unqueue_time now)
  pure (entry, later)

-- One round of `FlushErrors` for each entry of the error queue.
flush_from : ℕ → List QueueEntry → Exec (Unit {0})
flush_from max_errors [] = pure tt
flush_from max_errors (e ∷ es) = do
  modify (λ r. record r { error_queue = es })
  send_mail_channel (record e { error_count = max_errors })
  flush_from max_errors es

-- `FlushErrors`, with `conf.DeferredMailMaxErrors`.
unfoldable pub flush_errors : ℕ → Exec (Unit {0})
unfolding flush_from
flush_errors max_errors r = flush_from max_errors r.error_queue r
