-- ===== src/System.antt =====
-- The goroutines of the relay between the queues: `CloneMailers`, `StartErrorHandler` and the calls of
-- `SendMail` of sender.go, with `FlushQueues` and the exit of `GracefullyStop` of smtprelay.go, as steps
-- in any order.
pub mod Account
pub mod Bounds
pub mod Stop
use smtprelay.Base.{
  ℕ, suc, ◌+◌, ◌<◌, ◌≡◌, Bool, Option, none, some, List, [], ◌∷◌, ◌++◌, ◌==◌, length, Bytes,
}
use smtprelay.Base.Outcome.{ok}
use smtprelay.Config.{Conf}
use smtprelay.Stats.{init_statistics, mail_dropped_increase_counter}
use smtprelay.Queue.{
  QueueEntry, Relay, max_error_buffer_size, push_mail, pop_mail, extract_error, flush_errors,
  get_mail_queue_length, get_error_queue_length,
}
use smtprelay.Dkim.{DkimLibrary, Key}
use smtprelay.Sender.{Outside, send_mail}

-- The globals, and what the goroutines hold: the entry that `CloneMailers` has popped and waits to
-- send, those whose `SendMail` is running, and the one that `StartErrorHandler` has extracted and
-- not yet pushed. `taken` counts the entries that the listeners have pushed, and `refused` what
-- they have refused.
pub record System : Type 0 where
  pub relay : Relay
  pub popped : Option QueueEntry
  pub flying : List QueueEntry
  pub held : Option QueueEntry
  pub taken : ℕ
  pub refused : ℕ

-- The start: empty queues, and nothing under way.
unfoldable pub init : System
init = record {
  relay = record {
    mail_queue = [];
    error_queue = [];
    stats = init_statistics;
    sender_limiter = 0;
    tcp_handlers_limiter = 0;
    tcp_connections_limiter = 0;
  };
  popped = none;
  flying = [];
  held = none;
  taken = 0;
  refused = 0;
}

-- `SenderLimiter <- 0`, once it has gone through.
abbrev pub with_sender : Relay → Relay
with_sender r = record r { sender_limiter = r.sender_limiter + 1 }

-- `MailDroppedIncreaseCounter(1)`
abbrev pub with_drop : Relay → Relay
with_drop r = record r { stats = mail_dropped_increase_counter 1 r.stats }

module _ {C S : Type 0} (lib : DkimLibrary C S) (repo : List (Bytes × Key C S)) (conf : Conf) where
  -- One step of some goroutine. `SendMail` and `FlushErrors` take effect at once, when they come to their
  -- end.
  pub data Step (s : System) (t : System) : Type 0 where
    -- A listener pushes a new entry.
    accept :
        (e : QueueEntry) (r : Relay)
        → e.error_count ≡ 0
        → push_mail e s.relay ≡ (ok tt, r)
        → t ≡ record s { relay = r; taken = s.taken + 1 }
        → Step s t
    -- A listener refuses a message, or a domain of one.
    refuse : t ≡ record s { relay = with_drop s.relay; refused = s.refused + 1 } → Step s t
    -- `entry := PopMail()`
    pop :
        (e : QueueEntry) (r : Relay)
        → s.popped ≡ none
        → pop_mail s.relay ≡ (ok e, r)
        → t ≡ record s { relay = r; popped = some e }
        → Step s t
    -- `SenderLimiter <- 0; go SendMail(entry)`
    start :
        (e : QueueEntry)
        → s.popped ≡ some e
        → s.relay.sender_limiter < conf.max_outcoming_connections
        → t ≡ record s { relay = with_sender s.relay; popped = none; flying = e ∷ s.flying }
        → Step s t
    -- A `SendMail` comes to its end, whatever it met outside.
    finish :
        (before after : List QueueEntry) (e : QueueEntry) (out : Outside) (r : Relay)
        → s.flying ≡ before ++ e ∷ after
        → length s.relay.error_queue < max_error_buffer_size
        → send_mail lib repo conf out e s.relay ≡ (ok tt, r)
        → t ≡ record s { relay = r; flying = before ++ after }
        → Step s t
    -- `entry := ExtractError()`
    extract :
        (slept : ℕ → ℕ) (now later : ℕ) (e : QueueEntry) (r : Relay)
        → s.held ≡ none
        → extract_error slept now s.relay ≡ (ok (e, later), r)
        → t ≡ record s { relay = r; held = some e }
        → Step s t
    -- `PushMail(entry)` of `StartErrorHandler`
    requeue :
        (e : QueueEntry) (r : Relay)
        → s.held ≡ some e
        → push_mail e s.relay ≡ (ok tt, r)
        → t ≡ record s { relay = r; held = none }
        → Step s t
    -- `FlushErrors()`
    flush :
        (r : Relay)
        → flush_errors conf.deferred_mail_max_errors s.relay ≡ (ok tt, r)
        → t ≡ record s { relay = r }
        → Step s t

  pub data Reach (s : System) : System → Type 0 where
    here : Reach s s
    next : {t u : System} → Reach s t → Step t u → Reach s u

-- The test of the loop of `GracefullyStop`, at which it stops waiting: the length of the mail queue was
-- read before, and that of the error queue is read now.
unfoldable pub queues_empty : ℕ → Relay → Bool
queues_empty mails r = mails + get_error_queue_length r == 0
