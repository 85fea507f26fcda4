-- ===== src/Stats.antt =====
-- stats.go: five channels of numbers, and a goroutine on each that folds what it receives into a
-- counter. A channel is the list of what was sent on it, the oldest first; the goroutines take from
-- it at any time, so a counter is the fold of a prefix.
pub mod Counters
use smtprelay.Base.{ℕ, ◌+◌, ℤ, pos, sub_ℕ, ◌+ℤ◌, ltb_ℤ, List, [], ◌∷◌, ◌++◌, if◌then◌else◌}

pub record Stats : Type 0 where
  pub mail_sent_channel : List ℤ
  pub mail_dropped_channel : List ℤ
  pub mail_max_queue_channel : List ℤ
  pub mail_handlers_channel : List ℤ
  pub mail_senders_channel : List ℤ

-- `InitStatistics`: empty channels.
unfoldable pub init_statistics : Stats
init_statistics = record {
  mail_sent_channel = [];
  mail_dropped_channel = [];
  mail_max_queue_channel = [];
  mail_handlers_channel = [];
  mail_senders_channel = [];
}

-- `for val := range channel { counter += int64(val) }`
unfoldable pub add_values : ℤ → List ℤ → ℤ
add_values counter [] = counter
add_values counter (v ∷ vs) = add_values (counter +ℤ v) vs

-- `for val := range channel { if int64(val) > counter { counter = int64(val) } }`
unfoldable pub max_values : ℤ → List ℤ → ℤ
max_values counter [] = counter
max_values counter (v ∷ vs) = max_values (if ltb_ℤ counter v then v else counter) vs

unfoldable pub mail_sent_increase_counter : ℕ → Stats → Stats
mail_sent_increase_counter n s = record s { mail_sent_channel = s.mail_sent_channel ++ pos n ∷ [] }

unfoldable pub mail_dropped_increase_counter : ℕ → Stats → Stats
mail_dropped_increase_counter n s = record s {
  mail_dropped_channel = s.mail_dropped_channel ++ pos n ∷ [];
}

-- `MailQueueCheckMax`, of the lengths of the two queues
unfoldable pub mail_queue_check_max : ℕ → ℕ → Stats → Stats
mail_queue_check_max errors mails s = record s {
  mail_max_queue_channel = s.mail_max_queue_channel ++ pos (errors + mails) ∷ [];
}

unfoldable pub mail_senders_increase_counter : ℕ → Stats → Stats
mail_senders_increase_counter n s = record s {
  mail_senders_channel = s.mail_senders_channel ++ pos n ∷ [];
}

unfoldable pub mail_senders_decrease_counter : ℕ → Stats → Stats
mail_senders_decrease_counter n s = record s {
  mail_senders_channel = s.mail_senders_channel ++ sub_ℕ 0 n ∷ [];
}

unfoldable pub mail_handlers_increase_counter : ℕ → Stats → Stats
mail_handlers_increase_counter n s = record s {
  mail_handlers_channel = s.mail_handlers_channel ++ pos n ∷ [];
}

unfoldable pub mail_handlers_decrease_counter : ℕ → Stats → Stats
mail_handlers_decrease_counter n s = record s {
  mail_handlers_channel = s.mail_handlers_channel ++ sub_ℕ 0 n ∷ [];
}
