-- ===== src/Statistics.antt =====
-- `GetStatistics` of stats.go: what the relay reports of itself.
pub mod Sums
use smtprelay.Base.{ℕ, ◌+◌, ℤ, pos}
use smtprelay.Config.{Conf}
use smtprelay.Stats.{Stats, add_values, max_values}
use smtprelay.Queue.{Relay, get_error_queue_length, get_mail_queue_length}

-- The global counters.
pub record Counters : Type 0 where
  pub mail_senders_counter : ℤ
  pub mail_handlers_counter : ℤ
  pub max_queue_counter : ℤ
  pub mail_sent_counter : ℤ
  pub mail_dropped_counter : ℤ

-- The counters once their goroutines have received all that was sent.
unfoldable pub received : Stats → Counters
received s = record {
  mail_senders_counter = add_values (pos 0) s.mail_senders_channel;
  mail_handlers_counter = add_values (pos 0) s.mail_handlers_channel;
  max_queue_counter = max_values (pos 0) s.mail_max_queue_channel;
  mail_sent_counter = add_values (pos 0) s.mail_sent_channel;
  mail_dropped_counter = add_values (pos 0) s.mail_dropped_channel;
}

pub record QueueStats : Type 0 where
  pub overall_counter : ℕ
  pub error_buffer_counter : ℕ
  pub mail_buffer_counter : ℕ
  pub outbound_smtp_connects : ℤ
  pub inbound_tcp_handlers : ℕ
  pub inbound_tcp_connects : ℕ
  pub inbound_smtp_connects : ℤ
  pub max_queue_size_since_last_restart : ℤ
  pub mail_sent_since_last_restart : ℤ
  pub mail_dropped_since_last_restart : ℤ
  pub configuration : Conf

-- `GetStatistics`, up to the call of `json.Marshal`.
unfoldable pub get_statistics : Counters → Conf → Relay → QueueStats
get_statistics c conf r = record {
  overall_counter = get_error_queue_length r + get_mail_queue_length r;
  error_buffer_counter = get_error_queue_length r;
  mail_buffer_counter = get_mail_queue_length r;
  outbound_smtp_connects = c.mail_senders_counter;
  inbound_tcp_handlers = r.tcp_handlers_limiter;
  inbound_tcp_connects = r.tcp_connections_limiter;
  inbound_smtp_connects = c.mail_handlers_counter;
  max_queue_size_since_last_restart = c.max_queue_counter;
  mail_sent_since_last_restart = c.mail_sent_counter;
  mail_dropped_since_last_restart = c.mail_dropped_counter;
  configuration = conf;
}
