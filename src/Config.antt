-- ===== src/Config.antt =====
-- config.go, and `ReloadConfig` of smtprelay.go. Numbers of the configuration are taken as
-- non-negative.
pub mod Reload
use smtprelay.Base.{ℕ, Bool, true, false, Option, none, some, [], Bytes}
use smtprelay.Base.Outcome.{Outcome, ok, err}

pub record Conf : Type 0 where
  pub server_host_name : Bytes
  pub listen_port : Bytes
  pub welcome_message : Bytes
  pub max_incoming_connections : ℕ
  pub max_outcoming_connections : ℕ
  pub dkim_enabled : Bool
  pub dkim_key_dir : Bytes
  pub relay_mode_enabled : Bool
  pub relay_server : Bytes
  pub num_cpu : ℕ
  pub statistic_port : Bytes
  pub deferred_mail_delay : ℕ
  pub deferred_mail_max_errors : ℕ
  pub max_recipients : ℕ
  pub listen_tcp_port : Bytes
  pub tcp_max_connections : ℕ
  pub tcp_max_handlers : ℕ
  pub tcp_timeout_seconds : ℕ

-- `new(Conf)`
unfoldable pub new_conf : Conf
new_conf = record {
  server_host_name = [];
  listen_port = [];
  welcome_message = [];
  max_incoming_connections = 0;
  max_outcoming_connections = 0;
  dkim_enabled = false;
  dkim_key_dir = [];
  relay_mode_enabled = false;
  relay_server = [];
  num_cpu = 0;
  statistic_port = [];
  deferred_mail_delay = 0;
  deferred_mail_max_errors = 0;
  max_recipients = 0;
  listen_tcp_port = [];
  tcp_max_connections = 0;
  tcp_max_handlers = 0;
  tcp_timeout_seconds = 0;
}

pub data ConfError : Type 0 where
  unreadable malformed : ConfError

-- The files, and `encoding/json` on this record: `json.Unmarshal` writes into the record that it is
-- given, and gives an error or none.
pub record Disk : Type 0 where
  pub read_file : Bytes → Option Bytes
  pub unmarshal : Bytes → Conf → Bool × Conf

-- The end of `Load`, by whether the text was taken.
abbrev pub loaded : Bool × Conf → Outcome ConfError (Unit {0}) × Conf
loaded (true, c) = (ok tt, c)
loaded (false, c) = (err malformed, c)

-- `Load`: how it ends, and the record afterwards.
unfoldable pub load : Disk → Bytes → Conf → Outcome ConfError (Unit {0}) × Conf
load disk filename cf = elim (disk.read_file filename) [
  | none ↦ (err unreadable, cf)
  | some file ↦ loaded (disk.unmarshal file cf)
]

-- `Flags`
pub record Flags : Type 0 where
  pub main_config_file_path : Bytes
  pub log_config_file_path : Bytes

-- `ReloadConfig`: the new value of the global `conf`, from the old one. The argument `filename` is
-- not used, and an error is only logged.
unfoldable pub reload_config : Disk → Flags → Bytes → Conf → Conf
unfolding load new_conf
reload_config disk flags filename conf = (load disk flags.main_config_file_path new_conf).1
