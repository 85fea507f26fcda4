-- ===== src/Tests/Fixtures.antt =====
-- The concrete configuration, messages and stand-ins for the outside that the tests use.
use smtprelay.Base.{
  ◌≡◌, ◌≤◌, refl, false, Option, none, some, List, [], ◌∷◌, arith, leb, if◌then◌else◌, Bytes, codes,
  eqb, occurs,
}
use smtprelay.Config.{Conf}
use smtprelay.Dns.{Mx}
use smtprelay.Dkim.{DkimLibrary, Key}
use smtprelay.Message.{Mail}
use smtprelay.Message.Parsing.{ats}
use smtprelay.Queue.{QueueEntry, Relay}
use smtprelay.Sender.{Outside}
use smtprelay.Listener.{Inbound, Envelope, no_error}

abbrev pub conf : Conf
conf = record {
  server_host_name = codes "relay";
  listen_port = codes "25";
  welcome_message = [];
  max_incoming_connections = 4;
  max_outcoming_connections = 4;
  dkim_enabled = false;
  dkim_key_dir = [];
  relay_mode_enabled = false;
  relay_server = [];
  num_cpu = 1;
  statistic_port = [];
  deferred_mail_delay = 10;
  deferred_mail_max_errors = 3;
  max_recipients = 3;
  listen_tcp_port = [];
  tcp_max_connections = 2;
  tcp_max_handlers = 2;
  tcp_timeout_seconds = 5;
}

-- An address is taken as it stands, if it holds an `@`.
abbrev pub plain_address : Bytes → Option (Bytes × Bytes)
plain_address raw = if leb 1 (ats raw) then some ([], raw) else none

abbrev pub mail : Mail
mail = record {
  read_address = plain_address;
  read_message = λ body. some (record { get = λ name. codes "id-1" });
}

pub plain_has_at :
    (raw name addr : Bytes) → mail.read_address raw ≡ some (name, addr) → 1 ≤ ats addr
plain_has_at raw name addr h = ground arith

abbrev pub mx_a : Mx
mx_a = record { host = codes "mx."; pref = 1 }

abbrev pub mx_b : Mx
mx_b = record { host = codes "my."; pref = 2 }

abbrev pub two_records : List Mx
two_records = mx_a ∷ mx_b ∷ []

-- Only the domain `a` has records.
abbrev pub resolve : Bytes → Option (List Mx)
resolve domain = if eqb domain (codes "a") then some two_records else none

abbrev pub inb : Inbound
inb = record { mail = mail; resolve = resolve; visit = λ ks. ks }

pub each_key : (k : Bytes) (ks : List Bytes) → occurs k (inb.visit ks) ≡ occurs k ks
each_key k ks = refl

abbrev pub env : Envelope
env = record {
  sender = codes "s@a";
  recipients = codes "u@a" ∷ codes "v@a" ∷ [];
  body = codes "text";
}

-- Two spellings of one domain.
abbrev pub env_twice : Envelope
env_twice = record {
  sender = codes "s@a";
  recipients = codes "u@a" ∷ codes "v@A" ∷ [];
  body = codes "text";
}

abbrev pub id : Bytes
id = codes "fresh"

-- A signer that puts a mark in front of the text.
abbrev pub lib : DkimLibrary (Unit {0}) (Unit {0})
lib = record {
  new_conf = λ domain selector. some tt;
  new = λ c pem. some tt;
  with_conf = λ s c. s;
  sign = λ s text. some (b'#' ∷ text);
}

abbrev pub repo : List (Bytes × Key (Unit {0}) (Unit {0}))
repo = []

-- The remote server answers `a` with the text of an error, or takes the message.
abbrev pub outside : Option Bytes → Outside
outside a = record {
  resolve = resolve;
  now = 7;
  smtp_send = λ server sender recipients text host. a;
}

abbrev pub entry : QueueEntry
entry = record {
  mail_server = codes "mx:25";
  sender = codes "s@a";
  recipients = codes "u@a" ∷ [];
  sender_domain = codes "a";
  recipient_domain = codes "a";
  message_id = id;
  body = codes "text";
  error = no_error;
  error_count = 0;
  queue_time = 0;
  unqueue_time = 0;
}

abbrev pub relay : Relay
relay = record {
  mail_queue = [];
  error_queue = [];
  stats = record {
    mail_sent_channel = [];
    mail_dropped_channel = [];
    mail_max_queue_channel = [];
    mail_handlers_channel = [];
    mail_senders_channel = [];
  };
  sender_limiter = 1;
  tcp_handlers_limiter = 0;
  tcp_connections_limiter = 1;
}
