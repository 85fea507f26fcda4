-- ===== src/Listener.antt =====
-- What the two listeners share: the outside that they meet, and the queue entry that they make for
-- one domain of a message.
pub mod Smtp
pub mod Tcp
use smtprelay.Base.{ℕ, pos, Bool, Option, none, some, List, [], ◌∷◌, if◌then◌else◌, Bytes, to_lower}
use smtprelay.Base.Outcome.{Outcome}
use smtprelay.Status.{SmtpError}
use smtprelay.Dns.{Mx, MxError, lookup_mail_server}
use smtprelay.Message.{Mail, Msg, get_domain_recipient_list}
use smtprelay.Config.{Conf}
use smtprelay.Queue.{QueueEntry}

-- `net/mail`, the DNS, and the order in which `range` visits the keys of a map: Go leaves it open, so
-- it is any function that gives each key as often as it is there.
pub record Inbound : Type 0 where
  pub mail : Mail
  pub resolve : Bytes → Option (List Mx)
  pub visit : List Bytes → List Bytes

-- `smtpd.Envelope`
pub record Envelope : Type 0 where
  pub sender : Bytes
  pub recipients : List Bytes
  pub body : Bytes  -- `Data`

-- `smtpd.Error{}`
abbrev pub no_error : SmtpError
no_error = record { code = pos 0; message = [] }

module _ (inb : Inbound) (conf : Conf) where
  -- `lookupMailServer(strings.ToLower(domain), 0)`
  unfoldable pub server_of_domain : Bytes → Outcome MxError Bytes
  server_of_domain domain = lookup_mail_server inb.resolve (to_lower domain) 0

  -- The `QueueEntry` literal, after the choice of the relay server.
  unfoldable pub entry_for : Envelope → Msg → Bytes → Bytes → QueueEntry
  entry_for env msg domain server = record {
    mail_server = if conf.relay_mode_enabled then conf.relay_server else server;
    sender = env.sender;
    recipients = get_domain_recipient_list msg domain;
    sender_domain = msg.sender.domain;
    recipient_domain = domain;
    message_id = msg.message_id;
    body = env.body;
    error = no_error;
    error_count = 0;
    queue_time = 0;
    unqueue_time = 0;
  }
