-- ===== src/Tests/Sessions.antt =====
-- Sessions of the SMTP server, on concrete inputs.
use smtprelay.Base.{length, true, Bytes, ◌≤◌, ◌↔◌, All, All-append, arith}
use smtprelay.Message.Parsing.{ats}
use smtprelay.Queue.{Relay}
use smtprelay.Smtpd.Serve.{accept_session}
use smtprelay.Smtpd.Serve.Keeping.{Deliverable}
use smtprelay.Smtpd.Serve.Ending.{Over, accept_session_keeps}
use smtprelay.Smtpd.Serve.Turns.{Turn}
use smtprelay.Smtpd.Serve.Refined.{handle-Turn}
use smtprelay.Smtpd.Command.{world_after}
use smtprelay.Smtpd.Command.Address.{parse_address_lem}
use smtprelay.Smtpd.Relay.{running_server}
use smtprelay.Smtpd.Relay.Growing.{Grown, relay_session_grows}
use smtprelay.Tests.Fixtures.{inb, conf, relay}
use smtprelay.Base.{
  ◌≡◌, refl, false, Option, none, some, List, [], ◌∷◌, ◌++◌, codes, pos, map, eqb, fields, to_upper,
  split, ℤ,
}
use smtprelay.Listener.{Envelope}
use smtprelay.Smtpd.{
  Peer, Failure, Server, Wire, Session, other_addr, new_session, decimal, welcome, extensions,
  close, reset, reply,
}
use smtprelay.Smtpd.Input.{refill, scan, dot_read}
use smtprelay.Smtpd.Command.{
  parse_line, parse_address, handle_ehlo, handle_mail, handle_rcpt, handle_data, handle_quit,
  deliver,
}
use smtprelay.Smtpd.Login.{Decoders}
use smtprelay.Smtpd.Serve.{serve, handle, verb_of}

-- A handler that keeps what it is given.
abbrev pub Log : Type 0
Log = List (Peer × Envelope)

abbrev pub keep_envelope : Peer → Envelope → Log → Option (Option Failure) × Log
keep_envelope peer env log = (some none, log ++ (peer, env) ∷ [])

abbrev pub server : Server Log
server = record {
  hostname = codes "mx.a";
  welcome_message = codes "hi";
  read_timeout = 1;
  write_timeout = 1;
  data_timeout = 1;
  max_connections = pos 2;
  max_message_size = 100;
  max_recipients = 2;
  handler = some keep_envelope;
  connection_checker = none;
  helo_checker = none;
  sender_checker = none;
  recipient_checker = none;
  authenticator = none;
  enable_xclient = false;
  has_tls_config = false;
  force_tls = false;
}

abbrev pub decoders : Decoders
decoders = record { decode64 = λ s. some s; parse_ip = λ s. some s }

abbrev pub wire : Wire
wire = record {
  scanned = [];
  buffered = [];
  network =
      (codes "EHLO h" ∷ [])
      ∷ (codes "MAIL FROM:<s@a>" ∷ codes "RCPT TO:<u@b>" ∷ [])
      ∷ (codes "DATA" ∷ [])
      ∷ (codes "x" ∷ codes "..y" ∷ codes "." ∷ codes "QUIT" ∷ [])
      ∷ [];
  handshakes = [];
}

abbrev pub start : Session Log
start = new_session server other_addr wire []

abbrev end_of : Option (Session Log) → List ℤ × List Envelope
end_of none = ([], [])
end_of (some s) = (map (λ l. l.code) s.sent, map (λ p. p.1) s.world)

mail_taken : end_of (serve decoders server start) ≡ (
  pos 220
      ∷ pos 250
      ∷ pos 250
      ∷ pos 250
      ∷ pos 250
      ∷ pos 250
      ∷ pos 250
      ∷ pos 354
      ∷ pos 250
      ∷ pos 221
      ∷ [],
  record {
    sender = codes "s@a";
    recipients = codes "u@b" ∷ [];
    body = b'x' ∷ 10 ∷ b'.' ∷ b'y' ∷ 10 ∷ [];
  }
      ∷ [],
)
unfolding serve new_session welcome handle parse_line verb_of eqb refill scan handle_ehlo
    handle_mail handle_rcpt handle_data handle_quit extensions decimal parse_address dot_read
    deliver split fields to_upper reply reset close
mail_taken = refl

-- Every envelope in the log has one or two recipients.
abbrev pub Few : Log → Type 0
Few log = All (λ p. (1 ≤ length (p.1).recipients) × (length (p.1).recipients ≤ 2)) log

pub keep_envelope-Few :
    (peer : Peer) (env : Envelope) (log : Log)
    → Deliverable server peer env
    → Few log
    → Few (world_after (deliver server peer env log))
unfolding deliver
keep_envelope-Few peer env log fine h =
    All-append (λ p. (1 ≤ length (p.1).recipients) × (length (p.1).recipients ≤ 2)) log
      ((peer, env) ∷ []) h ((fine.some_recipient, fine.few_recipients), tt)

accept_session_keeps_example :
    (s : Session Log) × (accept_session decoders server 1 other_addr wire [] ≡ some s)
    × Few s.world
    × Over s
accept_session_keeps_example =
    accept_session_keeps decoders server Few keep_envelope-Few 1 other_addr wire [] tt

-- A session with an open transaction.
abbrev with_mail : Session Log
with_mail = record start {
  peer = record start.peer { helo_name = codes "h" };
  envelope = some (record { sender = codes "s@a"; recipients = []; body = [] });
}

handle-Turn_example :
    Turn server
      (verb_of (parse_line (codes "RCPT TO:<u@b>")).action)
      with_mail
      (handle decoders server (codes "RCPT TO:<u@b>") with_mail)
handle-Turn_example = handle-Turn server decoders (codes "RCPT TO:<u@b>") with_mail

abbrev unset : Server Log
unset = record server { max_message_size = 0; max_recipients = 0; hostname = []; force_tls = true }

parse_address_lem_example :
    (parse_address (codes "<u@b>") ≡ some (codes "u@b"))
    ↔ ((codes "<u@b>" ≡ (b'<' ∷ codes "u@b" ++ b'>' ∷ [])) × (ats (codes "<u@b>") ≤ 1))
parse_address_lem_example = parse_address_lem (codes "<u@b>") (codes "u@b")

abbrev fresh : Peer → Envelope → Relay → Bytes
fresh peer env r = codes "id"

relay_session_grows_example :
    (s : Session Relay) × (accept_session decoders
        (running_server inb conf fresh)
        0
        other_addr
        wire
        relay
      ≡ some s)
    × Grown relay s.world
    × Over s
relay_session_grows_example =
    relay_session_grows relay inb conf fresh decoders 0 other_addr wire (ground arith)

-- A client that has said its name, and whose text is on its way.
abbrev pub greeted : Session Log
greeted = record start {
  peer = record start.peer { helo_name = codes "h" };
  wire = record {
    scanned = [];
    buffered = [];
    network = (codes "x" ∷ codes "." ∷ []) ∷ [];
    handshakes = [];
  };
}

abbrev taken : Envelope
taken = record {
  sender = codes "s@a";
  recipients = codes "u@b" ∷ codes "v@b" ∷ [];
  body = b'x' ∷ 10 ∷ [];
}
