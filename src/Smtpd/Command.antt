-- ===== src/Smtpd/Command.antt =====
-- smtpd/protocol.go and smtpd/address.go: the commands of a mail transaction.
pub mod Address
use smtprelay.Base.{
  ℕ, ◌-◌, leb, ltb, ◌==◌, Bool, true, false, not, ◌&&◌, ◌||◌, Option, none, some, List, [], ◌∷◌,
  ◌++◌, if◌then◌else◌, Bytes, codes, length, take, split, fields, to_upper, count_if, pos,
}
use smtprelay.Listener.{Envelope}
use smtprelay.Smtpd.{
  Protocol, smtp, esmtp, Peer, Failure, Server, Session, hung, send, reply, report, reset, close,
  checked, is_some, extensions, decimal,
}
use smtprelay.Smtpd.Input.{dot_read}

pub record Command : Type 0 where
  pub line : Bytes
  pub action : Bytes
  pub words : List Bytes  -- `fields`
  pub params : List Bytes

-- The parameters stand in the second word, between colons.
params_of : List Bytes → List Bytes
params_of [] = []
params_of (word ∷ words) = split b':' word

command_of : Bytes → List Bytes → Command
unfolding params_of
command_of line [] = record { line = line; action = []; words = []; params = [] }
command_of line (word ∷ words) = record {
  line = line;
  action = to_upper word;
  words = word ∷ words;
  params = params_of words;
}

unfoldable pub parse_line : Bytes → Command
unfolding command_of fields to_upper split
parse_line line = command_of line (fields line)

-- `src[len(src)-1]`, of a text that is not empty
abbrev last_byte : ℕ → Bytes → ℕ
last_byte c [] = c
last_byte c (d ∷ s) = last_byte d s

-- `parseAddress`; an error is `none`. The slice of `<` alone cannot be taken: its first byte is no `>`.
unfoldable pub parse_address : Bytes → Option Bytes
parse_address [] = none
parse_address (c ∷ src) =
    if not (c == b'<') || not (last_byte c src == b'>')
    then none
    else if ltb 1 (count_if (λ b. b == b'@') (c ∷ src))
    then none
    else some (take (length src - 1) src)

-- `cmd.params[1]`, if there are two.
abbrev pub second : List Bytes → Option Bytes
second [] = none
second (p ∷ []) = none
second (p ∷ q ∷ ps) = some q

abbrev pub address_of : Option Bytes → Option Bytes
address_of none = none
address_of (some param) = parse_address param

-- `session.handler` is called with the peer and the envelope.
pub data Delivery (W : Type 0) : Type 0 where
  delivered : Option Failure → W → Delivery W
  never : W → Delivery W

abbrev pub world_after : {W : Type 0} → Delivery W → W
world_after (delivered e w) = w
world_after (never w) = w

module _ {W : Type 0} (server : Server W) where
  -- `if err != nil { session.error(err); return }`, and else what follows
  abbrev pub unless : Option Failure → Session W → Session W → Session W
  unless none s next = next
  unless (some e) s next = report e s

  -- The dashed lines of an answer to EHLO, and the last one.
  abbrev pub send_extensions : List Bytes → Session W → Session W
  send_extensions [] s = s
  send_extensions (ext ∷ []) s = reply 250 ext s
  send_extensions (ext ∷ next ∷ exts) s =
      send_extensions (next ∷ exts) (send (record { code = pos 250; more = true; message = ext }) s)

  -- `if session.peer.HeloName != "" { session.reset() }`
  abbrev pub reset_again : Session W → Session W
  reset_again s = if length s.peer.helo_name == 0 then s else reset s

  abbrev pub introduced : Bytes → Protocol → Session W → Session W
  introduced name protocol s = record s {
    peer = record s.peer { helo_name = name; protocol = protocol };
  }

  -- `handleHELO`, with the word behind the command
  abbrev pub helo_as : Bytes → Session W → Session W
  helo_as name s =
      unless (checked server.helo_checker (λ check. check s.peer name)) s
        (reply 250 (codes "Go ahead") (introduced name smtp s))

  unfoldable pub handle_helo : List Bytes → Session W → Session W
  unfolding reply reset report
  handle_helo (word ∷ name ∷ words) s = helo_as name (reset_again s)
  handle_helo words s = reply 502 (codes "Missing parameter") s

  abbrev pub ehlo_as : Bytes → Session W → Session W
  ehlo_as name s =
      let t = introduced name esmtp s in
      let first = send (record { code = pos 250; more = true; message = server.hostname }) t in
      unless (checked server.helo_checker (λ check. check s.peer name)) s
        (send_extensions (extensions server first) first)

  unfoldable pub handle_ehlo : List Bytes → Session W → Session W
  unfolding reply reset report
  handle_ehlo (word ∷ name ∷ words) s = ehlo_as name (reset_again s)
  handle_ehlo words s = reply 502 (codes "Missing parameter") s

  -- The end of `handleMAIL`, with the address.
  abbrev pub mail_from : Option Bytes → Session W → Session W
  mail_from none s = reply 502 (codes "Ill-formatted e-mail address") s
  mail_from (some addr) s = unless (checked server.sender_checker (λ check. check s.peer addr)) s (
      reply 250 (codes "Go ahead")
        (record s { envelope = some (record { sender = addr; recipients = []; body = [] }) }))

  unfoldable pub handle_mail : List Bytes → Session W → Session W
  unfolding reply report parse_address
  handle_mail params s =
      if length s.peer.helo_name == 0
      then reply 502 (codes "Please introduce yourself first.") s
      else if not s.tls && server.force_tls
      then reply 502 (codes "Please turn on TLS by issuing a STARTTLS command.") s
      else if is_some s.envelope
      then reply 502 (codes "Duplicate MAIL") s
      else mail_from (address_of (second params)) s

  -- The end of `handleRCPT`, with the envelope and the address.
  abbrev pub rcpt_to : Envelope → Option Bytes → Session W → Session W
  rcpt_to env none s = reply 502 (codes "Ill-formatted e-mail address") s
  rcpt_to env (some addr) s =
      unless (checked server.recipient_checker (λ check. check s.peer addr)) s (
        reply 250 (codes "Go ahead")
          (record s { envelope = some (record env { recipients = env.recipients ++ addr ∷ [] }) }))

  abbrev pub rcpt_in : Option Envelope → List Bytes → Session W → Session W
  rcpt_in none params s = reply 502 (codes "Missing MAIL FROM command.") s
  rcpt_in (some env) params s =
      if leb server.max_recipients (length env.recipients)
      then reply 452 (codes "Too many recipients") s
      else rcpt_to env (address_of (second params)) s

  unfoldable pub handle_rcpt : List Bytes → Session W → Session W
  unfolding reply report parse_address
  handle_rcpt params s = rcpt_in s.envelope params s

  -- The connection behind a handshake: what was read of the old one is dropped.
  abbrev pub secured :
      Bool × List (List Bytes) → List (Bool × List (List Bytes)) → Session W → Session W
  secured (true, reads) later s = record (reset s) {
    wire = record { scanned = []; buffered = []; network = reads; handshakes = later };
    tls = true;
    peer = record s.peer { tls = true };
  }
  secured (false, reads) later s =
      reply 550 (codes "Handshake error")
        (record s { wire = record s.wire { network = reads; handshakes = later } })

  -- `tlsConn.Handshake()`: without one to come, it fails.
  abbrev pub handshake : List (Bool × List (List Bytes)) → Session W → Session W
  handshake [] s = reply 550 (codes "Handshake error") s
  handshake (next ∷ later) s = secured next later s

  unfoldable pub handle_starttls : Session W → Session W
  unfolding reply reset
  handle_starttls s =
      if s.tls
      then reply 502 (codes "Already running in TLS") s
      else if not server.has_tls_config
      then reply 502 (codes "TLS not supported") s
      else handshake s.wire.handshakes (reply 220 (codes "Go ahead") s)

  -- `session.deliver()`
  abbrev pub call : Option (Option Failure) × W → Delivery W
  call (none, w) = never w
  call (some e, w) = delivered e w

  unfoldable pub deliver : Peer → Envelope → W → Delivery W
  deliver peer env w = elim server.handler [
    | none ↦ delivered none w
    | some handler ↦ call (handler peer env w)
  ]

  -- What `handleDATA` answers to a complete message.
  abbrev pub answer : Delivery W → Session W → Session W
  answer (delivered none w) s = reset (reply 250 (codes "Thank you.") (record s { world = w }))
  answer (delivered (some e) w) s = reset (report e (record s { world = w }))
  answer (never w) s = record s { course = hung; world = w }

  unfoldable pub too_big : Session W → Session W
  unfolding reply decimal reset
  too_big s = reset (
      reply 552
        (codes "Message exceeded max message size of "
          ++ decimal server.max_message_size
          ++ codes " bytes")
        s)

  -- `handleDATA` after its first answer, with the text, whether it was complete, and the envelope. A
  -- text that fills `MaxMessageSize` is discarded up to its end.
  abbrev pub take_text : Bytes → Bool → Envelope → Session W → Session W
  take_text text complete env s =
      if ltb (length text) server.max_message_size
      then (if complete
          then answer (deliver s.peer (record env { body = text }) s.world)
              (record s { envelope = some (record env { body = text }) })
          else s)
      else (if complete then too_big s else s)

  abbrev pub receive : Envelope → Session W → Session W
  receive env s =
      let (text, complete, rest) = dot_read s.wire in
      take_text text complete env (record s { wire = rest })

  -- `if session.envelope == nil || len(session.envelope.Recipients) == 0 { … }`
  abbrev pub with_envelope : Option Envelope → Session W → Session W
  with_envelope none s = reply 502 (codes "Missing RCPT TO command.") s
  with_envelope (some env) s =
      if length env.recipients == 0
      then reply 502 (codes "Missing RCPT TO command.") s
      else receive env (reply 354 (codes "Go ahead. End your data with <CR><LF>.<CR><LF>") s)

  unfoldable pub handle_data : Session W → Session W
  unfolding reply reset report deliver too_big dot_read
  handle_data s = with_envelope s.envelope s

  unfoldable pub handle_rset : Session W → Session W
  unfolding reply reset
  handle_rset s = reply 250 (codes "Go ahead") (reset s)

  unfoldable pub handle_noop : Session W → Session W
  unfolding reply
  handle_noop s = reply 250 (codes "Go ahead") s

  unfoldable pub handle_quit : Session W → Session W
  unfolding reply close
  handle_quit s = close (reply 221 (codes "OK, bye") s)
