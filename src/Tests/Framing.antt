-- ===== src/Tests/Framing.antt =====
-- Frames, packets and the TCP server, on concrete inputs.
use smtprelay.Base.{
  ℕ, ◌≡◌, ◌≤◌, ◌+◌, ◌-◌, refl, none, some, List, [], ◌∷◌, arith, codes, Bytes, split, length, eqb,
  to_lower, ◌==◌, if◌then◌else◌,
}
use smtprelay.Base.Outcome.{ok}
use smtprelay.Message.{
  domains, parse_message, parse_addresses, parse_address, parse_domain, add_domains, bump,
}
use smtprelay.Dns.{lookup_mail_server}
use smtprelay.Queue.{Relay, max_mail_buffer_size}
use smtprelay.Packet.{EmailMessageWithByteArray, get_sender, get_recipients, get_eml_data}
use smtprelay.Listener.{server_of_domain}
use smtprelay.Listener.Tcp.{tcp_handler, process}
use smtprelay.Listener.Tcp.Wire.{Codec, Conn, eof, read_meta_data, read_payload}
use smtprelay.Listener.Tcp.Frames.{le_value, frame_lem}
use smtprelay.Listener.Tcp.Routes.{Processed, found}
use smtprelay.Listener.Tcp.Emails.{packet_entries, packet_drops, process_lem}
use smtprelay.Listener.Tcp.Limits.{carried, tcp_handler_lem}
use smtprelay.Tests.Fixtures.{conf, inb, plain_has_at, id, relay}
use smtprelay.Listener.Tcp.{acquire_handler}
use smtprelay.Listener.Tcp.Serving.{
  Server, open_server, handlers_gone, with_connection, serve_conn, connect, begin, Serving, opened,
  later,
}
use smtprelay.Listener.Tcp.Places.{
  Placed, HasRoomFor, Serving-Placed, Serving-ends, handlers_gone_lem,
}

-- A compressed packet is the packet itself, with two messages; the second has no recipients.
abbrev email : EmailMessageWithByteArray
email = record {
  sender = some (codes "s@a");
  recipients = codes "u@a" ∷ codes "w@b" ∷ [];
  eml_data = codes "text";
  message_id = none;
}

abbrev no_email : EmailMessageWithByteArray
no_email = record { sender = none; recipients = []; eml_data = []; message_id = none }

abbrev emails : List EmailMessageWithByteArray
emails = email ∷ no_email ∷ []

abbrev codec : Codec
codec = record {
  decode_fixed32 = λ b. if length b == 4 then some (le_value b) else none;
  unmarshal = λ payload. some emails;
  gunzip = λ compressed. some compressed;
}

fixed32 : (b : Bytes) → length b ≡ 4 → codec.decode_fixed32 b ≡ some (le_value b)
fixed32 b h = ground arith

abbrev ids : ℕ → Bytes
ids i = id

emails_room :
    length relay.mail_queue + length (packet_entries inb conf ids 0 emails) ≤ max_mail_buffer_size
unfolding get_sender get_recipients get_eml_data found parse_message parse_addresses parse_address
    parse_domain split add_domains bump eqb domains lookup_mail_server server_of_domain to_lower
emails_room = let one : length (packet_entries inb conf ids 0 emails) ≡ 1 = refl in omega arith

process_lem_example :
    (r' : Relay) × (process inb conf ids 0 emails relay ≡ (ok tt, r'))
    × Processed (packet_entries inb conf ids 0 emails) (packet_drops inb conf ids 0 emails) relay r'
process_lem_example = process_lem inb conf plain_has_at ids 0 emails relay emails_room

-- A frame of two bytes in two pieces.
abbrev conn : Conn
conn = record { pieces = (2 ∷ 0 ∷ 0 ∷ 0 ∷ 5 ∷ []) ∷ (6 ∷ []) ∷ []; ending = eof }

conn_carries : (carried codec conn).1 ≡ emails
unfolding read_meta_data read_payload
conn_carries = refl

carried_room :
    length relay.mail_queue + length (packet_entries inb conf ids 0 (carried codec conn).1)
    ≤ max_mail_buffer_size
carried_room = rw conn_carries emails_room

tcp_handler_lem_example :
    (r' : Relay) × (tcp_handler inb conf codec ids conn relay ≡ (ok (carried codec conn).0, r'))
    × Processed
        (packet_entries inb conf ids 0 (carried codec conn).1)
        (packet_drops inb conf ids 0 (carried codec conn).1)
        (record relay { tcp_connections_limiter = relay.tcp_connections_limiter - 1 })
        r'
tcp_handler_lem_example =
    tcp_handler_lem inb conf codec ids plain_has_at conn relay (omega arith) (omega arith)
      carried_room

abbrev payload : Bytes
payload = 5 ∷ 6 ∷ []

frame_lem_example :
    (rest : Conn) × (read_meta_data codec conn ≡ ok (length payload, rest))
    × (read_payload (length payload) rest ≡ ok payload)
frame_lem_example =
    frame_lem codec fixed32 payload [] (2 ∷ 0 ∷ 0 ∷ 0 ∷ 5 ∷ []) ((6 ∷ []) ∷ []) eof (omega arith)
      (omega arith) refl

-- A connection is accepted, and its handler gets a place.
abbrev begun : Server
begun = record {
  relay = record (with_connection (open_server relay).relay) { tcp_handlers_limiter = 1 };
  waiting = 0;
  busy = 1;
  working = 0;
}

begun_state : Serving inb conf codec ids relay begun
unfolding open_server acquire_handler
begun_state = later (later opened (connect (omega arith) refl)) (begin 0 begun.relay refl refl refl)

Serving-Placed_example : Placed inb conf codec ids plain_has_at begun
Serving-Placed_example = Serving-Placed inb conf codec ids plain_has_at relay begun_state

begun_room : HasRoomFor inb conf codec ids plain_has_at conn begun.relay
unfolding open_server
begun_room = carried_room

Serving-ends_example :
    (r' : Relay) × (serve_conn inb conf codec ids conn begun.relay
      ≡ (ok (carried codec conn).0, r'))
Serving-ends_example =
    Serving-ends inb conf codec ids plain_has_at relay begun conn begun_state (omega arith)
      begun_room

abbrev idle : Server
idle = record {
  relay = with_connection (open_server relay).relay;
  waiting = 1;
  busy = 0;
  working = 0;
}

idle_state : Serving inb conf codec ids relay idle
unfolding open_server
idle_state = later opened (connect (omega arith) refl)

handlers_gone_lem_example :
    (idle.busy ≡ 0) × (idle.working ≡ 0) × (idle.relay.tcp_connections_limiter ≡ idle.waiting)
handlers_gone_lem_example =
    handlers_gone_lem inb conf codec ids plain_has_at relay idle idle_state
      (unfold handlers_gone open_server in refl)
