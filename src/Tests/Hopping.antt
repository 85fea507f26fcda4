-- ===== src/Tests/Hopping.antt =====
-- A mail from the client into the queue of a relay, on concrete inputs.
use mathlib.Core.Path.{subst}
use smtprelay.Base.{
  ◌≡◌, ◌≤◌, ◌+◌, refl, sym, false, true, none, List, [], ◌∷◌, ◌++◌, arith, codes, Bytes, length,
  occurs, eqb, split, to_lower,
}
use smtprelay.Base.Outcome.{ok}
use smtprelay.Message.{
  Msg, domains, parse_message, parse_addresses, parse_address, parse_domain, add_domains, bump,
}
use smtprelay.Dns.{lookup_mail_server}
use smtprelay.Queue.{QueueEntry, Relay, push_all, push_mail, max_mail_buffer_size}
use smtprelay.Listener.{Envelope, server_of_domain}
use smtprelay.Listener.Smtp.{smtp_handler, handle_msg, build}
use smtprelay.Listener.Smtp.Accept.{parsed}
use smtprelay.Listener.Smtp.Entries.{recipients_of}
use smtprelay.Client.{Client}
use smtprelay.Client.Sending.{transaction}
use smtprelay.Smtpd
use smtprelay.Smtpd.{Session, other_addr, new_session}
use smtprelay.Smtpd.Relay.{running_server}
use smtprelay.EndToEnd.{Other, session_network, text_lines, joined}
use smtprelay.EndToEnd.Hop.{transaction-queued}
use smtprelay.Tests.Fixtures.{conf, inb, each_key, id, relay}
use smtprelay.Tests.Receiving.{msg}
use smtprelay.Tests.Sessions.{decoders}

abbrev fresh : Smtpd.Peer → Envelope → Relay → Bytes
fresh peer env r = id

-- A session of the relay with a client that has said its name.
abbrev session : Session Relay
session = record {
  peer = record {
    helo_name = codes "h";
    username = [];
    password = [];
    protocol = Smtpd.esmtp;
    server_name = codes "relay";
    addr = other_addr;
    tls = false;
  };
  envelope = none;
  tls = false;
  wire = record { scanned = []; buffered = []; network = []; handshakes = [] };
  is_closed = false;
  sent = [];
  course = Smtpd.going;
  world = relay;
}

abbrev caller : Client (Other Relay)
caller = record {
  remote = record { session = session; command = []; text = [] };
  tls = false;
  server_name = codes "relay";
  ext = none;
  auth = [];
  local_name = codes "h";
  did_hello = true;
  hello_error = none;
  said = [];
}

abbrev mail_text : Bytes
mail_text = joined (codes "text" ∷ [])

abbrev offered : Envelope
offered = record {
  sender = codes "s@a";
  recipients = codes "u@a" ∷ codes "v@a" ∷ [];
  body = mail_text;
}

abbrev after : Relay
after = (smtp_handler inb conf offered id relay).1

offered_accepted : smtp_handler inb conf offered id relay ≡ (ok tt, after)
unfolding smtp_handler parse_message parse_addresses parse_address parse_domain split add_domains
    bump eqb domains push_all push_mail lookup_mail_server server_of_domain to_lower handle_msg
    build
offered_accepted = refl

parse-offered : parsed inb conf offered id ≡ ok msg
unfolding parse_message parse_addresses parse_address parse_domain split add_domains bump eqb
parse-offered = refl

abbrev RoomFor : Msg → Type 0
RoomFor m = length relay.mail_queue + length (inb.visit (domains m)) ≤ max_mail_buffer_size

msg_room : RoomFor msg
unfolding domains
msg_room = omega arith

offered_room : (m : Msg) → parsed inb conf offered id ≡ ok m → RoomFor m
offered_room m p =
    let same : ok msg ≡ parsed inb conf offered id = sym parse-offered in
    let only : msg ≡ m = cc in subst RoomFor only msg_room

transaction-queued_example :
    (d : Client (Other Relay)) × (es : List QueueEntry) × (transaction
        (session_network decoders (running_server inb conf fresh))
        (codes "s@a")
        (codes "u@a" ∷ codes "v@a" ∷ [])
        mail_text
        caller
      ≡ (none, d))
    × (d.remote.session.world.mail_queue ≡ relay.mail_queue ++ es)
    × ((x : Bytes) → occurs x (codes "u@a" ∷ codes "v@a" ∷ []) ≤ occurs x (recipients_of es))
unfolding text_lines
transaction-queued_example =
    transaction-queued inb conf fresh each_key decoders caller (codes "s@a") (codes "u@a")
      (codes "v@a" ∷ []) mail_text after (record { did_hello = refl; no_error = refl }) refl refl
      refl (omega arith)
      (
        (((refl, refl), ((refl, refl), ((refl, refl), tt))), omega arith, omega arith),
        (
          (((refl, refl), ((refl, refl), ((refl, refl), tt))), omega arith, omega arith),
          ((((refl, refl), ((refl, refl), ((refl, refl), tt))), omega arith, omega arith), tt),
        ),
      )
      (omega arith) (omega arith) offered_room offered_accepted
