-- ===== src/Tests/Receiving.antt =====
-- Messages and frames that come in, on concrete inputs.
use mathlib.Core.Path.{subst}
use smtprelay.Base.{
  ℕ, ◌≡◌, ◌≤◌, ◌<◌, ◌+◌, refl, List, [], ◌∷◌, ◌++◌, arith, ap, sym, codes, Bytes, split, length,
  occurs, equal_fold, eqb, to_lower,
}
use smtprelay.Base.Outcome.{ok}
use smtprelay.Message.{
  Msg, EmailAddress, domains, parse_message, parse_addresses, parse_address, parse_domain,
  add_domains, bump,
}
use smtprelay.Message.Spelling.{OneSpelling}
use smtprelay.Dns.{lookup_mail_server}
use smtprelay.Queue.{QueueEntry, Relay, push_all, push_mail, max_mail_buffer_size}
use smtprelay.Listener.{server_of_domain}
use smtprelay.Listener.Smtp.{smtp_handler, handle_msg, build}
use smtprelay.Listener.Smtp.Entries.{recipients_of}
use smtprelay.Listener.Smtp.Accept.{HandlerEnds, parsed, smtp_handler_lem}
use smtprelay.Listener.Smtp.Delivery.{accepted_covers, accepted_exact, accepted_repeats}
use smtprelay.Tests.Fixtures.{conf, inb, each_key, env, env_twice, id, relay}

abbrev address : Bytes → Bytes → EmailAddress
address raw domain = record { raw_address = raw; address = raw; alias = []; domain = domain }

abbrev msg_of : EmailAddress → EmailAddress → List (Bytes × ℕ) → Msg
msg_of a b ds = record {
  rcpt = a ∷ b ∷ [];
  sender = address (codes "s@a") (codes "a");
  rcpt_domains = ds;
  message_id = codes "id-1";
  message = record { get = λ name. codes "id-1" };
}

abbrev pub msg : Msg
msg =
    msg_of (address (codes "u@a") (codes "a")) (address (codes "v@a") (codes "a"))
      ((codes "a", 2) ∷ [])

abbrev msg_twice : Msg
msg_twice =
    msg_of (address (codes "u@a") (codes "a")) (address (codes "v@A") (codes "A"))
      ((codes "a", 1) ∷ (codes "A", 1) ∷ [])

parse-env : parsed inb conf env id ≡ ok msg
unfolding parse_message parse_addresses parse_address parse_domain split add_domains bump eqb
parse-env = refl

parse-env_twice : parsed inb conf env_twice id ≡ ok msg_twice
unfolding parse_message parse_addresses parse_address parse_domain split add_domains bump eqb
parse-env_twice = refl

-- Every message that this envelope parses to is that one.
only_message : (m : Msg) → parsed inb conf env id ≡ ok m → msg ≡ m
only_message m p = let same : ok msg ≡ parsed inb conf env id = sym parse-env in cc

only_message_twice : (m : Msg) → parsed inb conf env_twice id ≡ ok m → msg_twice ≡ m
only_message_twice m p =
    let same : ok msg_twice ≡ parsed inb conf env_twice id = sym parse-env_twice in cc

-- The mail queue has room for the entries of a message.
abbrev RoomFor : Msg → Type 0
RoomFor m = length relay.mail_queue + length (inb.visit (domains m)) ≤ max_mail_buffer_size

msg_room : RoomFor msg
unfolding domains
msg_room = omega arith

msg_twice_room : RoomFor msg_twice
unfolding domains
msg_twice_room = omega arith

env_room : (m : Msg) → parsed inb conf env id ≡ ok m → RoomFor m
env_room m p = subst RoomFor (only_message m p) msg_room

env_twice_room : (m : Msg) → parsed inb conf env_twice id ≡ ok m → RoomFor m
env_twice_room m p = subst RoomFor (only_message_twice m p) msg_twice_room

smtp_handler_lem_example : HandlerEnds inb conf env id relay
smtp_handler_lem_example = smtp_handler_lem inb conf env id relay env_room

abbrev after : Relay
after = (smtp_handler inb conf env id relay).1

env_accepted : smtp_handler inb conf env id relay ≡ (ok tt, after)
unfolding smtp_handler parse_message parse_addresses parse_address parse_domain split add_domains
    bump eqb domains push_all push_mail lookup_mail_server server_of_domain to_lower handle_msg
    build
env_accepted = refl

abbrev after_twice : Relay
after_twice = (smtp_handler inb conf env_twice id relay).1

env_twice_accepted : smtp_handler inb conf env_twice id relay ≡ (ok tt, after_twice)
unfolding smtp_handler parse_message parse_addresses parse_address parse_domain split add_domains
    bump eqb domains push_all push_mail lookup_mail_server server_of_domain to_lower handle_msg
    build
env_twice_accepted = refl

accepted_covers_example :
    (es : List QueueEntry) × (after.mail_queue ≡ relay.mail_queue ++ es)
    × ((a : Bytes) → occurs a env.recipients ≤ occurs a (recipients_of es))
accepted_covers_example = accepted_covers inb conf env id each_key relay after env_room env_accepted

msg_OneSpelling : OneSpelling msg.rcpt
unfolding equal_fold
msg_OneSpelling = ground arith

env-OneSpelling : (m : Msg) → parsed inb conf env id ≡ ok m → OneSpelling m.rcpt
env-OneSpelling m p = subst (λ m. OneSpelling m.rcpt) (only_message m p) msg_OneSpelling

accepted_exact_example :
    (es : List QueueEntry) × (after.mail_queue ≡ relay.mail_queue ++ es)
    × ((a : Bytes) → occurs a (recipients_of es) ≡ occurs a env.recipients)
accepted_exact_example =
    accepted_exact inb conf env id each_key relay after env_room env_accepted env-OneSpelling

env_twice_rcpt : (m : Msg) → parsed inb conf env_twice id ≡ ok m → m.rcpt ≡ msg_twice.rcpt
env_twice_rcpt m p = ap (λ m. m.rcpt) (sym (only_message_twice m p))

accepted_repeats_example :
    (es : List QueueEntry) × (after_twice.mail_queue ≡ relay.mail_queue ++ es)
    × (occurs (codes "u@a") env_twice.recipients < occurs (codes "u@a") (recipients_of es))
unfolding equal_fold
accepted_repeats_example =
    accepted_repeats inb conf env_twice id each_key relay after_twice env_twice_room
      env_twice_accepted (address (codes "u@a") (codes "a")) (address (codes "v@A") (codes "A")) []
      env_twice_rcpt (λ h. absurd (ground arith)) refl
