-- ===== src/Tests/Reading.antt =====
-- Answers of servers, MX records, addresses, keys and configurations, on concrete inputs.
use smtprelay.Base.{
  ◌≡◌, ◌≢◌, ◌↔◌, ◌⊎◌, ◌≤◌, refl, true, false, none, some, List, [], ◌∷◌, ◌++◌, arith, codes, pos,
  Bytes, split, eqb, Option,
}
use smtprelay.Base.Outcome.{ok, Returns}
use smtprelay.Status.{parse_outcoming_error, is_permanent, err_message_error_unknown}
use smtprelay.Status.Answer.{answer_text, parse_outcoming_error_answer}
use smtprelay.Dns.{Mx, lookup_mail_server, is_local}
use smtprelay.Dns.Server.{Serves, null_mx, lookup_mail_server-ok, lookup_mail_server-Returns}
use smtprelay.Message.{
  Msg, EmailAddress, parse_domain, parse_message, parse_addresses, parse_address, add_domains, bump,
}
use smtprelay.Message.Ending.{parse_message-Returns}
use smtprelay.Dkim.{
  Key, KeyDir, find_key, dkim_load_key_repository, dkim_sign, contains, crlf, normalise_lines,
  lf_to_crlf,
}
use smtprelay.Dkim.Repository.{dkim_sign_lem}
use smtprelay.Dkim.Lines.{no_bare_lf, normalise_lines_lem}
use smtprelay.Config.{Disk, Flags}
use smtprelay.Tests.Fixtures.{mail, plain_has_at, resolve, env, id, lib}

-- The texts of status_test.go.
parse_full :
    parse_outcoming_error (codes "450 TEST 123")
    ≡ record { code = pos 450; message = codes "TEST 123" }
unfolding parse_outcoming_error
parse_full = refl

parse_short : parse_outcoming_error (codes "12") ≡ err_message_error_unknown
unfolding parse_outcoming_error
parse_short = refl

parse_outcoming_error_answer_example :
    (parse_outcoming_error (answer_text 550 (codes "n" ++ b'o' ∷ []))
      ≡ record { code = pos 550; message = codes "n" ++ b'o' ∷ [] })
    × ((is_permanent (parse_outcoming_error (answer_text 550 (codes "n" ++ b'o' ∷ []))) ≡ true)
        ↔ ((500 ≤ 550) × (550 ≤ 599)))
parse_outcoming_error_answer_example =
    parse_outcoming_error_answer 550 b'o' (codes "n") (omega arith) refl

refused_permanent : is_permanent (parse_outcoming_error (codes "550 no")) ≡ true
unfolding is_permanent parse_outcoming_error
refused_permanent = refl

found_server : lookup_mail_server resolve (codes "a") 1 ≡ ok (codes "my:25")
unfolding lookup_mail_server eqb
found_server = refl

lookup_mail_server-ok_example : Serves resolve (codes "a") (codes "my:25") 1
lookup_mail_server-ok_example =
    lookup_mail_server-ok resolve (codes "a") (codes "my:25") 1 found_server

lookup_mail_server-Returns_example : Returns (lookup_mail_server resolve (codes "a") 5)
lookup_mail_server-Returns_example = lookup_mail_server-Returns resolve (codes "a") 5

-- Every domain has the null record.
abbrev null_resolve : Bytes → Option (List Mx)
null_resolve domain = some (null_mx 0 ∷ [])

a_not_local : is_local (codes "a") ≡ false
unfolding is_local eqb
a_not_local = refl

abbrev address : Bytes → Bytes → EmailAddress
address raw domain = record { raw_address = raw; address = raw; alias = []; domain = domain }

abbrev rcpt : List EmailAddress
rcpt = address (codes "u@a") (codes "a") ∷ address (codes "v@a") (codes "a") ∷ []

abbrev msg : Msg
msg = record {
  rcpt = rcpt;
  sender = address (codes "s@a") (codes "a");
  rcpt_domains = (codes "a", 2) ∷ [];
  message_id = codes "id-1";
  message = record { get = λ name. codes "id-1" };
}

msg_parsed : parse_message mail id env.recipients env.sender env.body ≡ ok msg
unfolding parse_message parse_addresses parse_address parse_domain split add_domains bump eqb
msg_parsed = refl

parse_message-Returns_example : Returns (parse_message mail id env.recipients env.sender env.body)
parse_message-Returns_example =
    parse_message-Returns mail plain_has_at id env.recipients env.sender env.body

-- A directory with the key of one domain.
abbrev dir : KeyDir
dir = record {
  names = some (codes "k" ∷ codes "k.config" ∷ []);
  read_file = λ name. some (codes "pem");
  decode = λ file. some (record { selector = codes "s"; domain = codes "a" });
}

abbrev key : Key (Unit {0}) (Unit {0})
key = record { selector = codes "s"; domain = codes "a"; pem = codes "pem"; conf = tt; signer = tt }

dir_loaded : dkim_load_key_repository lib dir ≡ some ((codes "a", key) ∷ [])
unfolding dkim_load_key_repository contains
dir_loaded = refl

text_signed : dkim_sign lib ((codes "a", key) ∷ []) (codes "x") (codes "a") ≡ (codes "#x", true)
unfolding dkim_sign find_key eqb normalise_lines contains lf_to_crlf
text_signed = refl

dkim_sign_lem_example :
    (key' : Key (Unit {0}) (Unit {0})) × (conf : Unit {0}) × (find_key lib
        (codes "a")
        ((codes "a", key) ∷ [])
      ≡ some key')
    × (key'.domain ≡ codes "a")
    × (codes "a" ≢ [])
    × (lib.new_conf (codes "a") key'.selector ≡ some conf)
    × (lib.sign (lib.with_conf key'.signer conf) (normalise_lines (codes "x")) ≡ some (codes "#x"))
dkim_sign_lem_example =
    dkim_sign_lem lib dir ((codes "a", key) ∷ []) (codes "x") (codes "a") (codes "#x") dir_loaded
      text_signed

-- Two lines, the first without a carriage return.
abbrev two_lines : Bytes
two_lines = b'x' ∷ 10 ∷ b'y' ∷ []

normalise_lines_lem_example :
    (normalise_lines (normalise_lines two_lines) ≡ normalise_lines two_lines)
    × (((contains two_lines crlf ≡ true) × (normalise_lines two_lines ≡ two_lines))
        ⊎ ((contains two_lines crlf ≡ false) × (no_bare_lf 0 (normalise_lines two_lines) ≡ true)))
normalise_lines_lem_example = normalise_lines_lem two_lines

abbrev no_disk : Disk
no_disk = record { read_file = λ name. none; unmarshal = λ file c. (false, c) }

abbrev flags : Flags
flags = record { main_config_file_path = codes "main"; log_config_file_path = codes "log" }
