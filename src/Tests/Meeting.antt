-- ===== src/Tests/Meeting.antt =====
-- The client and a session at the two ends of a connection, on concrete inputs.
use smtprelay.Base.{
  ◌++◌, Option, length, ◌≤◌, ◌+◌, ◌-◌, ◌⊎◌, ◌&&◌, All, map, is_space, ap, if◌then◌else◌, eqb, ◌≡◌,
  refl, true, false, none, some, List, [], ◌∷◌, Bytes, codes, arith,
}
use smtprelay.Client.{ClientError, Answer, failed, command, Client}
use smtprelay.Client.Login.{Base64, plain_response, plain_auth, auth_line, client_auth}
use smtprelay.Client.Login.Plain.{Over, trusted, client_auth-plain}
use smtprelay.Smtpd.{Peer, Failure, plain_error, Server}
use smtprelay.Smtpd.Login.{Decoders}
use smtprelay.EndToEnd.Authenticating.{IsCodec, client_auth-accepted}
use smtprelay.Client.Sending.{transaction}
use smtprelay.Smtpd.{Session}
use smtprelay.Smtpd.Command.{deliver}
use smtprelay.EndToEnd
use smtprelay.EndToEnd.{Other, session_network, dot_written, joined}
use smtprelay.EndToEnd.Delivery.{transaction-delivered}
use smtprelay.Tests.Sessions.{Log, server, decoders, greeted}

abbrev lines : List Bytes
lines = codes "Hi" ∷ codes "..." ∷ [] ∷ codes "." ∷ []

abbrev caller : Client (Other Log)
caller = record {
  remote = record { session = greeted; command = []; text = [] };
  tls = false;
  server_name = codes "mx.a";
  ext = some ((codes "8BITMIME", []) ∷ []);
  auth = [];
  local_name = codes "h";
  did_hello = true;
  hello_error = none;
  said = [];
}

transaction-delivered_example :
    (d : Client (Other Log)) × (transaction
        (session_network decoders server)
        (codes "s@a")
        (codes "u@b" ∷ codes "v@b" ∷ [])
        (joined lines)
        caller
      ≡ (none, d))
    × (d.remote.session.world
        ≡ (
          greeted.peer,
          record {
            sender = codes "s@a";
            recipients = codes "u@b" ∷ codes "v@b" ∷ [];
            body = joined lines;
          },
        )
          ∷ [])
    × (d.remote.session.envelope ≡ none)
    × (d.remote.session.is_closed ≡ true)
unfolding deliver EndToEnd.text_lines smtprelay.Smtpd.new_session
transaction-delivered_example =
    transaction-delivered decoders server caller (codes "s@a") (codes "u@b") (codes "v@b" ∷ [])
      (joined lines)
      ((
        greeted.peer,
        record {
          sender = codes "s@a";
          recipients = codes "u@b" ∷ codes "v@b" ∷ [];
          body = joined lines;
        },
      )
        ∷ [])
      refl refl (record { did_hello = refl; no_error = refl }) refl refl refl (omega arith) refl
      (
        (((refl, refl), ((refl, refl), ((refl, refl), tt))), omega arith, omega arith),
        (
          (((refl, refl), ((refl, refl), ((refl, refl), tt))), omega arith, omega arith),
          ((((refl, refl), ((refl, refl), ((refl, refl), tt))), omega arith, omega arith), tt),
        ),
      )
      (omega arith) (omega arith) refl

-- In place of base64: each byte 33 further.
abbrev shifted : Bytes → Bytes
shifted = map (λ c. c + 33)

abbrev shift : Base64
shift = record {
  encode = shifted;
  decode = λ s. some (map (λ c. c - 33) s);
  complaint = λ s. codes "illegal";
}

abbrev unshift : Decoders
unshift = record { decode64 = λ s. some (map (λ c. c - 33) s); parse_ip = λ s. some s }

shifted-word : (s : Bytes) → All (λ c. is_space c ≡ false) (shifted s)
shifted-word [] = tt
shifted-word (c ∷ s) = (ground arith, shifted-word s)

shifted-back : (s : Bytes) → map (λ c. c - 33) (shifted s) ≡ s
shifted-back [] = refl
shifted-back (c ∷ s) = let same : (c + 33) - 33 ≡ c = omega arith in rw (same, shifted-back s) refl

shifted-some : (s : Bytes) → 1 ≤ length s → 1 ≤ length (shifted s)
shifted-some [] h = h
shifted-some (c ∷ s) h = omega arith

shift-IsCodec : IsCodec unshift shift
shift-IsCodec = record {
  one_word = shifted-word;
  some_word = shifted-some;
  decodes = λ s. ap some (shifted-back s);
}

-- A server that knows one password, and a session with it under TLS.
abbrev known : Peer → Bytes → Bytes → Option Failure
known peer username password =
    if eqb username (codes "u") && eqb password (codes "p")
    then none
    else some (plain_error (codes "no"))

abbrev guarded : Server Log
guarded = record server { authenticator = some known }

abbrev insider : Client (Other Log)
insider = record caller {
  remote = record { session = record greeted { tls = true }; command = []; text = [] };
  tls = true;
}

client_auth-plain_example :
    (e : Option ClientError) × (d : Client (Other Log)) × (client_auth shift
        (session_network unshift guarded)
        (plain_auth [] (codes "u") (codes "p") (codes "mx.a"))
        1
        caller
      ≡ some (e, d))
    × (((trusted caller (codes "mx.a") ≡ false)
          × (text : Bytes) × (e ≡ some (failed text))
          × (x : Answer) × (d.said ≡ caller.said ++ command (codes "QUIT") x ∷ []))
        ⊎ ((trusted caller (codes "mx.a") ≡ true)
            × (a : Answer) × Over
                (session_network unshift guarded)
                shift
                a
                e
                (caller.said
                  ++ command
                      (auth_line shift (codes "PLAIN") (plain_response [] (codes "u") (codes "p")))
                      a
                    ∷ [])
                d.said))
client_auth-plain_example =
    client_auth-plain (session_network unshift guarded) shift [] (codes "u") (codes "p")
      (codes "mx.a") 0 caller (record { did_hello = refl; no_error = refl })

client_auth-accepted_example :
    (d : Client (Other Log)) × (client_auth shift
        (session_network unshift guarded)
        (plain_auth [] (codes "u") (codes "p") (codes "mx.a"))
        1
        insider
      ≡ some (none, d))
    × (d.remote.session.peer
        ≡ record insider.remote.session.peer { username = codes "u"; password = codes "p" })
unfolding eqb smtprelay.Smtpd.new_session
client_auth-accepted_example =
    client_auth-accepted unshift guarded shift known [] (codes "u") (codes "p") (codes "mx.a") 0
      insider shift-IsCodec refl tt (refl, tt) (refl, tt)
      (record { did_hello = refl; no_error = refl }) refl refl refl (omega arith) refl (omega arith)
      refl
