-- ===== src/Tests/Mailing.antt =====
-- Runs of the SMTP client, on concrete inputs.
use smtprelay.Base.{
  ◌≡◌, refl, false, Option, none, some, List, [], ◌∷◌, ◌++◌, Bytes, codes, split, split_n2,
  to_upper, eqb,
}
use smtprelay.Client.{
  Answer, answered, broken, ClientError, refused, failed, Exchange, Network, Client, cmd, cmd_error,
  ehlo, hello, start_tls, mail, rcpt, begin_data, close_data, close, quit, extension, put_lines,
  lookup,
}
use smtprelay.Client.Sending.{dial, rcpts, write, transaction, converse, send_mail}
use smtprelay.Base.{arith}
use smtprelay.Base.Outcome.{ok}
use smtprelay.Queue.{Relay}
use smtprelay.Sender
use smtprelay.Sender.Attempt.{Dropped}
use smtprelay.Client.Relayed.{over_client, client_run, refusal-Dropped}
use smtprelay.Tests.Fixtures.{conf, lib, repo, outside, entry, relay}
use smtprelay.Client.Greeted.{Ended}
use smtprelay.Client.Refused.{send_mail_refused}
use smtprelay.Client.Accepted.{Delivered, send_mail-Delivered}

-- The other side has its answers ready.
abbrev next_answer : List Answer → Answer × List Answer
next_answer [] = (broken (codes "EOF"), [])
next_answer (a ∷ rest) = (a, rest)

abbrev net : Network (List Answer)
net = record {
  dial = λ addr rest. (none, rest);
  host = λ addr. addr;
  greet = next_answer;
  ask = λ line. next_answer;
  write = λ text rest. (none, rest);
  finish = next_answer;
  secure = λ rest. rest;
  hang_up = λ rest. (none, rest);
}

abbrev fine : Answer
fine = answered 250 (codes "ok")

abbrev willing : List Answer
willing =
    answered 220 (codes "hi")
    ∷ answered 250 (codes "mx" ++ 10 ∷ codes "8BITMIME")
    ∷ fine
    ∷ fine
    ∷ answered 251 (codes "forwarded")
    ∷ answered 354 (codes "go")
    ∷ fine
    ∷ answered 221 (codes "bye")
    ∷ []

abbrev to : List Bytes
to = codes "u@b" ∷ codes "v@b" ∷ []

-- The second recipient is refused.
abbrev unwilling : List Answer
unwilling = answered 220 (codes "hi") ∷ fine ∷ fine ∷ fine ∷ answered 550 (codes "no") ∷ []

abbrev run_of : List Answer → Option ClientError × Option (Client (List Answer))
run_of rest = send_mail net (codes "mx:25") (codes "s@a") to (codes "text") (codes "relay") rest

abbrev client_of : Option (Client (List Answer)) → Client (List Answer)
client_of (some c) = c
client_of none = record {
  remote = [];
  tls = false;
  server_name = [];
  ext = none;
  auth = [];
  local_name = [];
  did_hello = false;
  hello_error = none;
  said = [];
}

abbrev sent : Client (List Answer)
sent = client_of (run_of willing).1

abbrev stopped : Client (List Answer)
stopped = client_of (run_of unwilling).1

willing_sent : run_of willing ≡ (none, some sent)
unfolding send_mail dial converse hello ehlo cmd cmd_error extension start_tls transaction mail
    rcpts rcpt begin_data write close_data quit close put_lines lookup split split_n2 to_upper eqb
willing_sent = refl

unwilling_refused : run_of unwilling ≡ (some (refused 550 (codes "no")), some stopped)
unfolding send_mail dial converse hello ehlo cmd cmd_error extension start_tls transaction mail
    rcpts rcpt begin_data write close_data quit close put_lines lookup split split_n2 to_upper eqb
unwilling_refused = refl

-- The server takes the message, and closes the connection before it answers to QUIT.
abbrev hasty : List Answer
hasty =
    answered 220 (codes "hi") ∷ fine ∷ fine ∷ fine ∷ fine ∷ answered 354 (codes "go") ∷ fine ∷ []

-- Then the message counts as unsent.
unanswered_end : (run_of hasty).0 ≡ some (failed (codes "EOF"))
unfolding send_mail dial converse hello ehlo cmd cmd_error extension start_tls transaction mail
    rcpts rcpt begin_data write close_data quit close put_lines lookup split split_n2 to_upper eqb
unanswered_end = refl

send_mail-Delivered_example :
    (before : List Exchange) × (said : List Exchange) × Delivered net
      (codes "s@a")
      to
      (codes "text")
      said
    × (sent.said ≡ before ++ said)
send_mail-Delivered_example =
    send_mail-Delivered net (codes "mx:25") (codes "s@a") to (codes "text") (codes "relay") willing
      willing_sent

send_mail_refused_example : Ended 550 (codes "no") stopped.said
send_mail_refused_example =
    send_mail_refused net (codes "mx:25") (codes "s@a") to (codes "text") (codes "relay") unwilling
      unwilling_refused

-- The only recipient is refused.
abbrev refusing : List Answer
refusing = answered 220 (codes "hi") ∷ fine ∷ fine ∷ answered 550 (codes "no") ∷ []

abbrev refused_client : Client (List Answer)
refused_client = client_of (client_run net refusing lib repo conf (outside none) entry).1

refusing_run :
    client_run net refusing lib repo conf (outside none) entry
    ≡ (some (refused 550 (codes "no")), some refused_client)
unfolding send_mail dial converse hello ehlo cmd cmd_error extension start_tls transaction mail
    rcpts rcpt begin_data write close_data quit close put_lines lookup split split_n2 to_upper eqb
refusing_run = refl

refusal-Dropped_example :
    (relay' : Relay) × (Sender.send_mail lib repo conf
        (over_client net refusing (outside none))
        entry
        relay
      ≡ (ok tt, relay'))
    × Dropped relay relay'
    × Ended 550 (codes "no") refused_client.said
refusal-Dropped_example =
    refusal-Dropped net refusing lib repo conf (outside none) entry relay 550 b'o' (codes "n")
      refused_client refusing_run (omega arith) (omega arith) refl (omega arith) (omega arith)
