-- ===== src/Tests/Serving.antt =====
-- Three connections to an SMTP server with two places, as steps of its loop.
use smtprelay.Base.{◌≡◌, refl, none, some, Option, [], ◌∷◌}
use smtprelay.Base.{eqb}
use smtprelay.Smtpd.{Session, other_addr, new_session, reject, going, welcome, extensions}
use smtprelay.Smtpd.Input.{scan}
use smtprelay.Smtpd.Command.{
  parse_line, handle_ehlo, handle_mail, handle_rcpt, handle_data, handle_quit,
}
use smtprelay.Smtpd.Serve.{serve, handle, verb_of}
use smtprelay.Smtpd.Listening.{
  Conn, Listening, open_listener, Reach, here, next, accept, place, turn_away, end,
}
use smtprelay.Smtpd.Listening.Limits.{Within, Reach-Within}
use smtprelay.Tests.Sessions.{Log, server, decoders, wire, start, Few, keep_envelope-Few}

abbrev conn : Conn
conn = record { addr = other_addr; wire = wire }

abbrev opened : Listening Log
opened = open_listener decoders server []

abbrev three : Listening Log
three = record opened { spawned = conn ∷ conn ∷ conn ∷ [] }

abbrev full : Listening Log
full = record opened { limiter = 2; spawned = conn ∷ []; serving = conn ∷ conn ∷ [] }

abbrev turned : Listening Log
turned = record full { spawned = []; rejected = reject start ∷ [] }

abbrev or_start : Option (Session Log) → Session Log
or_start none = start
or_start (some s) = s

abbrev last : Session Log
last = or_start (serve decoders server start)

abbrev served : Listening Log
served = record turned { limiter = 1; serving = conn ∷ []; world = last.world }

last_served : serve decoders server start ≡ some last
unfolding serve scan welcome new_session handle verb_of eqb parse_line handle_ehlo extensions
    handle_mail handle_rcpt handle_data handle_quit
last_served = refl

last_going : last.course ≡ going
unfolding serve scan welcome new_session handle verb_of eqb parse_line handle_ehlo extensions
    handle_mail handle_rcpt handle_data handle_quit
last_going = refl

served-Reach : Reach decoders server opened served
served-Reach =
    let waiting : Reach decoders server opened three =
      next (next (next here (accept conn refl)) (accept conn refl)) (accept conn refl) in
    let busy : Reach decoders server opened full =
      next (next waiting (place [] (conn ∷ conn ∷ []) conn refl refl refl))
        (place [] (conn ∷ []) conn refl refl refl) in
    next (next busy (turn_away [] [] conn refl refl refl))
      (end [] (conn ∷ []) conn last refl last_served last_going refl)

Reach-Within_example : Within decoders server Few keep_envelope-Few served
Reach-Within_example = Reach-Within decoders server Few keep_envelope-Few [] tt served-Reach
