-- ===== src/Smtpd/Serve.antt =====
-- The dispatch of the commands, and the loop of a session: `handle` of smtpd/protocol.go, `serve`,
-- `Serve` and `configureDefaults` of smtpd/smtpd.go.
pub mod Keeping
pub mod Opening
pub mod Handing
pub mod Stays
pub mod Staying
pub mod Turns
pub mod Refining
pub mod Refined
pub mod Defaults
pub mod Carried
pub mod Ending
use smtprelay.Base.{
  ℕ, zero, suc, ◌+◌, ◌*◌, ltb, ◌==◌, Bool, true, false, not, ◌&&◌, Option, none, some, List, [],
  ◌∷◌, ◌++◌, ℤ, pos, negsuc, if◌then◌else◌, Bytes, codes, eqb, length,
}
use smtprelay.Queue.{second}
use smtprelay.Smtpd.{
  Server, Wire, Session, Addr, Course, going, hung, panicked, reply, reset, close, reject, welcome,
  new_session,
}
use smtprelay.Smtpd.Input.{Scan, got, too_long, ended, scan, wire_size}
use smtprelay.Smtpd.Command.{
  Command, parse_line, handle_helo, handle_ehlo, handle_mail, handle_rcpt, handle_starttls,
  handle_data, handle_rset, handle_noop, handle_quit,
}
use smtprelay.Smtpd.Login.{Decoders, handle_auth}
use smtprelay.Smtpd.Proxy.{handle_xclient}

-- The cases of `switch cmd.action`.
pub data Verb : Type 0 where
  helo ehlo mail rcpt starttls text rset noop quit auth xclient unsupported : Verb

-- The first case whose name is the action.
verb_in : List (Bytes × Verb) → Bytes → Verb
verb_in [] action = unsupported
verb_in ((name, verb) ∷ verbs) action = if eqb action name then verb else verb_in verbs action

unfoldable pub verb_of : Bytes → Verb
unfolding verb_in
verb_of = verb_in (
    (codes "HELO", helo)
    ∷ (codes "EHLO", ehlo)
    ∷ (codes "MAIL", mail)
    ∷ (codes "RCPT", rcpt)
    ∷ (codes "STARTTLS", starttls)
    ∷ (codes "DATA", text)
    ∷ (codes "RSET", rset)
    ∷ (codes "NOOP", noop)
    ∷ (codes "QUIT", quit)
    ∷ (codes "AUTH", auth)
    ∷ (codes "XCLIENT", xclient)
    ∷ [])

-- The limiter of `Serve`: with `n` sessions under way, a new connection is served if there is no
-- limit or a place, and else rejected.
abbrev pub has_place : ℤ → ℕ → Bool
has_place (pos zero) n = true
has_place (pos (suc k)) n = ltb n (suc k)
has_place (negsuc k) n = true

abbrev pub connections_or_default : ℤ → ℤ
connections_or_default (pos zero) = pos 100
connections_or_default (pos (suc n)) = pos (suc n)
connections_or_default (negsuc n) = negsuc n

module _ {W : Type 0} where
  -- `configureDefaults`: whether there is no error, and the server with what was set by then.
  abbrev pub with_numbers : Server W → Server W
  with_numbers server = record server {
    max_message_size = if server.max_message_size == 0 then 10240000 else server.max_message_size;
    max_connections = connections_or_default server.max_connections;
    max_recipients = if server.max_recipients == 0 then 100 else server.max_recipients;
    read_timeout = if server.read_timeout == 0 then second * 60 else server.read_timeout;
    write_timeout = if server.write_timeout == 0 then second * 60 else server.write_timeout;
    data_timeout = if server.data_timeout == 0 then second * 300 else server.data_timeout;
  }

  abbrev pub with_names : Server W → Server W
  with_names server =
      let name =
        if length server.hostname == 0 then codes "localhost.localdomain" else server.hostname in
      record server {
        hostname = name;
        welcome_message =
            if length server.welcome_message == 0
            then name ++ codes " ESMTP ready."
            else server.welcome_message;
      }

  unfoldable pub configure_defaults : Server W → Bool × Server W
  configure_defaults server =
      let next = with_numbers server in
      if next.force_tls && not next.has_tls_config then (false, next) else (true, with_names next)

  module _ (decoders : Decoders) (server : Server W) where
    abbrev pub dispatch : Verb → Command → Session W → Session W
    dispatch helo cmd s = handle_helo server cmd.words s
    dispatch ehlo cmd s = handle_ehlo server cmd.words s
    dispatch mail cmd s = handle_mail server cmd.params s
    dispatch rcpt cmd s = handle_rcpt server cmd.params s
    dispatch starttls cmd s = handle_starttls server s
    dispatch text cmd s = handle_data server s
    dispatch rset cmd s = handle_rset server s
    dispatch noop cmd s = handle_noop server s
    dispatch quit cmd s = handle_quit server s
    dispatch auth cmd s = handle_auth decoders server cmd.words s
    dispatch xclient cmd s = handle_xclient decoders server cmd.words s
    dispatch unsupported cmd s = reply 502 (codes "Unsupported command.") s

    unfoldable pub handle : Bytes → Session W → Session W
    unfolding reply
    handle line s = let cmd = parse_line line in dispatch (verb_of cmd.action) cmd s

    -- After a command the loop goes on, if the goroutine does.
    abbrev pub next_round :
        (Session W → Option (Session W)) → Course → Session W → Option (Session W)
    next_round loop going s = loop s
    next_round loop hung s = some s
    next_round loop panicked s = some s

    abbrev pub round : (Session W → Option (Session W)) → Scan → Session W → Option (Session W)
    round loop (got line rest) s =
        let t = handle line (record s { wire = rest }) in next_round loop t.course t
    round loop (too_long rest) s =
        loop (reset (reply 500 (codes "Line too long") (record s { wire = rest })))
    round loop (ended rest) s = some (record s { wire = rest })

    -- The loop of `serve`, with fuel; `none` means that the fuel ran out.
    unfoldable pub serve_loop : ℕ → Session W → Option (Session W)
    unfolding reply reset
    serve_loop zero s = none
    serve_loop (suc fuel) s = round (serve_loop fuel) (scan s.wire) s

    -- `defer session.close()`, which does not run while the handler hangs.
    abbrev pub close_after : Course → Session W → Session W
    close_after going s = close s
    close_after hung s = s
    close_after panicked s = close s

    abbrev pub closed_after : Option (Session W) → Option (Session W)
    closed_after none = none
    closed_after (some s) = some (close_after s.course s)

    -- `serve`
    unfoldable pub serve : Session W → Option (Session W)
    unfolding serve_loop close
    serve s = let t = welcome server s in closed_after (serve_loop (suc (wire_size t.wire)) t)

    unfoldable pub accept_session : ℕ → Addr → Wire → W → Option (Session W)
    unfolding serve new_session reject
    accept_session n addr wire w =
        let s = new_session server addr wire w in
        if has_place server.max_connections n then serve s else some (reject s)
