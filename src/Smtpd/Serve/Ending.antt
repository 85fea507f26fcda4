-- ===== src/Smtpd/Serve/Ending.antt =====
-- Every command, and the loop of a session, keep what Serve/Keeping says, and the loop does not go
-- round for ever.
use smtprelay.Base.{
  ℕ, zero, suc, ◌<◌, ◌≡◌, refl, Option, none, some, arith, Bool-cases, inl, inr, Bytes, ◌⊎◌, true,
}
use smtprelay.Listener.{Envelope}
use smtprelay.Smtpd.{
  Peer, Server, Wire, Session, Course, going, hung, panicked, close, welcome, reject, new_session,
  Addr,
}
use smtprelay.Smtpd.Command.{deliver, handle_rset, handle_noop, handle_quit}
use smtprelay.Smtpd.Serve.Keeping.{
  Good-Stays, Deliverable, Good, reply-Good, reset-Good, close-Good, wire-Good,
}
use smtprelay.Smtpd.Serve.Handing.{handle_data-Good}
use smtprelay.Smtpd.Input.{Scan, got, too_long, ended, scan, wire_size}
use smtprelay.Smtpd.Input.Sizes.{Consumes, scan-Consumes}
use smtprelay.Smtpd.Login.{Decoders}
use smtprelay.Smtpd.Serve.{
  Verb, helo, ehlo, mail, rcpt, starttls, text, rset, noop, quit, auth, xclient, unsupported,
  verb_of, dispatch, handle, next_round, round, serve_loop, close_after, closed_after, serve,
  has_place, accept_session,
}
use smtprelay.Smtpd.Command.{Command, parse_line}
use smtprelay.Smtpd.Serve.Staying.{welcome-Staying, handle_auth-Staying, handle_xclient-Staying}
use smtprelay.Smtpd.Serve.Opening.{
  handle_helo-Good, handle_ehlo-Good, handle_mail-Good, handle_rcpt-Good, handle_starttls-Good,
}
use smtprelay.Smtpd.Command.{world_after}

-- The session was closed, or hangs in a handler that does not come back.
abbrev pub Over : {W : Type 0} → Session W → Type 0
Over s = (s.course ≡ hung) ⊎ (s.is_closed ≡ true)

-- The handler keeps `P` on what it may be given.

module _ {W : Type 0} (decoders : Decoders) (server : Server W) (P : W → Type 0)
    (keeps : (peer : Peer) (env : Envelope) (w : W)
      → Deliverable server peer env
      → P w
      → P (world_after (deliver server peer env w))) where
  dispatch-Good :
      (k : ℕ) (v : Verb) (cmd : Command) (s : Session W)
      → Good server P k s
      → Good server P k (dispatch decoders server v cmd s)
  unfolding handle_rset handle_noop handle_quit
  dispatch-Good k helo cmd s g = handle_helo-Good server P k cmd.words s g
  dispatch-Good k ehlo cmd s g = handle_ehlo-Good server P k cmd.words s g
  dispatch-Good k mail cmd s g = handle_mail-Good server P k cmd.params s g
  dispatch-Good k rcpt cmd s g = handle_rcpt-Good server P k cmd.params s g
  dispatch-Good k starttls cmd s g = handle_starttls-Good server P k s g
  dispatch-Good k text cmd s g = handle_data-Good server P k keeps s g
  dispatch-Good k rset cmd s g = reply-Good server P k 250 _ _ (reset-Good server P k s g)
  dispatch-Good k noop cmd s g = reply-Good server P k 250 _ s g
  dispatch-Good k quit cmd s g = close-Good server P k _ (reply-Good server P k 221 _ s g)
  dispatch-Good k auth cmd s g =
      handle_auth-Staying decoders server (Good server P k) (Good-Stays server P k) cmd.words s g
  dispatch-Good k xclient cmd s g =
      handle_xclient-Staying decoders server (Good server P k) (Good-Stays server P k) cmd.words s g
  dispatch-Good k unsupported cmd s g = reply-Good server P k 502 _ s g

  pub handle-Good :
      (k : ℕ) (line : Bytes) (s : Session W)
      → Good server P k s
      → Good server P k (handle decoders server line s)
  unfolding handle
  handle-Good k line s g = dispatch-Good k (verb_of (parse_line line).action) (parse_line line) s g

  -- The loop has ended, or hangs in a handler, with a world that has the property.
  abbrev Ends : Option (Session W) → Type 0
  Ends none = ⊥
  Ends (some s) = P s.world

  next_round-Ends :
      (k : ℕ) (loop : Session W → Option (Session W)) (c : Course) (s : Session W)
      → (Good server P k s → Ends (loop s))
      → Good server P k s
      → Ends (next_round decoders server loop c s)
  next_round-Ends k loop going s h g = h g
  next_round-Ends k loop hung s h g = g.kept
  next_round-Ends k loop panicked s h g = g.kept

  round-Ends :
      (k : ℕ) (loop : Session W → Option (Session W)) (o : Scan) (s : Session W)
      → Consumes (wire_size s.wire) o
      → ((m : ℕ) (t : Session W) → m < k → Good server P m t → Ends (loop t))
      → Good server P k s
      → Ends (round decoders server loop o s)
  round-Ends k loop (got line rest) s fewer h g =
      let t = handle decoders server line (record s { wire = rest }) in
      let m = wire_size rest in
      next_round-Ends m loop t.course t (h m t (omega (arith, g.bounded)))
        (handle-Good m line _ (wire-Good server P k m rest s (omega arith) g))
  round-Ends k loop (too_long rest) s fewer h g =
      let m = wire_size rest in
      h m _ (omega (arith, g.bounded)) (
        reset-Good server P m _
          (reply-Good server P m 500 _ _ (wire-Good server P k m rest s (omega arith) g)))
  round-Ends k loop (ended rest) s fewer h g = g.kept

  serve_loop-Ends :
      (fuel k : ℕ) (s : Session W)
      → k < fuel
      → Good server P k s
      → Ends (serve_loop decoders server fuel s)
  unfolding serve_loop
  serve_loop-Ends zero k s h g = absurd (omega arith)
  serve_loop-Ends (suc fuel) k s h g =
      round-Ends k (serve_loop decoders server fuel) (scan s.wire) s (scan-Consumes s.wire)
        (λ m t fewer. serve_loop-Ends fuel m t (omega arith)) g

  -- The session is over, with a world that has the property.
  abbrev EndsOver : Option (Session W) → Type 0
  EndsOver none = ⊥
  EndsOver (some s) = P s.world × Over s

  closed_after-EndsOver :
      (o : Option (Session W)) → Ends o → EndsOver (closed_after decoders server o)
  closed_after-EndsOver none h = h
  closed_after-EndsOver (some s) h = by_course s.course refl
    where
      by_course : (c : Course) → s.course ≡ c → EndsOver (some (close_after decoders server c s))
      by_course going at = unfold close in (h, inr refl)
      by_course hung at = (h, inl at)
      by_course panicked at = unfold close in (h, inr refl)

  new_session-Good :
      (addr : Addr) (wire : Wire) (w : W)
      → P w
      → Good server P (wire_size wire) (new_session server addr wire w)
  unfolding new_session
  new_session-Good addr wire w p = record {
    open_envelope = tt;
    same_tls = refl;
    kept = p;
    bounded = omega arith;
  }

  serve-EndsOver : (k : ℕ) (s : Session W) → Good server P k s → EndsOver (serve decoders server s)
  unfolding serve
  serve-EndsOver k s g =
      let t = welcome server s in
      let h = welcome-Staying decoders server (Good server P k) (Good-Stays server P k) s g in
      closed_after-EndsOver (serve_loop decoders server (suc (wire_size t.wire)) t) (
        serve_loop-Ends (suc (wire_size t.wire)) (wire_size t.wire) t (omega arith)
          (wire-Good server P k (wire_size t.wire) t.wire t (omega arith) h))

  -- Whatever a client sends, in whatever order and pieces, its session is closed in the end, or stops for
  -- ever in a handler that does not come back, but never goes round for ever; and what the
  -- handler keeps on envelopes that have at least one recipient and no more than `MaxRecipients`, and a
  -- text shorter than `MaxMessageSize`, of a client that has said its name, and over TLS where TLS is
  -- forced, the session keeps: it hands no other envelope to the handler.
  pub accept_session_keeps :
      (n : ℕ) (addr : Addr) (wire : Wire) (w : W)
      → P w
      → (s : Session W) × (accept_session decoders server n addr wire w ≡ some s)
        × P s.world
        × Over s
  unfolding accept_session
  accept_session_keeps n addr wire w p =
      let t = new_session server addr wire w in
      let g = new_session-Good addr wire w p in
      elim (Bool-cases (has_place server.max_connections n)) [
        | inl free ↦
            let (s, run, q, over) =
              found (serve decoders server t) (serve-EndsOver (wire_size wire) t g) in
            (s, rw free run, q, over)
        | inr busy ↦ (
          reject t,
          rw busy refl,
          unfold new_session reject in p,
          unfold reject close in inr refl,
        )
      ]
    where
      found :
          (o : Option (Session W))
          → EndsOver o
          → (s : Session W) × (o ≡ some s) × P s.world × Over s
      found none h = absurd h
      found (some s) (p, over) = (s, refl, p, over)
