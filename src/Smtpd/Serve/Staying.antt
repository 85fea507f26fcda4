-- ===== src/Smtpd/Serve/Staying.antt =====
-- AUTH, XCLIENT and the welcome change no property of that kind.
use smtprelay.Base.{
  ◌≤◌, refl, not, Option, none, some, List, [], ◌∷◌, arith, Bytes, length, ◌==◌, codes, eqb, split,
  to_upper,
}
use smtprelay.Smtpd.{
  Peer, Failure, Server, Session, welcome, checked, welcomed, Addr, tcp_addr, other_addr,
}
use smtprelay.Smtpd.Serve.Stays.{Stays, reply-Staying, report-Staying, if-Staying, unless-Staying}
use smtprelay.Smtpd.Input.{Scan, got, too_long, ended, scan, wire_size}
use smtprelay.Smtpd.Input.Sizes.{Consumes, scan-Consumes}
use smtprelay.Smtpd.Login.{
  Decoders, with_scan, with_text, with_decoded, authenticate, plain_parts, plain, login,
  login_password, ask_password, login_name, plain_given, auth_with, auth_checked, handle_auth,
}
use smtprelay.Smtpd.Proxy.{Items, given, proxied, apply_items, apply_read, handle_xclient}

module _ {W : Type 0} (decoders : Decoders) (server : Server W) (Q : Session W → Type 0)
    (stays : Stays Q) where
  -- A continuation that keeps it.
  abbrev Continues : (Bytes → Session W → Session W) → Type 0
  Continues next = (t : Bytes) (s : Session W) → Q s → Q (next t s)

  with_scan-Staying :
      (o : Scan) (s : Session W) (next : Bytes → Session W → Session W)
      → Consumes (wire_size s.wire) o
      → Continues next
      → Q s
      → Q (with_scan decoders server o s next)
  with_scan-Staying (got line rest) s next fewer c g = c line _ (stays.read rest s (omega arith) g)
  with_scan-Staying (too_long rest) s next fewer c g = g
  with_scan-Staying (ended rest) s next fewer c g = stays.read rest s (omega arith) g

  with_text-Staying :
      (s : Session W) (next : Bytes → Session W → Session W)
      → Continues next
      → Q s
      → Q (with_text decoders server s next)
  with_text-Staying s next c g = with_scan-Staying (scan s.wire) s next (scan-Consumes s.wire) c g

  with_decoded-Staying :
      (o : Option Bytes) (s : Session W) (next : Bytes → Session W → Session W)
      → Continues next
      → Q s
      → Q (with_decoded decoders server o s next)
  with_decoded-Staying none s next c g = reply-Staying server Q stays 502 _ s g
  with_decoded-Staying (some t) s next c g = c t s g

  module _ (check : Peer → Bytes → Bytes → Option Failure) where
    authenticate-Staying :
        (u p : Bytes) (s : Session W) → Q s → Q (authenticate decoders server check u p s)
    authenticate-Staying u p s g =
        unless-Staying server Q stays (check s.peer u p) s _ g
          (reply-Staying server Q stays 235 _ _ (stays.learnt _ s refl (λ n. n) g))

    plain_parts-Staying :
        (parts : List Bytes) (s : Session W) → Q s → Q (plain_parts decoders server check parts s)
    plain_parts-Staying (i ∷ u ∷ p ∷ []) s g = authenticate-Staying u p s g
    plain_parts-Staying [] s g = reply-Staying server Q stays 502 _ s g
    plain_parts-Staying (i ∷ []) s g = reply-Staying server Q stays 502 _ s g
    plain_parts-Staying (i ∷ u ∷ []) s g = reply-Staying server Q stays 502 _ s g
    plain_parts-Staying (i ∷ u ∷ p ∷ q ∷ qs) s g = reply-Staying server Q stays 502 _ s g

    plain-Staying : Continues (plain decoders server check)
    plain-Staying a s g =
        with_decoded-Staying (decoders.decode64 a) s
          (λ t. plain_parts decoders server check (split 0 t))
          (λ t. plain_parts-Staying (split 0 t)) g

    login_password-Staying :
        (username : Bytes) → Continues (login_password decoders server check username)
    login_password-Staying username line s g =
        with_decoded-Staying (decoders.decode64 line) s
          (authenticate decoders server check username) (authenticate-Staying username) g

    ask_password-Staying : Continues (ask_password decoders server check)
    ask_password-Staying username s g =
        with_text-Staying _ (login_password decoders server check username)
          (login_password-Staying username)
          (reply-Staying server Q stays 334 (codes "UGFzc3dvcmQ6") s g)

    login_name-Staying : Continues (login_name decoders server check)
    login_name-Staying line s g =
        with_decoded-Staying (decoders.decode64 line) s (ask_password decoders server check)
          ask_password-Staying g

    login-Staying : (s : Session W) → Q s → Q (login decoders server check s)
    login-Staying s g =
        with_text-Staying _ (login_name decoders server check) login_name-Staying
          (reply-Staying server Q stays 334 (codes "VXNlcm5hbWU6") s g)

    plain_given-Staying :
        (words : List Bytes) (s : Session W) → Q s → Q (plain_given decoders server check words s)
    plain_given-Staying [] s g =
        with_text-Staying _ (plain decoders server check) plain-Staying
          (reply-Staying server Q stays 334 (codes "Give me your credentials") s g)
    plain_given-Staying (a ∷ words) s g = plain-Staying a s g

    auth_with-Staying :
        (words : List Bytes) (s : Session W) → Q s → Q (auth_with decoders server check words s)
    auth_with-Staying [] s g = stays.stopped s g
    auth_with-Staying (word ∷ []) s g = stays.stopped s g
    auth_with-Staying (word ∷ name ∷ words) s g =
        if-Staying server Q stays (eqb (to_upper name) (codes "PLAIN")) _ _
          (λ p. plain_given-Staying words s g)
          λ o.
            if-Staying server Q stays (eqb (to_upper name) (codes "LOGIN")) _ _
              (λ l. login-Staying s g) (λ u. reply-Staying server Q stays 502 _ s g)

  auth_checked-Staying :
      (o : Option (Peer → Bytes → Bytes → Option Failure)) (words : List Bytes) (s : Session W)
      → Q s
      → Q (auth_checked decoders server o words s)
  auth_checked-Staying none words s g = reply-Staying server Q stays 502 _ s g
  auth_checked-Staying (some check) words s g =
      if-Staying server Q stays (length s.peer.helo_name == 0) _ _
        (λ new. reply-Staying server Q stays 502 _ s g)
        λ named.
          if-Staying server Q stays (not s.tls) _ _ (λ bare. reply-Staying server Q stays 502 _ s g)
            (λ on. auth_with-Staying check words s g)

  pub handle_auth-Staying :
      (words : List Bytes) (s : Session W) → Q s → Q (handle_auth decoders server words s)
  unfolding handle_auth
  handle_auth-Staying words s g = auth_checked-Staying server.authenticator words s g

  pub welcome-Staying : (s : Session W) → Q s → Q (welcome server s)
  unfolding welcome
  welcome-Staying s g =
      welcomed-Staying (checked server.connection_checker (λ check. check s.peer)) s g
    where
      welcomed-Staying : (o : Option Failure) (s : Session W) → Q s → Q (welcomed server o s)
      welcomed-Staying none s g = reply-Staying server Q stays 220 _ s g
      welcomed-Staying (some e) s g = stays.shut _ (report-Staying server Q stays e s g)

  given-named : (new old : Bytes) → 1 ≤ length old → 1 ≤ length (given new old)
  given-named new old f = ground arith

  apply_read-Staying : (o : Option Items) (s : Session W) → Q s → Q (apply_read decoders server o s)
  apply_read-Staying none s g = reply-Staying server Q stays 502 _ s g
  apply_read-Staying (some items) s g = applied s.peer.addr
    where
      applied : (a : Addr) → Q (apply_items decoders server a items s)
      applied other_addr = reply-Staying server Q stays 502 _ s g
      applied (tcp_addr ip port) =
          welcome-Staying _ (
            unfold proxied in
            stays.learnt _ s refl (given-named items.helo_name s.peer.helo_name) g)

  pub handle_xclient-Staying :
      (words : List Bytes) (s : Session W) → Q s → Q (handle_xclient decoders server words s)
  unfolding handle_xclient
  handle_xclient-Staying words s g =
      if-Staying server Q stays server.enable_xclient _ _ (λ on. apply_read-Staying _ s g)
        (λ off. reply-Staying server Q stays 550 _ s g)
