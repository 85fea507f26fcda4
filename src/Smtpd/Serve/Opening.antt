-- ===== src/Smtpd/Serve/Opening.antt =====
-- The greetings, MAIL, RCPT and STARTTLS keep what Serve/Keeping says.
use smtprelay.Base.{
  ℕ, ◌≤◌, ◌<◌, ◌≡◌, refl, Bool, true, false, not, ◌&&◌, Option, none, some, List, [], ◌∷◌, arith,
  Option-cases, inl, inr, Bytes, length, length-append, leb, ◌==◌, pos, ap,
}
use smtprelay.Listener.{Envelope}
use smtprelay.Smtpd.{
  Protocol, esmtp, Server, Session, send, reply, reset, checked, extensions, is_some,
}
use smtprelay.Smtpd.Input.{handshakes_size}
use smtprelay.Smtpd.Command.{
  address_of, second, send_extensions, helo_as, ehlo_as, reset_again, introduced, handle_helo,
  handle_ehlo, mail_from, handle_mail, rcpt_to, rcpt_in, handle_rcpt, handshake, handle_starttls,
}
use smtprelay.Smtpd.Serve.Keeping.{
  Fits, Good, send-Good, reply-Good, reset-Good, if-Good, unless-Good,
}

module _ {W : Type 0} (server : Server W) (P : W → Type 0) (k : ℕ) where
  send_extensions-Good :
      (exts : List Bytes) (s : Session W)
      → Good server P k s
      → Good server P k (send_extensions server exts s)
  send_extensions-Good [] s g = g
  send_extensions-Good (ext ∷ []) s g = reply-Good server P k 250 ext s g
  send_extensions-Good (ext ∷ next ∷ exts) s g =
      send_extensions-Good (next ∷ exts) _ (send-Good server P k _ s g)

  -- Without an open transaction the name may change.
  introduced-Good :
      (name : Bytes) (p : Protocol) (s : Session W)
      → s.envelope ≡ none
      → Good server P k s
      → Good server P k (introduced server name p s)
  introduced-Good name p s e g = record {
    open_envelope = rw e tt;
    same_tls = g.same_tls;
    kept = g.kept;
    bounded = g.bounded;
  }

  -- A second greeting closes the transaction; before the first one there is none.
  reset_again-closed : (s : Session W) → Good server P k s → (reset_again server s).envelope ≡ none
  unfolding reset
  reset_again-closed s g = elim (Option-cases s.envelope) [
    | inl e ↦ ground (arith, e)
    | inr (env, e) ↦
        let f : Fits server (some env) s.peer.helo_name s.tls = rw e at g.open_envelope in
        ground (arith, f)
  ]

  reset_again-Good : (s : Session W) → Good server P k s → Good server P k (reset_again server s)
  reset_again-Good s g =
      if-Good server P k (length s.peer.helo_name == 0) _ _ (λ new. g)
        (λ again. reset-Good server P k s g)

  helo_as-Good :
      (name : Bytes) (s : Session W)
      → s.envelope ≡ none
      → Good server P k s
      → Good server P k (helo_as server name s)
  helo_as-Good name s e g =
      unless-Good server P k _ s _ g (reply-Good server P k 250 _ _ (introduced-Good name _ s e g))

  ehlo_as-Good :
      (name : Bytes) (s : Session W)
      → s.envelope ≡ none
      → Good server P k s
      → Good server P k (ehlo_as server name s)
  ehlo_as-Good name s e g =
      let t = introduced server name esmtp s in
      let first = send (record { code = pos 250; more = true; message = server.hostname }) t in
      unless-Good server P k (checked server.helo_checker (λ check. check s.peer name)) s
        (send_extensions server (extensions server first) first) g
        (send_extensions-Good (extensions server first) first
          (send-Good server P k _ t (introduced-Good name esmtp s e g)))

  pub handle_helo-Good :
      (words : List Bytes) (s : Session W)
      → Good server P k s
      → Good server P k (handle_helo server words s)
  unfolding handle_helo
  handle_helo-Good [] s g = reply-Good server P k 502 _ s g
  handle_helo-Good (word ∷ []) s g = reply-Good server P k 502 _ s g
  handle_helo-Good (word ∷ name ∷ words) s g =
      helo_as-Good name _ (reset_again-closed s g) (reset_again-Good s g)

  pub handle_ehlo-Good :
      (words : List Bytes) (s : Session W)
      → Good server P k s
      → Good server P k (handle_ehlo server words s)
  unfolding handle_ehlo
  handle_ehlo-Good [] s g = reply-Good server P k 502 _ s g
  handle_ehlo-Good (word ∷ []) s g = reply-Good server P k 502 _ s g
  handle_ehlo-Good (word ∷ name ∷ words) s g =
      ehlo_as-Good name _ (reset_again-closed s g) (reset_again-Good s g)

  mail_from-Good :
      (addr : Option Bytes) (s : Session W)
      → 1 ≤ length s.peer.helo_name
      → (not s.tls && server.force_tls) ≡ false
      → Good server P k s
      → Good server P k (mail_from server addr s)
  mail_from-Good none s named secret g = reply-Good server P k 502 _ s g
  mail_from-Good (some addr) s named secret g = unless-Good server P k _ s _ g (
      reply-Good server P k 250 _ _ (record {
        open_envelope = (named, secret, omega arith);
        same_tls = g.same_tls;
        kept = g.kept;
        bounded = g.bounded;
      }))

  pub handle_mail-Good :
      (params : List Bytes) (s : Session W)
      → Good server P k s
      → Good server P k (handle_mail server params s)
  unfolding handle_mail
  handle_mail-Good params s g =
      if-Good server P k (length s.peer.helo_name == 0) _ _ (λ new. reply-Good server P k 502 _ s g)
        λ named.
          if-Good server P k (not s.tls && server.force_tls) _ _
            (λ bare. reply-Good server P k 502 _ s g)
            λ secret.
              if-Good server P k (is_some s.envelope) _ _ (λ twice. reply-Good server P k 502 _ s g)
                λ first. mail_from-Good (address_of (second params)) s (ground arith) secret g

  rcpt_to-Good :
      (env : Envelope) (addr : Option Bytes) (s : Session W)
      → Fits server (some env) s.peer.helo_name s.tls
      → length env.recipients < server.max_recipients
      → Good server P k s
      → Good server P k (rcpt_to server env addr s)
  rcpt_to-Good env none s f room g = reply-Good server P k 502 _ s g
  rcpt_to-Good env (some addr) s (named, secret, few) room g = unless-Good server P k _ s _ g (
      reply-Good server P k 250 _ _ (record {
        open_envelope = (named, secret, omega (arith, length-append env.recipients (addr ∷ [])));
        same_tls = g.same_tls;
        kept = g.kept;
        bounded = g.bounded;
      }))

  rcpt_in-Good :
      (o : Option Envelope) (params : List Bytes) (s : Session W)
      → s.envelope ≡ o
      → Good server P k s
      → Good server P k (rcpt_in server o params s)
  rcpt_in-Good none params s e g = reply-Good server P k 502 _ s g
  rcpt_in-Good (some env) params s e g =
      let f : Fits server (some env) s.peer.helo_name s.tls = rw e at g.open_envelope in
      if-Good server P k (leb server.max_recipients (length env.recipients)) _ _
        (λ full. reply-Good server P k 452 _ s g) λ room. rcpt_to-Good env _ s f (ground arith) g

  pub handle_rcpt-Good :
      (params : List Bytes) (s : Session W)
      → Good server P k s
      → Good server P k (handle_rcpt server params s)
  unfolding handle_rcpt
  handle_rcpt-Good params s g = rcpt_in-Good s.envelope params s refl g

  handshake-Good :
      (hs : List (Bool × List (List Bytes))) (s : Session W)
      → s.wire.handshakes ≡ hs
      → Good server P k s
      → Good server P k (handshake server hs s)
  unfolding reset
  handshake-Good [] s e g = reply-Good server P k 550 _ s g
  handshake-Good ((true, reads) ∷ later) s e g = record {
    open_envelope = tt;
    same_tls = refl;
    kept = g.kept;
    bounded = omega (arith, g.bounded, ap handshakes_size e);
  }
  handshake-Good ((false, reads) ∷ later) s e g = reply-Good server P k 550 _ _ (record {
    open_envelope = g.open_envelope;
    same_tls = g.same_tls;
    kept = g.kept;
    bounded = omega (arith, g.bounded, ap handshakes_size e);
  })

  pub handle_starttls-Good :
      (s : Session W) → Good server P k s → Good server P k (handle_starttls server s)
  unfolding handle_starttls
  handle_starttls-Good s g =
      if-Good server P k s.tls _ _ (λ on. reply-Good server P k 502 _ s g)
        λ off.
          if-Good server P k (not server.has_tls_config) _ _
            (λ lacks. reply-Good server P k 502 _ s g)
            λ has.
              handshake-Good s.wire.handshakes _ (unfold reply in refl)
                (reply-Good server P k 220 _ s g)
