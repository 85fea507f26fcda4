-- ===== src/Smtpd/Serve/Refining.antt =====
-- Every command takes a turn of the abstract machine of Serve/Turns.
use smtprelay.Base.{
  ℕ, ◌≤◌, ◌<◌, ◌≡◌, ◌≢◌, refl, Bool, true, false, not, ◌&&◌, Option, none, some, List, [], ◌∷◌,
  arith, Bool-cases, Option-cases, inl, inr, Bytes, length, leb, ◌==◌, if◌then◌else◌, codes,
}
use smtprelay.Listener.{Envelope}
use smtprelay.Smtpd.{Failure, Server, Session, reply, report, reset, checked, is_some}
use smtprelay.Smtpd.Command.{
  address_of, second, handle_helo, handle_ehlo, mail_from, handle_mail, rcpt_to, rcpt_in,
  handle_rcpt, handshake, handle_starttls,
}
use smtprelay.Smtpd.Serve.{Verb, helo, ehlo, mail, rcpt, starttls, rset}
use smtprelay.Smtpd.Serve.Stays.{report-Staying}
use smtprelay.Smtpd.Serve.Turns.{
  Turn, keeps, drops, begins, adds, Views, Views-Stays, reply-Views, helo_as-Views, ehlo_as-Views,
  kept, dropped,
}

module _ {W : Type 0} (server : Server W) where
  pub if-Turn :
      (v : Verb) (s : Session W) (b : Bool) (t u : Session W)
      → (b ≡ true → Turn server v s t)
      → (b ≡ false → Turn server v s u)
      → Turn server v s (if b then t else u)
  if-Turn v s true t u on off = on refl
  if-Turn v s false t u on off = off refl

  pub refused-Turn :
      (v : Verb) (code : ℕ) (m : Bytes) (s : Session W)
      → v ≢ rset
      → Turn server v s (reply code m s)
  refused-Turn v code m s other =
      kept server v s _ other (reply-Views server s.envelope s.world code m s (refl, refl))

  reported-Turn : (v : Verb) (f : Failure) (s : Session W) → v ≢ rset → Turn server v s (report f s)
  reported-Turn v f s other = kept server v s _ other (
      report-Staying server (Views server s.envelope s.world)
        (Views-Stays server s.envelope s.world) f s (refl, refl))

  pub handle_helo-Turn :
      (words : List Bytes) (s : Session W) → Turn server helo s (handle_helo server words s)
  unfolding handle_helo
  handle_helo-Turn [] s = refused-Turn helo 502 _ s (λ e. ground arith)
  handle_helo-Turn (word ∷ []) s = refused-Turn helo 502 _ s (λ e. ground arith)
  handle_helo-Turn (word ∷ name ∷ words) s = elim (Bool-cases (length s.peer.helo_name == 0)) [
    | inl new ↦ rw new (
        kept server helo s _ (λ e. ground arith)
          (helo_as-Views server s.envelope s.world name s (refl, refl)))
    | inr again ↦ rw again (
        dropped server helo s _ refl
          (helo_as-Views server none s.world name (reset s) (unfold reset in (refl, refl))))
  ]

  pub handle_ehlo-Turn :
      (words : List Bytes) (s : Session W) → Turn server ehlo s (handle_ehlo server words s)
  unfolding handle_ehlo
  handle_ehlo-Turn [] s = refused-Turn ehlo 502 _ s (λ e. ground arith)
  handle_ehlo-Turn (word ∷ []) s = refused-Turn ehlo 502 _ s (λ e. ground arith)
  handle_ehlo-Turn (word ∷ name ∷ words) s = elim (Bool-cases (length s.peer.helo_name == 0)) [
    | inl new ↦ rw new (
        kept server ehlo s _ (λ e. ground arith)
          (ehlo_as-Views server s.envelope s.world name s (refl, refl)))
    | inr again ↦ rw again (
        dropped server ehlo s _ refl
          (ehlo_as-Views server none s.world name (reset s) (unfold reset in (refl, refl))))
  ]

  pub handle_mail-Turn :
      (params : List Bytes) (s : Session W) → Turn server mail s (handle_mail server params s)
  unfolding handle_mail
  handle_mail-Turn params s =
      if-Turn mail s (length s.peer.helo_name == 0) _ _ (λ new. refused 502 _)
        λ named.
          if-Turn mail s (not s.tls && server.force_tls) _ _ (λ bare. refused 502 _)
            λ secret.
              if-Turn mail s (is_some s.envelope) _ _ (λ twice. refused 502 _)
                λ first. from (address_of (second params)) (ground arith) secret (ground arith)
    where
      refused : (code : ℕ) (m : Bytes) → Turn server mail s (reply code m s)
      refused code m = refused-Turn mail code m s (λ e. ground arith)

      from :
          (o : Option Bytes)
          → 1 ≤ length s.peer.helo_name
          → (not s.tls && server.force_tls) ≡ false
          → s.envelope ≡ none
          → Turn server mail s (mail_from server o s)
      from none named secret first = refused 502 _
      from (some addr) named secret first =
          elim (Option-cases (checked server.sender_checker (λ check. check s.peer addr))) [
            | inl fine ↦ rw fine (unfold reply in begins addr named secret first fine refl refl)
            | inr (f, wrong) ↦ rw wrong (reported-Turn mail f s (λ e. ground arith))
          ]

  pub handle_rcpt-Turn :
      (params : List Bytes) (s : Session W) → Turn server rcpt s (handle_rcpt server params s)
  unfolding handle_rcpt
  handle_rcpt-Turn params s = within s.envelope refl
    where
      refused : (code : ℕ) (m : Bytes) → Turn server rcpt s (reply code m s)
      refused code m = refused-Turn rcpt code m s (λ e. ground arith)

      to :
          (env : Envelope) (o : Option Bytes)
          → s.envelope ≡ some env
          → length env.recipients < server.max_recipients
          → Turn server rcpt s (rcpt_to server env o s)
      to env none begun room = refused 502 _
      to env (some addr) begun room =
          elim (Option-cases (checked server.recipient_checker (λ check. check s.peer addr))) [
            | inl fine ↦ rw fine (unfold reply in adds env addr begun room fine refl refl)
            | inr (f, wrong) ↦ rw wrong (reported-Turn rcpt f s (λ e. ground arith))
          ]

      within :
          (o : Option Envelope) → s.envelope ≡ o → Turn server rcpt s (rcpt_in server o params s)
      within none closed = refused 502 _
      within (some env) begun =
          if-Turn rcpt s (leb server.max_recipients (length env.recipients)) _ _
            (λ full. refused 452 _) λ room. to env (address_of (second params)) begun (ground arith)

  pub handle_starttls-Turn : (s : Session W) → Turn server starttls s (handle_starttls server s)
  unfolding handle_starttls reset
  handle_starttls-Turn s =
      if-Turn starttls s s.tls _ _ (λ on. refused-Turn starttls 502 _ s (λ e. ground arith))
        λ off.
          if-Turn starttls s (not server.has_tls_config) _ _
            (λ lacks. refused-Turn starttls 502 _ s (λ e. ground arith))
            λ has.
              shaken s.wire.handshakes (reply 220 (codes "Go ahead") s) (unfold reply in refl)
                (unfold reply in refl)
    where
      shaken :
          (hs : List (Bool × List (List Bytes))) (t : Session W)
          → t.envelope ≡ s.envelope
          → t.world ≡ s.world
          → Turn server starttls s (handshake server hs t)
      shaken [] t e w =
          let (e', w') =
            reply-Views server s.envelope s.world 550 (codes "Handshake error") t (e, w) in
          keeps (λ same. ground arith) e' w'
      shaken ((true, reads) ∷ later) t e w = drops refl refl w
      shaken ((false, reads) ∷ later) t e w =
          let u = record t { wire = record t.wire { network = reads; handshakes = later } } in
          let (e', w') =
            reply-Views server s.envelope s.world 550 (codes "Handshake error") u (e, w) in
          keeps (λ same. ground arith) e' w'
