-- ===== src/EndToEnd/Passing.antt =====
-- MAIL and RCPT of the client, over a session that does not refuse them.
use smtprelay.Base.{
  ℕ, ◌+◌, ◌≤◌, ◌<◌, ◌≡◌, refl, ◌∙◌, false, not, ◌&&◌, Option, none, some, List, [], ◌∷◌, ◌++◌,
  if◌then◌else◌, Bytes, codes, arith, length, All, append_assoc, append-nil, length-append,
  Bool-cases, inl, inr,
}
use smtprelay.Listener.{Envelope}
use smtprelay.Message.Parsing.{ats}
use smtprelay.Client.{Network, Client, has_ext, mail, rcpt}
use smtprelay.Client.Sending.{rcpts}
use smtprelay.Client.Greeted.{Greeted, hello_again}
use smtprelay.Smtpd.{Server, Session, reply}
use smtprelay.Smtpd.Command.{handle_mail}
use smtprelay.Smtpd.Command.Address.{parse_address_lem}
use smtprelay.Smtpd.Login.{Decoders}
use smtprelay.Smtpd.Serve.{handle}
use smtprelay.Smtpd.Serve.Carried.{bracketed, mail_begins, rcpt_adds}
use smtprelay.Smtpd.Input.{max_scan_token_size}
use smtprelay.EndToEnd.{Other, incoming, session_network}
use smtprelay.EndToEnd.Lines.{IsPlain, handle-mail, handle_mail_body, handle-rcpt}
use smtprelay.EndToEnd.Asking.{Carries, behind, passed, reply-sent}

-- An address that the client can send and the server takes.
abbrev pub IsMailbox : Bytes → Type 0
IsMailbox a = IsPlain a × (ats (bracketed a) ≤ 1) × (length a ≤ 65500)

module _ {W : Type 0} (decoders : Decoders) (server : Server W) (s₀ : Session W) where
  abbrev net : Network (Other W)
  net = session_network decoders server

  -- The client after a call that succeeded, with this envelope at the other end.
  abbrev pub Stands : Option Envelope → Client (Other W) → Type 0
  Stands env c = Carries env s₀ c.remote.session × Greeted c

  -- One reply later, with another envelope.
  replied-Carries :
      (code : ℕ) (m : Bytes) (env : Envelope) (o : Option Envelope) (s : Session W)
      → Carries o s₀ s
      → Carries (some env) s₀ (reply code m (record (incoming [] s) { envelope = some env }))
  unfolding reply
  replied-Carries code m env o s h = record {
    envelope = refl;
    is_open = h.is_open;
    goes = h.goes;
    peer = h.peer;
    tls = h.tls;
    world = h.world;
  }

  mail_line :
      (a : Bytes) (ext : Option (List (Bytes × Bytes))) (s : Session W)
      → IsPlain a
      → handle decoders server
          (codes "MAIL FROM:<"
            ++ a
            ++ codes ">"
            ++ (if has_ext (codes "8BITMIME") ext then codes " BODY=8BITMIME" else []))
          s
        ≡ handle_mail server (codes "FROM" ∷ bracketed a ∷ []) s
  mail_line a ext s h = elim (Bool-cases (has_ext (codes "8BITMIME") ext)) [
    | inl with ↦
        rw (with, append_assoc a (codes ">") (codes " BODY=8BITMIME"))
          (handle_mail_body decoders server s a h)
    | inr without ↦ rw (without, append-nil (a ++ codes ">")) (handle-mail decoders server s a h)
  ]

  mail_short :
      (a : Bytes) (ext : Option (List (Bytes × Bytes)))
      → length a ≤ 65500
      → length (
            codes "MAIL FROM:<"
            ++ a
            ++ codes ">"
            ++ (if has_ext (codes "8BITMIME") ext then codes " BODY=8BITMIME" else []))
          + 2
        ≤ max_scan_token_size
  mail_short a ext h = elim (Bool-cases (has_ext (codes "8BITMIME") ext)) [
    | inl with ↦ rw with (
        omega (
          arith,
          length-append (a ++ codes ">") (codes " BODY=8BITMIME"),
          length-append a (codes ">"),
        ))
    | inr without ↦
        rw without (omega (arith, length-append (a ++ codes ">") [], length-append a (codes ">")))
  ]

  pub mail-Stands :
      (a : Bytes) (c : Client (Other W))
      → server.sender_checker ≡ none
      → 1 ≤ length s₀.peer.helo_name
      → (not s₀.tls && server.force_tls) ≡ false
      → IsMailbox a
      → Stands none c
      → (d : Client (Other W)) × (mail net a c ≡ (none, d))
        × Stands (some (record { sender = a; recipients = []; body = [] })) d
  unfolding mail
  mail-Stands a c free named secret (plain, one, short) (h, g) =
      let s : Session W = incoming [] c.remote.session in
      let (taken, given) = parse_address_lem (bracketed a) a in
      let env : Envelope = record { sender = a; recipients = []; body = [] } in
      let line =
        codes "MAIL FROM:<"
        ++ a
        ++ codes ">"
        ++ (if has_ext (codes "8BITMIME") c.ext then codes " BODY=8BITMIME" else []) in
      let run : handle decoders server line s
          ≡ reply 250 (codes "Go ahead") (record s { envelope = some env }) =
        mail_line a c.ext s plain
        ∙ mail_begins server s (codes "FROM") (bracketed a) a free (rw h.peer named)
            (rw h.tls secret) h.envelope (given (refl, one)) in
      let t : Session W = reply 250 (codes "Go ahead") (record s { envelope = some env }) in
      (
        behind line c t 250 (codes "Go ahead"),
        rw (hello_again net c g) (
            passed decoders server 250 line c t 250 (codes "Go ahead") run
              (reply-sent 250 _ _ h.is_open) (h.is_open, h.goes, mail_short a c.ext short) refl
              refl),
        (
          replied-Carries 250 _ env none c.remote.session h,
          record { did_hello = g.did_hello; no_error = g.no_error },
        ),
      )

  rcpt-Stands :
      (b : Bytes) (env : Envelope) (c : Client (Other W))
      → server.recipient_checker ≡ none
      → IsMailbox b
      → length env.recipients < server.max_recipients
      → Stands (some env) c
      → (d : Client (Other W)) × (rcpt net b c ≡ (none, d))
        × Stands (some (record env { recipients = env.recipients ++ b ∷ [] })) d
  unfolding rcpt
  rcpt-Stands b env c free (plain, one, short) room (h, g) =
      let s : Session W = incoming [] c.remote.session in
      let (taken, given) = parse_address_lem (bracketed b) b in
      let next : Envelope = record env { recipients = env.recipients ++ b ∷ [] } in
      let line = codes "RCPT TO:<" ++ b ++ codes ">" in
      let t : Session W = reply 250 (codes "Go ahead") (record s { envelope = some next }) in
      let run : handle decoders server line s ≡ t =
        handle-rcpt decoders server s b plain
        ∙ rcpt_adds server s (codes "TO") (bracketed b) b env free room h.envelope
            (given (refl, one)) in
      (
        behind line c t 250 (codes "Go ahead"),
        passed decoders server 25 line c t 250 (codes "Go ahead") run (reply-sent 250 _ _ h.is_open)
            (h.is_open, h.goes, omega (arith, short, length-append b (codes ">"))) refl refl,
        (
          replied-Carries 250 _ next (some env) c.remote.session h,
          record { did_hello = g.did_hello; no_error = g.no_error },
        ),
      )

  pub rcpts-Stands :
      (bs : List Bytes) (env : Envelope) (c : Client (Other W))
      → server.recipient_checker ≡ none
      → All IsMailbox bs
      → length env.recipients + length bs ≤ server.max_recipients
      → Stands (some env) c
      → (d : Client (Other W)) × (rcpts net bs c ≡ (none, d))
        × Stands (some (record env { recipients = env.recipients ++ bs })) d
  unfolding rcpts
  rcpts-Stands [] env c free few room h = (c, refl, rw (append-nil env.recipients) h)
  rcpts-Stands (b ∷ bs) env c free (one, few) room h =
      let (d, run, k) = rcpt-Stands b env c free one (omega arith) h in
      let next : Envelope = record env { recipients = env.recipients ++ b ∷ [] } in
      let (e, more, l) =
        rcpts-Stands bs next d free few (omega (arith, length-append env.recipients (b ∷ []))) k in
      (e, rw (run, rcpts) more, rw (← append_assoc env.recipients (b ∷ []) bs) l)
