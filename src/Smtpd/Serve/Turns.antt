-- ===== src/Smtpd/Serve/Turns.antt =====
-- What each command does to the mail transaction and to the world of the handler: the protocol as an
-- abstract machine over the open envelope.
use smtprelay.Base.{
  ℕ, ◌≤◌, ◌<◌, ◌≡◌, ◌≢◌, Bool, true, false, not, ◌&&◌, Option, none, some, List, [], ◌∷◌, ◌++◌,
  Bytes, length, pos,
}
use smtprelay.Listener.{Envelope}
use smtprelay.Smtpd.{
  smtp, esmtp, Failure, Server, Wire, Session, hung, send, reply, close, checked, extensions,
}
use smtprelay.Smtpd.Input.{dot_read}
use smtprelay.Smtpd.Command.{
  unless, delivered, never, send_extensions, helo_as, ehlo_as, introduced, deliver,
}
use smtprelay.Smtpd.Serve.{Verb, helo, ehlo, mail, rcpt, starttls, text, rset}
use smtprelay.Smtpd.Serve.Stays.{Stays, reply-Staying, unless-Staying}

-- The commands that close an open transaction without handing it on.
abbrev pub may_drop : Verb → Bool
may_drop helo = true
may_drop ehlo = true
may_drop starttls = true
may_drop text = true
may_drop rset = true
may_drop v = false

-- The text that the reader gives, and whether its end was met.
abbrev pub text_read : Wire → Bytes
text_read w = let (body, complete, rest) = dot_read w in body

abbrev pub is_complete : Wire → Bool
is_complete w = let (body, complete, rest) = dot_read w in complete

module _ {W : Type 0} (server : Server W) where
  -- What a command may do to a session.
  pub data Turn : Verb → Session W → Session W → Type 0 where
    keeps :
        {v : Verb} {s t : Session W}
        → v ≢ rset
        → t.envelope ≡ s.envelope
        → t.world ≡ s.world
        → Turn v s t
    drops :
        {v : Verb} {s t : Session W}
        → may_drop v ≡ true
        → t.envelope ≡ none
        → t.world ≡ s.world
        → Turn v s t
    begins :
        {s t : Session W}
        → (addr : Bytes) → 1 ≤ length s.peer.helo_name
        → (not s.tls && server.force_tls) ≡ false
        → s.envelope ≡ none
        → checked server.sender_checker (λ check. check s.peer addr) ≡ none
        → t.envelope ≡ some (record { sender = addr; recipients = []; body = [] })
        → t.world ≡ s.world
        → Turn mail s t
    adds :
        {s t : Session W}
        → (env : Envelope) → (addr : Bytes) → s.envelope ≡ some env
        → length env.recipients < server.max_recipients
        → checked server.recipient_checker (λ check. check s.peer addr) ≡ none
        → t.envelope ≡ some (record env { recipients = env.recipients ++ addr ∷ [] })
        → t.world ≡ s.world
        → Turn rcpt s t
    hands :
        {s t : Session W}
        → (env : Envelope) → (e : Option Failure) → s.envelope ≡ some env
        → 1 ≤ length env.recipients
        → is_complete s.wire ≡ true
        → length (text_read s.wire) < server.max_message_size
        → deliver server s.peer (record env { body = text_read s.wire }) s.world
          ≡ delivered e t.world
        → t.envelope ≡ none
        → Turn text s t
    hangs :
        {s t : Session W}
        → (env : Envelope) → s.envelope ≡ some env
        → 1 ≤ length env.recipients
        → is_complete s.wire ≡ true
        → length (text_read s.wire) < server.max_message_size
        → deliver server s.peer (record env { body = text_read s.wire }) s.world ≡ never t.world
        → t.course ≡ hung
        → Turn text s t

  -- The envelope and the world of a session.
  abbrev pub Views : Option Envelope → W → Session W → Type 0
  Views e w s = (s.envelope ≡ e) × (s.world ≡ w)

  pub Views-Stays : (e : Option Envelope) (w : W) → Stays (Views e w)
  Views-Stays e w = record {
    said = λ l s g. g;
    shut = λ s g. unfold close in g;
    read = λ rest s fewer g. g;
    learnt = λ p s same longer g. g;
    stopped = λ s g. g;
  }

  module _ (e : Option Envelope) (w : W) where
    pub reply-Views :
        (code : ℕ) (m : Bytes) (s : Session W) → Views e w s → Views e w (reply code m s)
    reply-Views code m s g = reply-Staying server (Views e w) (Views-Stays e w) code m s g

    pub unless-Views :
        (f : Option Failure) (s next : Session W)
        → Views e w s
        → Views e w next
        → Views e w (unless server f s next)
    unless-Views f s next g h = unless-Staying server (Views e w) (Views-Stays e w) f s next g h

    send_extensions-Views :
        (exts : List Bytes) (s : Session W)
        → Views e w s
        → Views e w (send_extensions server exts s)
    send_extensions-Views [] s g = g
    send_extensions-Views (ext ∷ []) s g = reply-Views 250 ext s g
    send_extensions-Views (ext ∷ next ∷ exts) s g = send_extensions-Views (next ∷ exts) _ g

    pub helo_as-Views :
        (name : Bytes) (s : Session W) → Views e w s → Views e w (helo_as server name s)
    helo_as-Views name s g =
        unless-Views _ s _ g (reply-Views 250 _ (introduced server name smtp s) g)

    pub ehlo_as-Views :
        (name : Bytes) (s : Session W) → Views e w s → Views e w (ehlo_as server name s)
    ehlo_as-Views name s g =
        let t = introduced server name esmtp s in
        let first = send (record { code = pos 250; more = true; message = server.hostname }) t in
        unless-Views (checked server.helo_checker (λ check. check s.peer name)) s
          (send_extensions server (extensions server first) first) g
          (send_extensions-Views (extensions server first) first g)

  -- A result that keeps the envelope, or drops it.
  abbrev pub Kept : Session W → Session W → Type 0
  Kept s t = Views s.envelope s.world t

  pub kept : (v : Verb) (s t : Session W) → v ≢ rset → Kept s t → Turn v s t
  kept v s t other (e, w) = keeps other e w

  pub dropped : (v : Verb) (s t : Session W) → may_drop v ≡ true → Views none s.world t → Turn v s t
  dropped v s t may (e, w) = drops may e w
