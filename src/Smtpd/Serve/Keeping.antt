-- ===== src/Smtpd/Serve/Keeping.antt =====
-- What a session keeps between two commands, and what it hands to the handler.
use smtprelay.Base.{
  ℕ, ◌≤◌, ◌<◌, ◌≡◌, ◌∙◌, refl, Bool, true, false, not, ◌&&◌, Option, none, some, arith, Bytes,
  length, if◌then◌else◌,
}
use smtprelay.Listener.{Envelope}
use smtprelay.Smtpd.{
  Peer, Failure, Server, Wire, Session, ReplyLine, send, reply, report, reset, close,
}
use smtprelay.Smtpd.Serve.Stays.{Stays}
use smtprelay.Smtpd.Input.{wire_size}
use smtprelay.Smtpd.Command.{unless}

module _ {W : Type 0} (server : Server W) where
  -- A mail transaction that is open: the client said its name, TLS is on where it is forced, and the
  -- recipients are within the limit.
  abbrev pub Fits : Option Envelope → Bytes → Bool → Type 0
  Fits none helo_name tls = Unit
  Fits (some env) helo_name tls =
      (1 ≤ length helo_name)
      × ((not tls && server.force_tls) ≡ false)
      × (length env.recipients ≤ server.max_recipients)

  -- What the handler is given.
  pub record Deliverable (peer : Peer) (env : Envelope) : Type 0 where
    pub named : 1 ≤ length peer.helo_name
    pub secret : (not peer.tls && server.force_tls) ≡ false
    pub some_recipient : 1 ≤ length env.recipients
    pub few_recipients : length env.recipients ≤ server.max_recipients
    pub small : length env.body < server.max_message_size

  module _ (P : W → Type 0) (k : ℕ) where
    -- Between two commands, with no more than `k` lines to come.
    pub record Good (s : Session W) : Type 0 where
      pub open_envelope : Fits s.envelope s.peer.helo_name s.tls
      pub same_tls : s.peer.tls ≡ s.tls
      pub kept : P s.world
      pub bounded : wire_size s.wire ≤ k

    pub send-Good : (l : ReplyLine) (s : Session W) → Good s → Good (send l s)
    send-Good l s g = record {
      open_envelope = g.open_envelope;
      same_tls = g.same_tls;
      kept = g.kept;
      bounded = g.bounded;
    }

    pub reply-Good : (code : ℕ) (m : Bytes) (s : Session W) → Good s → Good (reply code m s)
    unfolding reply
    reply-Good code m s g = send-Good _ s g

    pub report-Good : (e : Failure) (s : Session W) → Good s → Good (report e s)
    unfolding report
    report-Good (Failure.smtp_error e) s g = send-Good _ s g
    report-Good (Failure.plain_error text) s g = reply-Good 502 text s g

    pub reset-Good : (s : Session W) → Good s → Good (reset s)
    unfolding reset
    reset-Good s g = record {
      open_envelope = tt;
      same_tls = g.same_tls;
      kept = g.kept;
      bounded = g.bounded;
    }

    pub close-Good : (s : Session W) → Good s → Good (close s)
    unfolding close
    close-Good s g = record {
      open_envelope = g.open_envelope;
      same_tls = g.same_tls;
      kept = g.kept;
      bounded = omega (arith, g.bounded);
    }

    pub if-Good :
        (b : Bool) (s t : Session W)
        → (b ≡ true → Good s)
        → (b ≡ false → Good t)
        → Good (if b then s else t)
    if-Good true s t yes_good no_good = yes_good refl
    if-Good false s t yes_good no_good = no_good refl

    pub unless-Good :
        (e : Option Failure) (s next : Session W)
        → Good s
        → Good next
        → Good (unless server e s next)
    unless-Good none s next g h = h
    unless-Good (some e) s next g h = report-Good e s g

  -- Another wire, with another bound.
  pub wire-Good :
      (P : W → Type 0) (k m : ℕ) (w : Wire) (s : Session W)
      → wire_size w ≤ m
      → Good P k s
      → Good P m (record s { wire = w })
  wire-Good P k m w s h g = record {
    open_envelope = g.open_envelope;
    same_tls = g.same_tls;
    kept = g.kept;
    bounded = h;
  }

  renamed-Fits :
      (o : Option Envelope) (new old : Bytes) (tls : Bool)
      → (1 ≤ length old → 1 ≤ length new)
      → Fits o old tls
      → Fits o new tls
  renamed-Fits none new old tls longer f = tt
  renamed-Fits (some env) new old tls longer (named, secret, few) = (longer named, secret, few)

  -- AUTH, XCLIENT and the welcome keep it.
  pub Good-Stays : (P : W → Type 0) (k : ℕ) → Stays (Good P k)
  Good-Stays P k = record {
    said = send-Good P k;
    shut = close-Good P k;
    read = λ rest s fewer g. wire-Good P k k rest s (omega (arith, g.bounded)) g;
    learnt = λ p s same longer g. record {
      open_envelope =
          renamed-Fits s.envelope p.helo_name s.peer.helo_name s.tls longer g.open_envelope;
      same_tls = same ∙ g.same_tls;
      kept = g.kept;
      bounded = g.bounded;
    };
    stopped = λ s g. record {
      open_envelope = g.open_envelope;
      same_tls = g.same_tls;
      kept = g.kept;
      bounded = g.bounded;
    };
  }
