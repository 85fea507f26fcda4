-- ===== src/Smtpd/Serve/Stays.antt =====
-- Properties of a session that only the commands of a mail transaction change.
use smtprelay.Base.{
  ℕ, ◌≤◌, ◌≡◌, refl, Bool, true, false, Option, none, some, Bytes, if◌then◌else◌, length,
}
use smtprelay.Smtpd.{
  Peer, Failure, Server, Wire, Session, ReplyLine, panicked, send, reply, report, close,
}
use smtprelay.Smtpd.Input.{wire_size}
use smtprelay.Smtpd.Command.{unless}

-- A property that survives what is said, read or learnt of the client.
pub record Stays {W : Type 0} (Q : Session W → Type 0) : Type 0 where
  pub said : (l : ReplyLine) (s : Session W) → Q s → Q (send l s)
  pub shut : (s : Session W) → Q s → Q (close s)
  pub read :
      (rest : Wire) (s : Session W)
      → wire_size rest ≤ wire_size s.wire
      → Q s
      → Q (record s { wire = rest })
  pub learnt :
      (p : Peer) (s : Session W)
      → p.tls ≡ s.peer.tls
      → (1 ≤ length s.peer.helo_name → 1 ≤ length p.helo_name)
      → Q s
      → Q (record s { peer = p })
  pub stopped : (s : Session W) → Q s → Q (record s { course = panicked })

module _ {W : Type 0} (server : Server W) (Q : Session W → Type 0) (stays : Stays Q) where
  pub reply-Staying : (code : ℕ) (m : Bytes) (s : Session W) → Q s → Q (reply code m s)
  unfolding reply
  reply-Staying code m s g = stays.said _ s g

  pub report-Staying : (e : Failure) (s : Session W) → Q s → Q (report e s)
  unfolding report
  report-Staying (Failure.smtp_error e) s g = stays.said _ s g
  report-Staying (Failure.plain_error text) s g = reply-Staying 502 text s g

  pub if-Staying :
      (b : Bool) (s t : Session W) → (b ≡ true → Q s) → (b ≡ false → Q t) → Q (if b then s else t)
  if-Staying true s t on off = on refl
  if-Staying false s t on off = off refl

  pub unless-Staying :
      (e : Option Failure) (s next : Session W) → Q s → Q next → Q (unless server e s next)
  unless-Staying none s next g h = h
  unless-Staying (some e) s next g h = report-Staying e s g
