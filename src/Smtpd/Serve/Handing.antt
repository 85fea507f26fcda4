-- ===== src/Smtpd/Serve/Handing.antt =====
-- What `handleDATA` hands to the handler.
use smtprelay.Base.{ℕ, ◌≤◌, ◌≡◌, refl, Bool, Option, none, some, arith, Bytes, length, ◌==◌, ltb}
use smtprelay.Listener.{Envelope}
use smtprelay.Smtpd.{Peer, Server, Session, reply}
use smtprelay.Smtpd.Command.{
  Delivery, delivered, never, world_after, deliver, answer, too_big, take_text, receive,
  with_envelope, handle_data,
}
use smtprelay.Smtpd.Serve.Keeping.{
  Fits, Deliverable, Good, reply-Good, report-Good, reset-Good, if-Good,
}
use smtprelay.Smtpd.Input.{dot_read}
use smtprelay.Smtpd.Input.Sizes.{dot_read_size}

-- The handler keeps `P` on what it may be given.
module _ {W : Type 0} (server : Server W) (P : W → Type 0) (k : ℕ)
    (keeps : (peer : Peer) (env : Envelope) (w : W)
      → Deliverable server peer env
      → P w
      → P (world_after (deliver server peer env w))) where
  handed :
      (env : Envelope) (s : Session W) (w : W)
      → Deliverable server s.peer env
      → Good server P k s
      → P w
      → Good server P k (record s { envelope = some env; world = w })
  handed env s w fine g kept = record {
    open_envelope = (fine.named, rw (← g.same_tls) fine.secret, fine.few_recipients);
    same_tls = g.same_tls;
    kept = kept;
    bounded = g.bounded;
  }

  world_kept :
      {d : Delivery W} {env : Envelope} {s : Session W}
      → deliver server s.peer env s.world ≡ d
      → Deliverable server s.peer env
      → Good server P k s
      → P (world_after d)
  world_kept {d} {env} {s} e fine g =
      let h : P (world_after (deliver server s.peer env s.world)) =
        keeps s.peer env s.world fine g.kept in
      rw e at h

  answer-Good :
      (d : Delivery W) (env : Envelope) (s : Session W)
      → deliver server s.peer env s.world ≡ d
      → Deliverable server s.peer env
      → Good server P k s
      → Good server P k (answer server d (record s { envelope = some env }))
  answer-Good (delivered none w) env s d fine g =
      reset-Good server P k _
        (reply-Good server P k 250 _ _ (handed env s w fine g (world_kept d fine g)))
  answer-Good (delivered (some e) w) env s d fine g =
      reset-Good server P k _
        (report-Good server P k e _ (handed env s w fine g (world_kept d fine g)))
  answer-Good (never w) env s d fine g =
      let h = handed env s w fine g (world_kept d fine g) in
      record {
        open_envelope = h.open_envelope;
        same_tls = h.same_tls;
        kept = h.kept;
        bounded = h.bounded;
      }

  too_big-Good : (s : Session W) → Good server P k s → Good server P k (too_big server s)
  unfolding too_big
  too_big-Good s g = reset-Good server P k _ (reply-Good server P k 552 _ s g)

  take_text-Good :
      (text : Bytes) (complete : Bool) (env : Envelope) (s : Session W)
      → Fits server (some env) s.peer.helo_name s.tls
      → 1 ≤ length env.recipients
      → Good server P k s
      → Good server P k (take_text server text complete env s)
  take_text-Good text complete env s (named, secret, few) some_recipient g =
      if-Good server P k (ltb (length text) server.max_message_size) _ _
        (λ small.
          if-Good server P k complete _ _
            (λ whole.
              answer-Good (deliver server s.peer (record env { body = text }) s.world)
                (record env { body = text }) s refl
                (record {
                  named = named;
                  secret = rw g.same_tls secret;
                  some_recipient = some_recipient;
                  few_recipients = few;
                  small = ground arith;
                })
                g)
            (λ cut. g))
        (λ big. if-Good server P k complete _ _ (λ whole. too_big-Good s g) (λ cut. g))

  receive-Good :
      (env : Envelope) (s : Session W)
      → Fits server (some env) s.peer.helo_name s.tls
      → 1 ≤ length env.recipients
      → Good server P k s
      → Good server P k (receive server env s)
  receive-Good env s f somebody g =
      let (text, complete, rest) = dot_read s.wire in
      take_text-Good text complete env (record s { wire = rest }) f somebody
        (record {
          open_envelope = g.open_envelope;
          same_tls = g.same_tls;
          kept = g.kept;
          bounded = omega (arith, dot_read_size s.wire, g.bounded);
        })

  with_envelope-Good :
      (o : Option Envelope) (s : Session W)
      → s.envelope ≡ o
      → Good server P k s
      → Good server P k (with_envelope server o s)
  unfolding reply
  with_envelope-Good none s e g = reply-Good server P k 502 _ s g
  with_envelope-Good (some env) s e g =
      let f : Fits server (some env) s.peer.helo_name s.tls = rw e at g.open_envelope in
      if-Good server P k (length env.recipients == 0) _ _
        (λ nobody. reply-Good server P k 502 _ s g)
        λ somebody. receive-Good env _ f (ground arith) (reply-Good server P k 354 _ s g)

  pub handle_data-Good :
      (s : Session W) → Good server P k s → Good server P k (handle_data server s)
  unfolding handle_data
  handle_data-Good s g = with_envelope-Good s.envelope s refl g
