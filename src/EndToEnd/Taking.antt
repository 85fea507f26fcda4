-- ===== src/EndToEnd/Taking.antt =====
-- What a session makes of DATA, before a text and with one.
use smtprelay.Base.{
  ◌≤◌, ◌<◌, ◌==◌, ◌≡◌, refl, ap, ◌∙◌, true, false, none, some, [], ◌∷◌, ◌++◌, Bytes, codes, pos,
  arith, length, append_assoc,
}
use smtprelay.Listener.{Envelope}
use smtprelay.Client.{answered}
use smtprelay.Smtpd
use smtprelay.Smtpd.{Server, Session, ReplyLine, reply}
use smtprelay.Smtpd.Command.{delivered, deliver, handle_data, receive, take_text}
use smtprelay.Smtpd.Input.{dot_read}
use smtprelay.EndToEnd.{incoming, heard, text_lines, dot_written, joined}
use smtprelay.EndToEnd.Text.{dot_read-written, on_wire}
use smtprelay.EndToEnd.Asking.{Carries, heard_one}

abbrev pub go_ahead : Bytes
go_ahead = codes "Go ahead. End your data with <CR><LF>.<CR><LF>"

abbrev pub wait_line : ReplyLine
wait_line = record { code = pos 354; more = false; message = go_ahead }

abbrev pub thanks_line : ReplyLine
thanks_line = record { code = pos 250; more = false; message = codes "Thank you." }

module _ {W : Type 0} where
  -- The session behind a text that the handler took.
  abbrev pub taken : W → Session W → Session W
  taken w s = record (incoming [] s) {
    envelope = none;
    sent = s.sent ++ wait_line ∷ thanks_line ∷ [];
    world = w;
  }

module _ {W : Type 0} (server : Server W) (s₀ : Session W) where
  -- DATA, before a text: the answer alone.
  pub data_asked :
      (env : Envelope) (s : Session W)
      → 1 ≤ length env.recipients
      → Carries (some env) s₀ s
      → heard s (handle_data server (incoming [] s)) ≡ answered 354 go_ahead
  unfolding handle_data reply dot_read
  data_asked env s some_to h =
      heard_one s (handle_data server (incoming [] s)) 354 go_ahead
        (rw (h.envelope, h.is_open) (ground (arith, some_to)))

  text_received :
      (env : Envelope) (text : Bytes) (s : Session W)
      → s.wire ≡ on_wire (dot_written text ∷ [])
      → receive server env s
        ≡ take_text server (joined (text_lines text)) true env (record s { wire = on_wire [] })
  text_received env text s e =
      ap
        (λ r.
          let (body, complete, rest) = r in
          take_text server body complete env (record s { wire = rest }))
        (ap dot_read e ∙ dot_read-written text [])

  text_handed :
      (env : Envelope) (body : Bytes) (w : W) (s : Session W)
      → length body < server.max_message_size
      → deliver server s.peer (record env { body = body }) s.world ≡ delivered none w
      → take_text server body true env s
        ≡ Smtpd.reset (
            reply 250
              (codes "Thank you.")
              (record s { envelope = some (record env { body = body }); world = w }))
  text_handed env body w s small handed = rw handed (ground (arith, small))

  -- DATA with the text.
  pub text_taken :
      (env : Envelope) (text : Bytes) (w : W) (s : Session W)
      → 1 ≤ length env.recipients
      → length (joined (text_lines text)) < server.max_message_size
      → deliver server s₀.peer (record env { body = joined (text_lines text) }) s₀.world
        ≡ delivered none w
      → Carries (some env) s₀ s
      → handle_data server (incoming (dot_written text ∷ []) s) ≡ taken w s
  unfolding handle_data reply Smtpd.reset
  text_taken env text w s some_to small handed h =
      let somebody : (length env.recipients == 0) ≡ false = ground (arith, some_to) in
      let r : Session W = reply 354 go_ahead (incoming (dot_written text ∷ []) s) in
      let first : handle_data server (incoming (dot_written text ∷ []) s) ≡ receive server env r =
        rw (h.envelope, somebody) refl in
      first
      ∙ text_received env text r refl
      ∙ text_handed env (joined (text_lines text)) w (record r { wire = on_wire [] }) small
          (rw (h.peer, h.world) handed)
      ∙ rw (h.is_open, append_assoc s.sent (wait_line ∷ []) (thanks_line ∷ [])) refl
