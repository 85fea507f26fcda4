-- ===== src/Smtpd/Serve/Refined.antt =====
-- DATA, and with it every line of a client, takes a turn of the abstract machine of Serve/Turns.
use smtprelay.Base.{
  ℕ, ◌≤◌, ◌<◌, ◌≡◌, ◌∙◌, ap, sym, refl, true, Option, none, some, arith, Bytes, length, ltb, ◌==◌,
  codes,
}
use smtprelay.Listener.{Envelope}
use smtprelay.Smtpd.{Server, Session, reply, reset, close}
use smtprelay.Smtpd.Input.{dot_read}
use smtprelay.Smtpd.Command.{
  Command, Delivery, delivered, never, deliver, answer, too_big, with_envelope, handle_data,
  handle_rset, handle_noop, handle_quit, parse_line,
}
use smtprelay.Smtpd.Login.{Decoders}
use smtprelay.Smtpd.Serve.{
  Verb, helo, ehlo, mail, rcpt, starttls, text, rset, noop, quit, auth, xclient, unsupported,
  verb_of, dispatch, handle,
}
use smtprelay.Smtpd.Serve.Stays.{report-Staying}
use smtprelay.Smtpd.Serve.Staying.{handle_auth-Staying, handle_xclient-Staying}
use smtprelay.Smtpd.Serve.Turns.{
  is_complete, text_read, Turn, keeps, drops, hands, hangs, Views, Views-Stays, kept, dropped,
}
use smtprelay.Smtpd.Serve.Refining.{
  if-Turn, refused-Turn, handle_helo-Turn, handle_ehlo-Turn, handle_mail-Turn, handle_rcpt-Turn,
  handle_starttls-Turn,
}

module _ {W : Type 0} (server : Server W) where
  -- The session in which the text was read.
  abbrev after_text : Session W → Session W
  after_text s =
      let (body, complete, rest) = dot_read s.wire in
      record (reply 354 (codes "Go ahead. End your data with <CR><LF>.<CR><LF>") s) { wire = rest }

  answer-Turn :
      (d : Delivery W) (env : Envelope) (s t : Session W)
      → s.envelope ≡ some env
      → 1 ≤ length env.recipients
      → is_complete s.wire ≡ true
      → length (text_read s.wire) < server.max_message_size
      → deliver server s.peer (record env { body = text_read s.wire }) s.world ≡ d
      → t.world ≡ s.world
      → Turn server text s (answer server d t)
  unfolding reset reply
  answer-Turn (delivered none w) env s t begun somebody complete small d same =
      hands env none begun somebody complete small d refl
  answer-Turn (delivered (some e) w) env s t begun somebody complete small d same =
      let (e', w') =
        report-Staying server (Views server t.envelope w) (Views-Stays server t.envelope w) e
          (record t { world = w }) (refl, refl) in
      hands env (some e) begun somebody complete small (d ∙ ap (delivered (some e)) (sym w')) refl
  answer-Turn (never w) env s t begun somebody complete small d same =
      hangs env begun somebody complete small d refl

  handle_data-Turn : (s : Session W) → Turn server text s (handle_data server s)
  unfolding handle_data
  handle_data-Turn s = within s.envelope refl
    where
      refused : (code : ℕ) (m : Bytes) → Turn server text s (reply code m s)
      refused code m = refused-Turn server text code m s (λ e. ground arith)

      within :
          (o : Option Envelope) → s.envelope ≡ o → Turn server text s (with_envelope server o s)
      within none closed = refused 502 _
      within (some env) begun =
          if-Turn server text s (length env.recipients == 0) _ _ (λ nobody. refused 502 _)
            λ somebody.
              if-Turn server text s (ltb (length (text_read s.wire)) server.max_message_size) _ _
                (λ small.
                  if-Turn server text s (is_complete s.wire) _ _
                    (λ complete.
                      answer-Turn
                        (deliver server s.peer (record env { body = text_read s.wire }) s.world) env
                        s _ begun (ground arith) complete (ground arith) refl
                        (unfold reply in refl))
                    (λ cut.
                      kept server text s _ (λ e. ground arith) (unfold reply in (refl, refl))))
                (λ big.
                  if-Turn server text s (is_complete s.wire) _ _
                    (λ complete.
                      dropped server text s _ refl (unfold reply too_big reset in (refl, refl)))
                    (λ cut.
                      kept server text s _ (λ e. ground arith) (unfold reply in (refl, refl))))

  module _ (decoders : Decoders) where
    dispatch-Turn :
        (v : Verb) (cmd : Command) (s : Session W)
        → Turn server v s (dispatch decoders server v cmd s)
    unfolding handle_rset handle_noop handle_quit reset reply close
    dispatch-Turn helo cmd s = handle_helo-Turn server cmd.words s
    dispatch-Turn ehlo cmd s = handle_ehlo-Turn server cmd.words s
    dispatch-Turn mail cmd s = handle_mail-Turn server cmd.params s
    dispatch-Turn rcpt cmd s = handle_rcpt-Turn server cmd.params s
    dispatch-Turn starttls cmd s = handle_starttls-Turn server s
    dispatch-Turn text cmd s = handle_data-Turn s
    dispatch-Turn rset cmd s = drops refl refl refl
    dispatch-Turn noop cmd s = keeps (λ e. ground arith) refl refl
    dispatch-Turn quit cmd s = keeps (λ e. ground arith) refl refl
    dispatch-Turn auth cmd s =
        kept server auth s _ (λ e. ground arith)
          (handle_auth-Staying decoders server (Views server s.envelope s.world)
            (Views-Stays server s.envelope s.world) cmd.words s (refl, refl))
    dispatch-Turn xclient cmd s =
        kept server xclient s _ (λ e. ground arith)
          (handle_xclient-Staying decoders server (Views server s.envelope s.world)
            (Views-Stays server s.envelope s.world) cmd.words s (refl, refl))
    dispatch-Turn unsupported cmd s = keeps (λ e. ground arith) refl refl

    -- Whatever line a client sends, the session takes a turn of the protocol. MAIL begins a transaction
    -- only if none is open, the client has said its name, TLS is on where it is forced, and the checker
    -- of senders passes the address. RCPT adds one recipient to the open transaction, below the limit
    -- and past its checker. DATA hands the envelope, with a complete text below the size limit, to the
    -- handler, and closes the transaction, or leaves the session hanging in the handler; this alone
    -- changes what the handler keeps. RSET drops what is open; HELO, EHLO, STARTTLS and DATA may drop
    -- it; and in any other case the transaction stays as it is.
    pub handle-Turn :
        (line : Bytes) (s : Session W)
        → Turn server (verb_of (parse_line line).action) s (handle decoders server line s)
    unfolding handle
    handle-Turn line s = dispatch-Turn (verb_of (parse_line line).action) (parse_line line) s
