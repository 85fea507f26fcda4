-- ===== src/Smtpd/Serve/Carried.antt =====
-- A mail transaction that meets no obstacle is carried through.
use smtprelay.Base.{
  All, ap, append_assoc, append-nil, length-append, ◌+◌, ◌≤◌, ◌<◌, ◌≡◌, ◌∙◌, refl, true, false, not,
  ◌&&◌, none, some, List, [], ◌∷◌, ◌++◌, arith, Bytes, codes, length,
}
use smtprelay.Listener.{Envelope}
use smtprelay.Smtpd.{Server, Session, reply, reset}
use smtprelay.Smtpd.Command.{
  delivered, deliver, parse_address, handle_mail, handle_rcpt, handle_data,
}
use smtprelay.Message.Parsing.{ats}
use smtprelay.Smtpd.Command.Address.{parse_address_lem}
use smtprelay.Smtpd.Serve.Turns.{text_read, is_complete}

abbrev pub bracketed : Bytes → Bytes
bracketed a = b'<' ∷ a ++ b'>' ∷ []

module _ {W : Type 0} (server : Server W) where
  pub mail_begins :
      (s : Session W) (word from a : Bytes)
      → server.sender_checker ≡ none
      → 1 ≤ length s.peer.helo_name
      → (not s.tls && server.force_tls) ≡ false
      → s.envelope ≡ none
      → parse_address from ≡ some a
      → handle_mail server (word ∷ from ∷ []) s
        ≡ reply 250
            (codes "Go ahead")
            (record s { envelope = some (record { sender = a; recipients = []; body = [] }) })
  unfolding handle_mail
  mail_begins s word from a free named secret new fine = ground (arith, free, fine)

  pub rcpt_adds :
      (s : Session W) (word to b : Bytes) (env : Envelope)
      → server.recipient_checker ≡ none
      → length env.recipients < server.max_recipients
      → s.envelope ≡ some env
      → parse_address to ≡ some b
      → handle_rcpt server (word ∷ to ∷ []) s
        ≡ reply 250
            (codes "Go ahead")
            (record s { envelope = some (record env { recipients = env.recipients ++ b ∷ [] }) })
  unfolding handle_rcpt
  rcpt_adds s word to b env free room begun fine = ground (arith, free, fine, begun)

  data_hands :
      (s : Session W) (env : Envelope) (w : W)
      → s.envelope ≡ some env
      → 1 ≤ length env.recipients
      → is_complete s.wire ≡ true
      → length (text_read s.wire) < server.max_message_size
      → deliver server s.peer (record env { body = text_read s.wire }) s.world ≡ delivered none w
      → ((handle_data server s).world ≡ w) × ((handle_data server s).envelope ≡ none)
  unfolding handle_data reply reset
  data_hands s env w begun somebody complete small handed =
      rw (begun, complete, handed) (ground (arith, small, somebody))

  -- One RCPT after the other.
  abbrev pub name_all : List Bytes → Session W → Session W
  name_all [] s = s
  name_all (b ∷ bs) s = name_all bs (handle_rcpt server (codes "TO" ∷ bracketed b ∷ []) s)

  named_all :
      (bs : List Bytes) (s : Session W) (env : Envelope)
      → server.recipient_checker ≡ none
      → All (λ b. ats (bracketed b) ≤ 1) bs
      → length env.recipients + length bs ≤ server.max_recipients
      → s.envelope ≡ some env
      → ((name_all bs s).envelope ≡ some (record env { recipients = env.recipients ++ bs }))
        × ((name_all bs s).wire ≡ s.wire)
        × ((name_all bs s).peer ≡ s.peer)
        × ((name_all bs s).world ≡ s.world)
  unfolding reply
  named_all [] s env free few room begun = (rw (append-nil env.recipients) begun, refl, refl, refl)
  named_all (b ∷ bs) s env free (one, few) room begun =
      let (taken, given) = parse_address_lem (bracketed b) b in
      let next : Envelope = record env { recipients = env.recipients ++ b ∷ [] } in
      let t : Session W = reply 250 (codes "Go ahead") (record s { envelope = some next }) in
      let run : handle_rcpt server (codes "TO" ∷ bracketed b ∷ []) s ≡ t =
        rcpt_adds s (codes "TO") (bracketed b) b env free (omega arith) begun (given (refl, one)) in
      let (e, w, p, v) =
        named_all bs t next free few (omega (arith, length-append env.recipients (b ∷ []))) refl in
      rw (run, name_all)
        (
          e
              ∙ ap (λ l. some (record env { recipients = l }))
                  (append_assoc env.recipients (b ∷ []) bs),
          w,
          p,
          v,
        )

  -- Where no checker is set, a client that has said its name, over TLS where it is forced, and sends
  -- MAIL, then RCPT for one recipient or more, up to the limit, then DATA and a complete text below the
  -- size limit, each address in brackets with at most one `@`, gets exactly this message to the handler;
  -- if the handler takes it, the transaction is closed.
  pub transaction_carried :
      (s : Session W) (a b : Bytes) (bs : List Bytes) (w : W)
      → server.sender_checker ≡ none
      → server.recipient_checker ≡ none
      → 1 ≤ length s.peer.helo_name
      → (not s.tls && server.force_tls) ≡ false
      → s.envelope ≡ none
      → ats (bracketed a) ≤ 1
      → All (λ c. ats (bracketed c) ≤ 1) (b ∷ bs)
      → length (b ∷ bs) ≤ server.max_recipients
      → is_complete s.wire ≡ true
      → length (text_read s.wire) < server.max_message_size
      → deliver server s.peer
          (record { sender = a; recipients = b ∷ bs; body = text_read s.wire })
          s.world
        ≡ delivered none w
      → let t =
          handle_data server
            (name_all (b ∷ bs) (handle_mail server (codes "FROM" ∷ bracketed a ∷ []) s)) in
        (t.world ≡ w) × (t.envelope ≡ none)
  unfolding reply
  transaction_carried s a b bs w free free' named secret new fine each few complete small handed =
      let env : Envelope = record { sender = a; recipients = []; body = [] } in
      let (taken, given) = parse_address_lem (bracketed a) a in
      let t : Session W = reply 250 (codes "Go ahead") (record s { envelope = some env }) in
      let run : handle_mail server (codes "FROM" ∷ bracketed a ∷ []) s ≡ t =
        mail_begins s (codes "FROM") (bracketed a) a free named secret new (given (refl, fine)) in
      let (e, r, p, v) = named_all (b ∷ bs) t env free' each (omega arith) refl in
      rw run (
        data_hands (name_all (b ∷ bs) t) (record env { recipients = b ∷ bs }) w e (omega arith)
          (rw r complete) (rw r small) (rw (r, p, v) handed))
