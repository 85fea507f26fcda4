-- ===== src/EndToEnd/Hop.antt =====
-- The client over a session of the relay itself: a mail goes from one relay into the queue of the next.
use smtprelay.Base.{
  ◌+◌, ◌≤◌, ◌<◌, ◌≡◌, refl, ap, ◌∙◌, not, ◌&&◌, Bool, true, false, none, List, ◌∷◌, ◌++◌, Bytes,
  length, All, occurs,
}
use smtprelay.Base.Outcome.{ok}
use smtprelay.Config.{Conf}
use smtprelay.Message.{Msg, domains}
use smtprelay.Queue.{QueueEntry, Relay, max_mail_buffer_size}
use smtprelay.Listener.{Inbound, Envelope}
use smtprelay.Listener.Smtp.{smtp_handler, handler_panic_processor}
use smtprelay.Listener.Smtp.Accept.{parsed}
use smtprelay.Listener.Smtp.Entries.{recipients_of}
use smtprelay.Listener.Smtp.Delivery.{accepted_covers}
use smtprelay.Client.{Client}
use smtprelay.Client.Sending.{transaction}
use smtprelay.Client.Greeted.{Greeted}
use smtprelay.Smtpd.{Peer, Server, going}
use smtprelay.Smtpd.Command.{delivered, deliver}
use smtprelay.Smtpd.Login.{Decoders}
use smtprelay.Smtpd.Serve.{configure_defaults}
use smtprelay.Smtpd.Relay.{relay_handler, smtp_server, running_server}
use smtprelay.EndToEnd.{Other, session_network, text_lines, joined}
use smtprelay.EndToEnd.Passing.{IsMailbox}
use smtprelay.EndToEnd.Delivery.{transaction-delivered}

tls_free : (tls : Bool) → (not tls && false) ≡ false
tls_free true = refl
tls_free false = refl

module _ (inb : Inbound) (conf : Conf) (fresh : Peer → Envelope → Relay → Bytes)
    (each_key : (k : Bytes) (ks : List Bytes) → occurs k (inb.visit ks) ≡ occurs k ks)
    (decoders : Decoders) where
  abbrev server : Server Relay
  server = running_server inb conf fresh

  deliver-taken :
      (peer : Peer) (env : Envelope) (r r' : Relay)
      → smtp_handler inb conf env (fresh peer env r) r ≡ (ok tt, r')
      → deliver server peer env r ≡ delivered none r'
  unfolding running_server smtp_server configure_defaults deliver relay_handler
      handler_panic_processor
  deliver-taken peer env r r' run = rw run refl

  -- A client behind its greeting, over an open session of another relay that waits outside of a
  -- transaction and has heard a name, sends a mail: the sender and the recipients, 100 at most, are
  -- words without a colon, with at most one `@` and of 65500 bytes at most, and the text stays
  -- below 10240000 bytes. If `smtpHandler` of that relay accepts the message of these lines, for
  -- whose entries its mail queue has room, the transaction gives no error, and that relay has
  -- queued entries behind those that were there which name each recipient at least as often as the
  -- client did.
  pub transaction-queued :
      (c : Client (Other Relay)) (a b : Bytes) (bs : List Bytes) (text : Bytes) (r' : Relay)
      → Greeted c
      → c.remote.session.envelope ≡ none
      → c.remote.session.is_closed ≡ false
      → c.remote.session.course ≡ going
      → 1 ≤ length c.remote.session.peer.helo_name
      → All IsMailbox (a ∷ b ∷ bs)
      → length (b ∷ bs) ≤ 100
      → length (joined (text_lines text)) < 10240000
      → let r = c.remote.session.world in
        let env : Envelope = record {
          sender = a;
          recipients = b ∷ bs;
          body = joined (text_lines text);
        } in
        let id = fresh c.remote.session.peer env r in
        ((msg : Msg)
          → parsed inb conf env id ≡ ok msg
          → length r.mail_queue + length (inb.visit (domains msg)) ≤ max_mail_buffer_size)
        → smtp_handler inb conf env id r ≡ (ok tt, r')
        → (d : Client (Other Relay)) × (es : List QueueEntry) × (transaction
              (session_network decoders server)
              a
              (b ∷ bs)
              text
              c
            ≡ (none, d))
          × (d.remote.session.world.mail_queue ≡ r.mail_queue ++ es)
          × ((x : Bytes) → occurs x (b ∷ bs) ≤ occurs x (recipients_of es))
  unfolding running_server smtp_server configure_defaults
  transaction-queued c a b bs text r' g new still goes named plain few small room taken =
      let r = c.remote.session.world in
      let env : Envelope = record {
        sender = a;
        recipients = b ∷ bs;
        body = joined (text_lines text);
      } in
      let peer = c.remote.session.peer in
      let (d, run, world, out, over) =
        transaction-delivered decoders server c a b bs text r' refl refl g new still goes named
          (tls_free c.remote.session.tls) plain few small (deliver-taken peer env r r' taken) in
      let (es, queued, covers) =
        accepted_covers inb conf env (fresh peer env r) each_key r r' room taken in
      (d, es, run, ap (λ w. w.mail_queue) world ∙ queued, covers)
