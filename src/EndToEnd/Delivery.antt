-- ===== src/EndToEnd/Delivery.antt =====
-- DATA, the text and QUIT of the client over a session, and the whole transaction of `SendMail`.
use smtprelay.Base.{
  ◌≤◌, ◌<◌, ◌≡◌, refl, true, false, not, ◌&&◌, none, some, List, [], ◌∷◌, ◌++◌, Bytes, codes, arith,
  length, All,
}
use smtprelay.Listener.{Envelope}
use smtprelay.Client.{
  answered, Network, Client, command, message, and_next, begin_data, close_data, quit, close,
  cmd_error, cmd,
}
use smtprelay.Client.Sending.{write, transaction}
use smtprelay.Client.Greeted.{Greeted, hello_again}
use smtprelay.Smtpd
use smtprelay.Smtpd.{Server, Session, ReplyLine, reply, going}
use smtprelay.Smtpd.Command.{delivered, deliver, handle_quit}
use smtprelay.Smtpd.Login.{Decoders}
use smtprelay.EndToEnd.{
  Other, incoming, heard, ask_session, finish_session, session_network, text_lines, dot_written,
  joined,
}
use smtprelay.EndToEnd.Taking.{go_ahead, wait_line, taken, data_asked, text_taken}
use smtprelay.EndToEnd.Lines.{handle_begin, handle_end}
use smtprelay.EndToEnd.Asking.{turn-handle, Carries, heard_two, behind, passed, reply-sent}
use smtprelay.EndToEnd.Passing.{IsMailbox, Stands, mail-Stands, rcpts-Stands}

module _ {W : Type 0} (decoders : Decoders) (server : Server W) (s₀ : Session W) where
  abbrev net : Network (Other W)
  net = session_network decoders server

  -- The client between DATA and the end of the text.
  abbrev begun : Client (Other W) → Client (Other W)
  begun c = record c {
    remote = record c.remote { command = codes "DATA" };
    said = c.said ++ command (codes "DATA") (answered 354 go_ahead) ∷ [];
  }

  begin_data-begun :
      (env : Envelope) (c : Client (Other W))
      → 1 ≤ length env.recipients
      → Carries (some env) s₀ c.remote.session
      → begin_data net c ≡ (none, begun c)
  unfolding begin_data cmd_error cmd ask_session
  begin_data-begun env c some_to h =
      rw
        (
          turn-handle decoders server (codes "DATA") [] c.remote.session
              (h.is_open, h.goes, omega arith),
          handle_begin decoders server (incoming [] c.remote.session),
          data_asked server s₀ env c.remote.session some_to h,
        )
        refl

  abbrev written : Bytes → Client (Other W) → Client (Other W)
  written text c = record (begun c) {
    remote = record c.remote { command = codes "DATA"; text = text };
  }

  -- The client behind the answer to its text.
  abbrev handed_over : Bytes → W → Client (Other W) → Client (Other W)
  handed_over text w c = record (written text c) {
    remote = record { session = taken w c.remote.session; command = codes "DATA"; text = text };
    said = (begun c).said ++ message text (answered 250 (codes "Thank you.")) ∷ [];
  }

  close_data-handed :
      (env : Envelope) (text : Bytes) (w : W) (c : Client (Other W))
      → 1 ≤ length env.recipients
      → length (joined (text_lines text)) < server.max_message_size
      → deliver server s₀.peer (record env { body = joined (text_lines text) }) s₀.world
        ≡ delivered none w
      → Carries (some env) s₀ c.remote.session
      → close_data net text (written text c) ≡ (none, handed_over text w c)
  unfolding close_data finish_session
  close_data-handed env text w c some_to small handed h =
      let s : Session W = c.remote.session in
      let heard : heard s (taken w s) ≡ answered 250 (codes "Thank you.") =
        heard_two s (taken w s) wait_line 250 (codes "Thank you.") refl refl in
      rw
        (
          turn-handle decoders server (codes "DATA") (dot_written text ∷ []) s
              (h.is_open, h.goes, omega arith),
          handle_begin decoders server (incoming (dot_written text ∷ []) s),
          text_taken server s₀ env text w s some_to small handed h,
          heard,
        )
        refl

  -- The session behind QUIT.
  abbrev left : Session W → Session W
  left s = handle_quit server (incoming [] s)

  quit-left :
      (c : Client (Other W))
      → Greeted c
      → c.remote.session.is_closed ≡ false
      → c.remote.session.course ≡ going
      → quit net c ≡ (none, behind (codes "QUIT") c (left c.remote.session) 221 (codes "OK, bye"))
  unfolding quit close handle_quit Smtpd.close
  quit-left c g still goes =
      let t : Session W = left c.remote.session in
      rw
        (
          hello_again net c g,
          passed decoders server 221 (codes "QUIT") c t 221 (codes "OK, bye")
              (handle_end decoders server (incoming [] c.remote.session))
              (reply-sent 221 (codes "OK, bye") (incoming [] c.remote.session) still)
              (still, goes, omega arith) refl refl,
        )
        refl

  abbrev parted : Bytes → W → Client (Other W) → Client (Other W)
  parted text w c =
      behind (codes "QUIT") (handed_over text w c) (left (taken w c.remote.session)) 221
        (codes "OK, bye")

  -- DATA, the text and QUIT.
  text_sent :
      (env : Envelope) (text : Bytes) (w : W) (c : Client (Other W))
      → 1 ≤ length env.recipients
      → length (joined (text_lines text)) < server.max_message_size
      → deliver server s₀.peer (record env { body = joined (text_lines text) }) s₀.world
        ≡ delivered none w
      → Stands decoders server s₀ (some env) c
      → and_next
          (begin_data net c)
          (λ d. and_next (write net text d) λ e. and_next (close_data net text e) (quit net))
        ≡ (none, parted text w c)
  unfolding write
  text_sent env text w c some_to small handed (h, g) =
      rw
        (
          begin_data-begun env c some_to h,
          close_data-handed env text w c some_to small handed h,
          quit-left (handed_over text w c)
              (record { did_hello = g.did_hello; no_error = g.no_error }) h.is_open h.goes,
        )
        refl

-- A client behind its greeting, over a session without checkers that is open and waits outside of a
-- transaction, has heard a name, and has TLS where it is forced, sends a mail: the sender and one
-- recipient or more, up to the limit, are words without a colon, with at most one `@` and of 65500
-- bytes at most, and the lines of the text, with a line feed behind each, stay below the size
-- limit. Then, if the handler takes the message, with exactly this sender, these recipients and
-- these lines as its body, the transaction gives no error, the handler has acted on this message
-- and on nothing else, and the session is closed with no transaction under way.
pub transaction-delivered :
    {W : Type 0} (decoders : Decoders) (server : Server W) (c : Client (Other W)) (a b : Bytes)
    (bs : List Bytes) (text : Bytes) (w : W)
    → server.sender_checker ≡ none
    → server.recipient_checker ≡ none
    → Greeted c
    → c.remote.session.envelope ≡ none
    → c.remote.session.is_closed ≡ false
    → c.remote.session.course ≡ going
    → 1 ≤ length c.remote.session.peer.helo_name
    → (not c.remote.session.tls && server.force_tls) ≡ false
    → All IsMailbox (a ∷ b ∷ bs)
    → length (b ∷ bs) ≤ server.max_recipients
    → length (joined (text_lines text)) < server.max_message_size
    → deliver server c.remote.session.peer
        (record { sender = a; recipients = b ∷ bs; body = joined (text_lines text) })
        c.remote.session.world
      ≡ delivered none w
    → (d : Client (Other W)) × (transaction (session_network decoders server) a (b ∷ bs) text c
        ≡ (none, d))
      × (d.remote.session.world ≡ w)
      × (d.remote.session.envelope ≡ none)
      × (d.remote.session.is_closed ≡ true)
unfolding transaction handle_quit Smtpd.close reply
transaction-delivered decoders server c a b bs text w free free' g new still goes named secret
      (one, each) few small handed =
    let s₀ = c.remote.session in
    let (d, mailed, h) = mail-Stands decoders server s₀ a c free named secret one (
      record {
        envelope = new;
        is_open = still;
        goes = goes;
        peer = refl;
        tls = refl;
        world = refl;
      },
      g,
    ) in
    let (e, asked, k) =
      rcpts-Stands decoders server s₀ (b ∷ bs) (record { sender = a; recipients = []; body = [] }) d
        free' each (omega arith) h in
    (
      parted decoders server s₀ text w e,
      rw (mailed, asked)
          (text_sent decoders server s₀ (record { sender = a; recipients = b ∷ bs; body = [] }) text
            w e (omega arith) small handed k),
      refl,
      refl,
      refl,
    )
