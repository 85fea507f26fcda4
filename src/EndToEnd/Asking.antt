-- ===== src/EndToEnd/Asking.antt =====
-- One command of the client, and the one reply of the session.
use smtprelay.Base.{
  ◌∙◌, ap, ltb, ◌+◌, ◌≤◌, some, arith, ℕ, ◌==◌, ◌≡◌, refl, true, false, Option, none, List, [], ◌∷◌,
  ◌++◌, Bytes, pos, length, drop,
}
use smtprelay.Listener.{Envelope}
use smtprelay.Client.{answered, command, Client, accepts, cmd, cmd_error}
use smtprelay.Smtpd.{Server, Session, ReplyLine, reply, Course, going, hung, panicked}
use smtprelay.Smtpd.Login.{Decoders}
use smtprelay.Smtpd.Serve.{handle, round, next_round}
use smtprelay.Smtpd.Input.{got, scan, refill, max_scan_token_size}
use smtprelay.EndToEnd.{
  turn, takes_line, or_same, Other, incoming, heard, last_reply, ask_session, session_network,
}

drop-append {ℓ} : {A : Type ℓ} (xs ys : List A) → drop (length xs) (xs ++ ys) ≡ ys
drop-append [] ys = refl
drop-append (x ∷ xs) ys = drop-append xs ys

module _ {W : Type 0} where
  pub heard_one :
      (s t : Session W) (k : ℕ) (msg : Bytes)
      → t.sent ≡ s.sent ++ record { code = pos k; more = false; message = msg } ∷ []
      → heard s t ≡ answered k msg
  unfolding heard last_reply
  heard_one s t k msg e =
      rw (e, drop-append s.sent (record { code = pos k; more = false; message = msg } ∷ [])) refl

  -- The second of two replies.
  pub heard_two :
      (s t : Session W) (l : ReplyLine) (k : ℕ) (msg : Bytes)
      → l.more ≡ false
      → t.sent ≡ s.sent ++ l ∷ record { code = pos k; more = false; message = msg } ∷ []
      → heard s t ≡ answered k msg
  unfolding heard last_reply
  heard_two s t l k msg last e =
      rw
        (
          e,
          drop-append s.sent (l ∷ record { code = pos k; more = false; message = msg } ∷ []),
          last,
        )
        refl

  -- What a session keeps during a transaction: it is the peer's, open, and the world is as it was.
  pub record Carries (env : Option Envelope) (s₀ s : Session W) : Type 0 where
    pub envelope : s.envelope ≡ env
    pub is_open : s.is_closed ≡ false
    pub goes : s.course ≡ going
    pub peer : s.peer ≡ s₀.peer
    pub tls : s.tls ≡ s₀.tls
    pub world : s.world ≡ s₀.world

  pub reply-sent :
      (code : ℕ) (m : Bytes) (s : Session W)
      → s.is_closed ≡ false
      → (reply code m s).sent ≡ s.sent ++ record { code = pos code; more = false; message = m } ∷ []
  unfolding reply
  reply-sent code m s e = rw e refl

  -- The client behind a reply.
  abbrev pub behind : Bytes → Client (Other W) → Session W → ℕ → Bytes → Client (Other W)
  behind line c t k msg = record c {
    remote = record c.remote { session = t };
    said = c.said ++ command line (answered k msg) ∷ [];
  }

  -- The session is there to take this line, and its scanner has room for it.
  abbrev pub Takes : Bytes → Session W → Type 0
  Takes line s =
      (s.is_closed ≡ false) × (s.course ≡ going) × (length line + 2 ≤ max_scan_token_size)

  module _ (decoders : Decoders) (server : Server W) where
    ended_round : (c : Course) (t : Session W) → next_round decoders server some c t ≡ some t
    ended_round going t = refl
    ended_round hung t = refl
    ended_round panicked t = refl

    pub turn-handle :
        (line : Bytes) (reads : List (List Bytes)) (s : Session W)
        → Takes line s
        → turn decoders server line reads s ≡ handle decoders server line (incoming reads s)
    unfolding turn scan refill
    turn-handle line reads s (still, goes, short) =
        let fits : ltb max_scan_token_size (length line + 2) ≡ false = ground (arith, short) in
        let t : Session W = handle decoders server line (incoming reads s) in
        let begun : Session W = incoming ((line ∷ []) ∷ reads) s in
        let scanned : scan begun.wire ≡ got line (incoming reads s).wire = rw fits refl in
        let taken : takes_line decoders server s.course s.is_closed ≡ true =
          rw (goes, still) refl in
        let first : turn decoders server line reads s
            ≡ or_same decoders server s (round decoders server some (scan begun.wire) begun) =
          rw taken refl in
        first
        ∙ ap (λ o. or_same decoders server s (round decoders server some o begun)) scanned
        ∙ ap (or_same decoders server s) (ended_round t.course t)

    pub asked :
        (line : Bytes) (r : Other W) (t : Session W) (k : ℕ) (msg : Bytes)
        → handle decoders server line (incoming [] r.session) ≡ t
        → t.sent ≡ r.session.sent ++ record { code = pos k; more = false; message = msg } ∷ []
        → Takes line r.session
        → (k == 354) ≡ false
        → ask_session decoders server line r ≡ (answered k msg, record r { session = t })
    unfolding ask_session
    asked line r t k msg run sent fits final =
        rw (turn-handle line [] r.session fits, run, heard_one r.session t k msg sent, final) refl

    -- A command that meets one expected reply.
    pub passed :
        (expect : ℕ) (line : Bytes) (c : Client (Other W)) (t : Session W) (k : ℕ) (msg : Bytes)
        → handle decoders server line (incoming [] c.remote.session) ≡ t
        → t.sent
          ≡ c.remote.session.sent ++ record { code = pos k; more = false; message = msg } ∷ []
        → Takes line c.remote.session
        → (k == 354) ≡ false
        → accepts expect k ≡ true
        → cmd_error (session_network decoders server) expect line c ≡ (none, behind line c t k msg)
    unfolding cmd_error cmd
    passed expect line c t k msg run sent fits final fine =
        rw (asked line c.remote t k msg run sent fits final, fine) refl
