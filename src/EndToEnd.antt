-- ===== src/EndToEnd.antt =====
-- The SMTP client of smtp/smtp.go on one end of a connection, and a session of smtpd/ on the other.
pub mod Text
pub mod Lines
pub mod Spoken
pub mod Asking
pub mod Passing
pub mod Taking
pub mod Delivery
pub mod Authenticating
pub mod Hop
use smtprelay.Base.{
  ℕ, not, ◌==◌, Bool, true, false, ◌&&◌, Option, none, some, List, [], ◌∷◌, ◌++◌, ℤ, pos, negsuc,
  if◌then◌else◌, Bytes, codes, map, length, drop, push_first,
}
use smtprelay.Client.{Answer, answered, broken, Network}
use smtprelay.Smtpd.{Server, Session, ReplyLine, Course, going, hung, panicked}
use smtprelay.Smtpd.Input.{scan}
use smtprelay.Smtpd.Login.{Decoders}
use smtprelay.Smtpd.Serve.{round}

-- `DotWriter` of `net/textproto`: the lines of a text, each with a second dot in front of a first one,
-- and a single dot behind them. A line ends with a line feed, and a carriage return in front of that,
-- unless it is itself behind one; a last line without an end is given one.
abbrev pub ends_line : Bytes → Bool
ends_line [] = true
ends_line (c ∷ text) = c == 10

abbrev pub closed_line : List Bytes → List Bytes
closed_line [] = [] ∷ []
closed_line (line ∷ lines) = line ∷ lines

-- `after_cr` tells whether the byte stands behind a carriage return that ends no line.
unfoldable pub lines_from : Bool → Bytes → List Bytes
lines_from after_cr [] = []
lines_from after_cr (c ∷ text) =
    let lines = lines_from false text in
    let behind_cr = lines_from true text in
    if c == 10
    then [] ∷ lines
    else if c == 13 && not after_cr
    then (if ends_line text then closed_line lines else push_first c behind_cr)
    else push_first c lines

unfoldable pub text_lines : Bytes → List Bytes
unfolding lines_from
text_lines text = lines_from false text

abbrev pub stuffed : Bytes → Bytes
stuffed [] = []
stuffed (c ∷ line) = if c == b'.' then b'.' ∷ c ∷ line else c ∷ line

unfoldable pub dot_written : Bytes → List Bytes
unfolding text_lines
dot_written text = map stuffed (text_lines text) ++ codes "." ∷ []

-- The lines with an end behind each.
abbrev pub joined : List Bytes → Bytes
joined [] = []
joined (line ∷ lines) = line ++ 10 ∷ joined lines

-- What the client reads of the lines that the server sent: the last reply, its lines joined.
unfoldable pub last_reply : Bytes → List ReplyLine → Answer
last_reply text [] = broken (codes "EOF")
last_reply text (l ∷ []) = elim l.code [
  | pos n ↦ answered n (text ++ l.message)
  | negsuc n ↦ broken (codes "invalid response")
]
last_reply text (l ∷ m ∷ ls) =
    let going = last_reply (text ++ l.message ++ 10 ∷ []) (m ∷ ls) in
    let next = last_reply [] (m ∷ ls) in if l.more then going else next

-- The server's end: a session that waits for a line, or, behind DATA, the command and the text so far.
pub record Other (W : Type 0) : Type 0 where
  pub session : Session W
  pub command : Bytes
  pub text : Bytes

abbrev pub is_waiting : Answer → Bool
is_waiting (answered code msg) = code == 354
is_waiting (broken text) = false

module _ {W : Type 0} where
  -- A session with these lines on their way.
  abbrev pub incoming : List (List Bytes) → Session W → Session W
  incoming reads s = record s {
    wire = record { scanned = []; buffered = []; network = reads; handshakes = [] };
  }

  unfoldable pub heard : Session W → Session W → Answer
  unfolding last_reply
  heard s t = last_reply [] (drop (length s.sent) t.sent)

  module _ (decoders : Decoders) (server : Server W) where
    abbrev pub or_same : Session W → Option (Session W) → Session W
    or_same s none = s
    or_same s (some t) = t

    -- One round of the loop of the session, with a line and what is behind it. A session that is
    -- closed, or does not go on, takes nothing.
    abbrev pub takes_line : Course → Bool → Bool
    takes_line going is_closed = not is_closed
    takes_line hung is_closed = false
    takes_line panicked is_closed = false

    unfoldable pub turn : Bytes → List (List Bytes) → Session W → Session W
    unfolding scan
    turn line reads s =
        let t = incoming ((line ∷ []) ∷ reads) s in
        if takes_line s.course s.is_closed
        then or_same s (round decoders server some (scan t.wire) t)
        else s

    unfoldable pub ask_session : Bytes → Other W → Answer × Other W
    unfolding heard turn
    ask_session line r =
        let t = turn line [] r.session in
        let answer = heard r.session t in
        (
          answer,
          if is_waiting answer then record r { command = line } else record r { session = t },
        )

    unfoldable pub finish_session : Other W → Answer × Other W
    unfolding heard turn dot_written
    finish_session r =
        let t = turn r.command (dot_written r.text ∷ []) r.session in
        (heard r.session t, record r { session = t })

    -- The connection to the session.
    abbrev pub session_network : Network (Other W)
    session_network = record {
      dial = λ addr r. (none, r);
      host = λ addr. addr;
      greet = λ r. (last_reply [] r.session.sent, r);
      ask = ask_session;
      write = λ text r. (none, record r { text = text });
      finish = finish_session;
      secure = λ r. r;
      hang_up = λ r. (none, r);
    }
