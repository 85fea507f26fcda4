-- ===== src/EndToEnd/Text.antt =====
-- The `DotReader` of the server reads back what the `DotWriter` of the client wrote.
use smtprelay.Base.{◌≡◌, refl, true, false, List, [], ◌∷◌, ◌++◌, Bytes, codes, map, eqb, arith}
use smtprelay.Smtpd.{Wire}
use smtprelay.Smtpd.Input.{unstuffed, dot_lines, dot_reads, dot_read}
use smtprelay.EndToEnd.{text_lines, stuffed, dot_written, joined}

-- No stuffed line is the single dot that ends a text.
stuffed_not_end : (line : Bytes) → eqb (stuffed line) (codes ".") ≡ false
unfolding eqb
stuffed_not_end [] = refl
stuffed_not_end (c ∷ []) = ground arith
stuffed_not_end (c ∷ d ∷ line) = ground arith

unstuffed-stuffed : (line : Bytes) → unstuffed (stuffed line) ≡ line
unstuffed-stuffed [] = refl
unstuffed-stuffed (c ∷ line) = ground arith

-- Any lines, in front of whatever follows the text.
dot_lines-stuffed :
    (lines rest : List Bytes)
    → dot_lines (map stuffed lines ++ codes "." ∷ rest) ≡ (joined lines, true, rest)
unfolding dot_lines eqb
dot_lines-stuffed [] rest = refl
dot_lines-stuffed (line ∷ lines) rest =
    rw (stuffed_not_end line, dot_lines-stuffed lines rest, unstuffed-stuffed line) refl

-- What stands in no buffer yet.
abbrev pub on_wire : List (List Bytes) → Wire
on_wire reads = record { scanned = []; buffered = []; network = reads; handshakes = [] }

pub dot_read-written :
    (text : Bytes) (reads : List (List Bytes))
    → dot_read (on_wire (dot_written text ∷ reads))
      ≡ (joined (text_lines text), true, on_wire reads)
unfolding dot_read dot_reads dot_written
dot_read-written text reads = rw (dot_lines-stuffed (text_lines text) []) refl
