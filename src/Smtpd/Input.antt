-- ===== src/Smtpd/Input.antt =====
-- The reading of a session: `bufio.Scanner` line by line, and the `DotReader` of `net/textproto`.
pub mod Sizes
use smtprelay.Base.{
  ℕ, zero, suc, ◌+◌, ltb, leb, ◌==◌, Bool, true, false, Option, none, some, List, [], ◌∷◌, ◌++◌,
  if◌then◌else◌, Bytes, codes, eqb, length,
}
use smtprelay.Smtpd.{Wire}

-- `bufio.MaxScanTokenSize`
abbrev pub max_scan_token_size : ℕ
max_scan_token_size = 65536

pub data Scan : Type 0 where
  got : Bytes → Wire → Scan
  too_long : Wire → Scan
  ended : Wire → Scan

-- The first read that gives anything, and the reads after it.
unfoldable pub refill : List (List Bytes) → List Bytes × List (List Bytes)
refill [] = ([], [])
refill ([] ∷ reads) = refill reads
refill ((line ∷ lines) ∷ reads) = (line ∷ lines, reads)

-- A line from the buffer of the scanner. A line that does not fit, with a carriage return and a
-- line feed, is skipped, and what stands behind it is left to the reader, as the recovery in
-- `serve` does it.
abbrev pub scan_from : List Bytes → Wire → Scan
scan_from [] w = ended (record w { scanned = [] })
scan_from (line ∷ lines) w =
    if ltb max_scan_token_size (length line + 2)
    then too_long (record w { scanned = []; buffered = lines ++ w.buffered })
    else got line (record w { scanned = lines })

-- With an empty buffer, the scanner reads once more.
abbrev pub scan_buffered : List Bytes → List (List Bytes) → Wire → Scan
scan_buffered [] network w =
    let (lines, reads) = refill network in scan_from lines (record w { network = reads })
scan_buffered (line ∷ lines) network w = scan_from (line ∷ lines) (record w { buffered = [] })

abbrev pub scan_scanned : List Bytes → Wire → Scan
scan_scanned [] w = scan_buffered w.buffered w.network w
scan_scanned (line ∷ lines) w = scan_from (line ∷ lines) w

-- `scanner.Scan()`
unfoldable pub scan : Wire → Scan
unfolding refill
scan w = scan_scanned w.scanned w

-- A leading dot is taken off.
abbrev pub unstuffed : Bytes → Bytes
unstuffed [] = []
unstuffed (c ∷ s) = if c == b'.' then s else c ∷ s

-- The lines up to a single dot: the text, whether the dot was there, and the lines behind it.
unfoldable pub dot_lines : List Bytes → Bytes × Bool × List Bytes
unfolding eqb
dot_lines [] = ([], false, [])
dot_lines (line ∷ lines) =
    let (text, found, rest) = dot_lines lines in
    if eqb line (codes ".") then ([], true, lines) else (unstuffed line ++ 10 ∷ text, found, rest)

-- The same over the reads to come: the text, and the rest if the dot was there.
unfoldable pub dot_reads : List (List Bytes) → Bytes × Bool × List Bytes × List (List Bytes)
unfolding dot_lines
dot_reads [] = ([], false, [], [])
dot_reads (read ∷ reads) =
    let (text, found, rest) = dot_lines read in
    let (more, last, behind, later) = dot_reads reads in
    if found then (text, true, rest, reads) else (text ++ more, last, behind, later)

-- `DotReader`, which reads from the buffer of the reader and from the network: the text, whether it
-- was complete, and what is left.
unfoldable pub dot_read : Wire → Bytes × Bool × Wire
unfolding dot_reads
dot_read w =
    let (text, found, rest, reads) = dot_reads (w.buffered ∷ w.network) in
    (text, found, record w { buffered = rest; network = reads })

-- All the lines that a wire can still deliver.
abbrev pub reads_size : List (List Bytes) → ℕ
reads_size [] = 0
reads_size (read ∷ reads) = length read + reads_size reads

abbrev pub handshakes_size : List (Bool × List (List Bytes)) → ℕ
handshakes_size [] = 0
handshakes_size ((b, reads) ∷ rest) = reads_size reads + handshakes_size rest

abbrev pub wire_size : Wire → ℕ
wire_size w =
    length w.scanned + length w.buffered + reads_size w.network + handshakes_size w.handshakes
