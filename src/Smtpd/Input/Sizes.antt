-- ===== src/Smtpd/Input/Sizes.antt =====
-- Reading takes lines from the wire, and gives none back.
use smtprelay.Base.{
  ℕ, ◌+◌, ◌≤◌, ◌<◌, ◌≡◌, List, [], ◌∷◌, arith, ap, refl, Bool-cases, inl, inr, ltb, length,
  length-append, Bytes,
}
use smtprelay.Smtpd.{Wire}
use smtprelay.Smtpd.Input.{
  Scan, got, too_long, ended, max_scan_token_size, refill, scan_from, scan_buffered, scan_scanned,
  scan, dot_lines, dot_reads, dot_read, reads_size, handshakes_size, wire_size,
}

-- A scan leaves less than `n` lines, if it met one.
abbrev pub Consumes : ℕ → Scan → Type 0
Consumes n (got line rest) = wire_size rest < n
Consumes n (too_long rest) = wire_size rest < n
Consumes n (ended rest) = wire_size rest ≤ n

refill_size :
    (reads : List (List Bytes))
    → length (refill reads).0 + reads_size (refill reads).1 ≤ reads_size reads
unfolding refill
refill_size [] = omega arith
refill_size ([] ∷ reads) = omega (arith, refill_size reads)
refill_size ((line ∷ lines) ∷ reads) = omega arith

scan_from-Consumes :
    (lines : List Bytes) (w : Wire) (n : ℕ)
    → length lines + length w.buffered + reads_size w.network + handshakes_size w.handshakes ≤ n
    → Consumes n (scan_from lines w)
scan_from-Consumes [] w n h = omega arith
scan_from-Consumes (line ∷ lines) w n h =
    elim (Bool-cases (ltb max_scan_token_size (length line + 2))) [
      | inl long ↦ rw long (omega (arith, length-append lines w.buffered))
      | inr short ↦ rw short (omega arith)
    ]

scan_buffered-Consumes :
    (lines : List Bytes) (reads : List (List Bytes)) (w : Wire) (n : ℕ)
    → w.buffered ≡ lines
    → w.network ≡ reads
    → length lines + reads_size reads + handshakes_size w.handshakes ≤ n
    → Consumes n (scan_buffered lines reads w)
scan_buffered-Consumes [] reads w n e f h =
    scan_from-Consumes (refill reads).0 (record w { network = (refill reads).1 }) n
      (omega (arith, refill_size reads, ap length e))
scan_buffered-Consumes (line ∷ lines) reads w n e f h =
    scan_from-Consumes (line ∷ lines) (record w { buffered = [] }) n
      (omega (arith, ap reads_size f))

scan_scanned-Consumes :
    (lines : List Bytes) (w : Wire) (n : ℕ)
    → length lines + length w.buffered + reads_size w.network + handshakes_size w.handshakes ≤ n
    → Consumes n (scan_scanned lines w)
scan_scanned-Consumes [] w n h =
    scan_buffered-Consumes w.buffered w.network w n refl refl (omega arith)
scan_scanned-Consumes (line ∷ lines) w n h = scan_from-Consumes (line ∷ lines) w n h

pub scan-Consumes : (w : Wire) → Consumes (wire_size w) (scan w)
unfolding scan
scan-Consumes w = scan_scanned-Consumes w.scanned w (wire_size w) (omega arith)

dot_lines_size : (lines : List Bytes) → length (dot_lines lines).2 ≤ length lines
unfolding dot_lines
dot_lines_size [] = omega arith
dot_lines_size (line ∷ lines) = ground (arith, dot_lines_size lines)

dot_reads_size :
    (reads : List (List Bytes))
    → length (dot_reads reads).2 + reads_size (dot_reads reads).3 ≤ reads_size reads
unfolding dot_reads
dot_reads_size [] = omega arith
dot_reads_size (read ∷ reads) = ground (arith, dot_lines_size read, dot_reads_size reads)

pub dot_read_size : (w : Wire) → wire_size (dot_read w).2 ≤ wire_size w
unfolding dot_read
dot_read_size w = ground (arith, dot_reads_size (w.buffered ∷ w.network))
