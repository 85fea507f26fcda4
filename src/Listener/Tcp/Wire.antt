-- ===== src/Listener/Tcp/Wire.antt =====
-- The reading of a frame: `readMetaData` and `readPayload` of tcplistener.go.
use smtprelay.Base.{
  ℕ, zero, suc, ◌-◌, ◌^◌, Bool, true, false, Option, none, some, List, [], ◌∷◌, ◌++◌, leb, ◌==◌,
  if◌then◌else◌, length, take, drop, Bytes,
}
use smtprelay.Base.Outcome.{Outcome, ok, err, ◌>>=◌}
use smtprelay.Packet.{EmailMessageWithByteArray}

abbrev pub metadata_length_bytes : ℕ
metadata_length_bytes = 4

-- `io.EOF`, `io.ErrUnexpectedEOF`, and any other error.
pub data ReadError : Type 0 where
  eof unexpected_eof broken : ReadError

-- A connection is what its reads will deliver: pieces of any size, and then an error.
pub record Conn : Type 0 where
  pub pieces : List Bytes
  pub ending : ReadError

-- What is outside: `DecodeFixed32` and `Unmarshal` of the protobuf package, and `compress/gzip`.
pub record Codec : Type 0 where
  pub decode_fixed32 : Bytes → Option ℕ
  pub unmarshal : Bytes → Option (List EmailMessageWithByteArray)
  pub gunzip : Bytes → Option Bytes

-- The pieces behind the first `n` bytes of the first one.
abbrev pub after : ℕ → Bytes → List Bytes → List Bytes
after n p ps = if leb (length p) n then ps else drop n p ∷ ps

abbrev pub read_pieces : ℕ → List Bytes → ReadError → Outcome ReadError (Bytes × Conn)
read_pieces n [] ending = err ending
read_pieces n (p ∷ ps) ending = ok (take n p, record { pieces = after n p ps; ending = ending })

-- `conn.Read(buf)` with a buffer of `n` bytes: at most what the next piece holds.
unfoldable pub read : ℕ → Conn → Outcome ReadError (Bytes × Conn)
read n conn = read_pieces n conn.pieces conn.ending

-- The buffer of `n` zero bytes after `got` was copied into it.
unfoldable pub filled : ℕ → Bytes → Bytes
filled zero got = []
filled (suc n) [] = 0 ∷ filled n []
filled (suc n) (c ∷ got) = c ∷ filled n got

-- `int64(uintSize)` and the test that it is not negative.
abbrev pub checked_size : Conn → Option ℕ → Outcome ReadError (ℕ × Conn)
checked_size conn none = err broken
checked_size conn (some n) = if leb (2 ^ 63) n then err broken else ok (n, conn)

-- `readMetaData`: the size, and the connection behind it.
unfoldable pub read_meta_data : Codec → Conn → Outcome ReadError (ℕ × Conn)
unfolding read filled
read_meta_data codec conn = do
  (got, rest) ← read metadata_length_bytes conn
  checked_size rest (codec.decode_fixed32 (filled metadata_length_bytes got))

-- The end of the input before the buffer is full.
abbrev pub cut_short : Bool → ReadError → ReadError
cut_short some_read eof = if some_read then unexpected_eof else eof
cut_short some_read unexpected_eof = unexpected_eof
cut_short some_read broken = broken

-- `io.ReadFull`, which reads pieces until it has `n` bytes.
unfoldable pub read_full : ℕ → List Bytes → ReadError → Bool → Outcome ReadError Bytes
read_full n [] ending some_read = if n == 0 then ok [] else err (cut_short some_read ending)
read_full n (p ∷ ps) ending some_read =
    let more = (do rest ← read_full (n - length p) ps ending true; ok (p ++ rest)) in
    if leb n (length p) then ok (take n p) else more

-- `readPayload`
unfoldable pub read_payload : ℕ → Conn → Outcome ReadError Bytes
unfolding read_full
read_payload size conn = read_full size conn.pieces conn.ending false
