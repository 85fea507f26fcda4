-- ===== src/Listener/Tcp/Frames.antt =====
-- A frame is a size in four bytes and a payload. It is read back if its first piece holds the whole
-- size, and not otherwise.
use smtprelay.Base.{
  ℕ, zero, suc, ◌+◌, ◌-◌, ◌*◌, ◌/◌, ◌%◌, ◌^◌, ◌≤◌, ◌<◌, ◌≡◌, refl, sym, ◌∙◌, ap, Bool, true, some,
  List, [], ◌∷◌, ◌++◌, arith, leb, Bool-cases, inl, inr, length, length-append, take, drop, Bytes,
}
use smtprelay.Base.Outcome.{ok}
use smtprelay.Listener.Tcp.Wire.{
  ReadError, Conn, Codec, after, read, filled, read_meta_data, read_full, read_payload,
}

-- All the bytes of the pieces.
abbrev pub joined : List Bytes → Bytes
joined [] = []
joined (p ∷ ps) = p ++ joined ps

-- The value of bytes, the lowest first.
abbrev pub le_value : Bytes → ℕ
le_value [] = 0
le_value (c ∷ s) = c + 256 * le_value s

-- Four bytes, the lowest first.
abbrev pub le32 : ℕ → Bytes
le32 n = (n % 256) ∷ (n / 256 % 256) ∷ (n / 65536 % 256) ∷ (n / 16777216 % 256) ∷ []

pub le_value-le32 : (n : ℕ) → n < 2 ^ 32 → le_value (le32 n) ≡ n
le_value-le32 n h = omega arith

take_within : (n : ℕ) (s t : Bytes) → n ≤ length s → take n (s ++ t) ≡ take n s
take_within zero s t h = refl
take_within (suc n) [] t h = absurd (omega arith)
take_within (suc n) (c ∷ s) t h = ap (λ l. c ∷ l) (take_within n s t (omega arith))

take_beyond : (n : ℕ) (s t : Bytes) → length s ≤ n → take n (s ++ t) ≡ s ++ take (n - length s) t
take_beyond n [] t h = rw (sub_nothing n)
  where
    sub_nothing : (n : ℕ) → n - 0 ≡ n
    sub_nothing n = omega arith
take_beyond zero (c ∷ s) t h = absurd (omega arith)
take_beyond (suc n) (c ∷ s) t h =
    let same : suc n - suc (length s) ≡ n - length s = omega arith in
    rw same (ap (λ l. c ∷ l) (take_beyond n s t (omega arith)))

-- However the bytes are cut into pieces, `io.ReadFull` gives the first `n` of them.
pub read_full_lem :
    (n : ℕ) (ps : List Bytes) (ending : ReadError) (some_read : Bool)
    → n ≤ length (joined ps)
    → read_full n ps ending some_read ≡ ok (take n (joined ps))
unfolding read_full
read_full_lem n [] ending b h = let none_left : n ≡ 0 = omega arith in rw none_left refl
read_full_lem n (p ∷ ps) ending b h = elim (Bool-cases (leb n (length p))) [
  | inl enough ↦ rw enough (rw (take_within n p (joined ps) (ground arith)) refl)
  | inr more ↦
      rw
        (
          more,
          read_full_lem (n - length p) ps ending true (omega (arith, length-append p (joined ps))),
        )
        (rw (take_beyond n p (joined ps) (ground arith)) refl)
]

drop_within : (n : ℕ) (s t : Bytes) → n ≤ length s → drop n (s ++ t) ≡ drop n s ++ t
drop_within zero s t h = refl
drop_within (suc n) [] t h = absurd (omega arith)
drop_within (suc n) (c ∷ s) t h = drop_within n s t (omega arith)

drop_all : (n : ℕ) (s : Bytes) → length s ≤ n → drop n s ≡ []
drop_all zero [] h = refl
drop_all zero (c ∷ s) h = absurd (omega arith)
drop_all (suc n) [] h = refl
drop_all (suc n) (c ∷ s) h = drop_all n s (omega arith)

joined-after :
    (n : ℕ) (p : Bytes) (ps : List Bytes)
    → n ≤ length p
    → joined (after n p ps) ≡ drop n (p ++ joined ps)
joined-after n p ps h = elim (Bool-cases (leb (length p) n)) [
  | inl used ↦ rw (used, drop_within n p (joined ps) h, drop_all n p (ground arith)) refl
  | inr left ↦ rw (left, drop_within n p (joined ps) h) refl
]

filled-take : (n : ℕ) (s : Bytes) → n ≤ length s → filled n s ≡ take n s
unfolding filled
filled-take zero s h = refl
filled-take (suc n) [] h = absurd (omega arith)
filled-take (suc n) (c ∷ s) h = ap (λ l. c ∷ l) (filled-take n s (omega arith))

pub length-filled : (n : ℕ) (s : Bytes) → length (filled n s) ≡ n
unfolding filled
length-filled zero s = refl
length-filled (suc n) [] = ap suc (length-filled n [])
length-filled (suc n) (c ∷ s) = ap suc (length-filled n s)

filled-of_take : (n : ℕ) (s : Bytes) → filled n (take n s) ≡ filled n s
unfolding filled
filled-of_take zero s = refl
filled-of_take (suc n) [] = refl
filled-of_take (suc n) (c ∷ s) = ap (λ l. c ∷ l) (filled-of_take n s)

take_front : (n : ℕ) (s t : Bytes) → length s ≡ n → take n (s ++ t) ≡ s
take_front zero [] t h = refl
take_front zero (c ∷ s) t h = absurd (omega arith)
take_front (suc n) [] t h = absurd (omega arith)
take_front (suc n) (c ∷ s) t h = ap (λ l. c ∷ l) (take_front n s t (omega arith))

module _ (codec : Codec)
    (fixed32 : (b : Bytes) → length b ≡ 4 → codec.decode_fixed32 b ≡ some (le_value b)) where
  size_of_piece :
      (p : Bytes) (ps : List Bytes) (ending : ReadError)
      → le_value (filled 4 p) < 2 ^ 32
      → read_meta_data codec (record { pieces = p ∷ ps; ending = ending })
        ≡ ok (le_value (filled 4 p), record { pieces = after 4 p ps; ending = ending })
  unfolding read_meta_data read
  size_of_piece p ps ending h =
      rw (filled-of_take 4 p, fixed32 (filled 4 p) (length-filled 4 p)) (ground arith)

  -- A frame whose size is in the first piece is read back, however the rest of it is cut into pieces
  -- and whatever follows it.
  pub frame_lem :
      (payload extra p : Bytes) (ps : List Bytes) (ending : ReadError)
      → length payload < 2 ^ 32
      → 4 ≤ length p
      → joined (p ∷ ps) ≡ le32 (length payload) ++ payload ++ extra
      → (conn : Conn) × (read_meta_data codec (record { pieces = p ∷ ps; ending = ending })
          ≡ ok (length payload, conn))
        × (read_payload (length payload) conn ≡ ok payload)
  unfolding read_payload
  frame_lem payload extra p ps ending small whole cut =
      let head : filled 4 p ≡ le32 (length payload) =
        filled-take 4 p whole ∙ sym (take_within 4 p (joined ps) whole) ∙ ap (take 4) cut in
      let size : le_value (filled 4 p) ≡ length payload =
        rw head (le_value-le32 (length payload) small) in
      let tail : joined (after 4 p ps) ≡ payload ++ extra =
        joined-after 4 p ps whole ∙ ap (drop 4) cut in
      (
        record { pieces = after 4 p ps; ending = ending },
        rw size at (size_of_piece p ps ending (rw size small)),
        read_full_lem (length payload) (after 4 p ps) ending _
              (rw (tail, length-append payload extra) (omega arith))
            ∙ rw (tail, take_front (length payload) payload extra refl) refl,
      )

  cut_value : (n k : ℕ) → k < 4 → le_value (filled 4 (take k (le32 n))) ≡ n % 256 ^ k
  unfolding filled
  cut_value n zero h = omega arith
  cut_value n (suc zero) h = omega arith
  cut_value n (suc (suc zero)) h = omega arith
  cut_value n (suc (suc (suc zero))) h = omega arith
  cut_value n (suc (suc (suc (suc k)))) h = absurd (omega arith)

  cut_bound : (n k : ℕ) → k < 4 → n % 256 ^ k < 2 ^ 32
  cut_bound n zero h = omega arith
  cut_bound n (suc zero) h = omega arith
  cut_bound n (suc (suc zero)) h = omega arith
  cut_bound n (suc (suc (suc zero))) h = omega arith
  cut_bound n (suc (suc (suc (suc k)))) h = absurd (omega arith)

  cut_after : (n k : ℕ) (ps : List Bytes) → k < 4 → after 4 (take k (le32 n)) ps ≡ ps
  cut_after n zero ps h = refl
  cut_after n (suc zero) ps h = refl
  cut_after n (suc (suc zero)) ps h = refl
  cut_after n (suc (suc (suc zero))) ps h = refl
  cut_after n (suc (suc (suc (suc k)))) ps h = absurd (omega arith)

  -- Where the first piece holds only the first `k` bytes of a size, fewer than four, the size that is
  -- read is its remainder by `256 ^ k`, and the other bytes of the size are left to be read as payload.
  pub cut_size :
      (n k : ℕ) (ps : List Bytes) (ending : ReadError)
      → k < 4
      → read_meta_data codec (record { pieces = take k (le32 n) ∷ ps; ending = ending })
        ≡ ok (n % 256 ^ k, record { pieces = ps; ending = ending })
  cut_size n k ps ending h =
      rw (cut_value n k h, cut_after n k ps h) at
        (size_of_piece (take k (le32 n)) ps ending (rw (cut_value n k h) (cut_bound n k h)))
