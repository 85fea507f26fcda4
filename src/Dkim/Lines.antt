-- ===== src/Dkim/Lines.antt =====
-- The line ends of a text that is to be signed.
use smtprelay.Base.{
  ℕ, ◌≡◌, refl, ◌⊎◌, inl, inr, Bool, true, false, ◌&&◌, ◌||◌, not, [], ◌∷◌, arith, ◌==◌, Bool-cases,
  Bytes,
}
use smtprelay.Dkim.{contains, lf_to_crlf, crlf, normalise_lines}

-- Every line feed stands behind a carriage return; `prev` is the byte before the text.
abbrev pub no_bare_lf : ℕ → Bytes → Bool
no_bare_lf prev [] = true
no_bare_lf prev (c ∷ s) = (not (c == 10) || prev == 13) && no_bare_lf c s

lf_to_crlf-no_bare_lf : (prev : ℕ) (s : Bytes) → no_bare_lf prev (lf_to_crlf s) ≡ true
unfolding lf_to_crlf
lf_to_crlf-no_bare_lf prev [] = refl
lf_to_crlf-no_bare_lf prev (c ∷ s) =
    ground (arith, lf_to_crlf-no_bare_lf 10 s, lf_to_crlf-no_bare_lf c s)

-- The replacement leaves a pair of bytes to be found, or changes nothing.
replaced_or_same : (s : Bytes) → (contains (lf_to_crlf s) crlf ≡ true) ⊎ (lf_to_crlf s ≡ s)
unfolding lf_to_crlf contains
replaced_or_same [] = inr refl
replaced_or_same (c ∷ s) = ground (arith, replaced_or_same s)

kept_or_replaced :
    (s : Bytes)
    → ((contains s crlf ≡ true) × (normalise_lines s ≡ s))
      ⊎ ((contains s crlf ≡ false) × (no_bare_lf 0 (normalise_lines s) ≡ true))
unfolding normalise_lines
kept_or_replaced s = elim (Bool-cases (contains s crlf)) [
  | inl has ↦ inl (has, rw has refl)
  | inr lacks ↦ inr (lacks, rw lacks (lf_to_crlf-no_bare_lf 0 s))
]

normalised_twice : (s : Bytes) → normalise_lines (normalise_lines s) ≡ normalise_lines s
unfolding normalise_lines
normalised_twice s = elim (Bool-cases (contains s crlf)) [
  | inl has ↦ rw (has, has) refl
  | inr lacks ↦ elim (replaced_or_same s) [
    | inl found ↦ rw (lacks, found) refl
    | inr same ↦ rw (lacks, same, lacks, same) refl
  ]
]

-- Normalising is idempotent. It keeps a text that has a CRLF, and leaves no bare LF in any other.
pub normalise_lines_lem :
    (s : Bytes)
    → (normalise_lines (normalise_lines s) ≡ normalise_lines s)
      × (((contains s crlf ≡ true) × (normalise_lines s ≡ s))
          ⊎ ((contains s crlf ≡ false) × (no_bare_lf 0 (normalise_lines s) ≡ true)))
normalise_lines_lem s = (normalised_twice s, kept_or_replaced s)
