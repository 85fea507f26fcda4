-- ===== src/Dns/Round.antt =====
-- `getRoundElement` walks round the list of MX records.
use native.Mathlib.Nat.{mod-lt, mod-eq_of_lt, mod-eq-sub-mod}
use smtprelay.Base.{
  ℕ, zero, suc, ◌+◌, ◌-◌, ◌%◌, ◌<◌, ◌≡◌, ◌≢◌, refl, ap, inl, inr, some, List, [], ◌∷◌, arith, leb,
  Bool-cases, length, get_elem?, get_elem?_lt,
}
use smtprelay.Base.Outcome.{ok, err}
use smtprelay.Dns.{Mx, not_found, reduce, get_round_element}

-- The loop ends within as many rounds as the counter says, and leaves the remainder.
reduce-mod : (fuel l n : ℕ) → 0 < l → n < fuel → reduce fuel l n ≡ some (n % l)
unfolding reduce
reduce-mod zero l n p h = absurd (omega arith)
reduce-mod (suc fuel) l n p h = elim (Bool-cases (leb l n)) [
  | inl ge ↦ rw ge (
      rw (mod-eq-sub-mod {n = n} {m = l} (ground arith))
        (reduce-mod fuel l (n - l) p (ground arith)))
  | inr lt ↦ rw lt (rw (mod-eq_of_lt {n = n} {m = l} (ground arith)))
]

-- With a record at hand, attempt `n` takes the record at `n` modulo their number.
pub get_round_element-mod :
    (mxs : List Mx) (n : ℕ)
    → mxs ≢ []
    → (mx : Mx) × (get_elem? mxs (n % length mxs) ≡ some mx) × (get_round_element mxs n ≡ ok mx)
unfolding get_round_element
get_round_element-mod [] n h = absurd (h refl)
get_round_element-mod (m ∷ mxs) n h =
    let (mx, e) = get_elem?_lt (m ∷ mxs) (n % suc (length mxs)) (mod-lt n (omega arith)) in
    (mx, e, ground (arith, reduce-mod (suc n) (suc (length mxs)) n, e))

-- With no record the search ends in an error.
pub get_round_element-nil : (n : ℕ) → get_round_element [] n ≡ err not_found
unfolding get_round_element
get_round_element-nil n = refl

mod-add_self : (i l : ℕ) → (i + l) % l ≡ i % l
mod-add_self i l =
    rw (mod-eq-sub-mod {n = i + l} {m = l} (omega arith)) (ap (λ k. k % l) (omega arith))

-- As many attempts as there are records try every record once: the one at `i` at attempt `i`, and
-- again a round later.
pub get_round_element-round :
    (mxs : List Mx) (i : ℕ)
    → i < length mxs
    → (mx : Mx) × (get_elem? mxs i ≡ some mx)
      × (get_round_element mxs i ≡ ok mx)
      × (get_round_element mxs (i + length mxs) ≡ ok mx)
get_round_element-round [] i h = elim h [ ]
get_round_element-round (m ∷ mxs) i h =
    let (mx, e, f) = get_round_element-mod (m ∷ mxs) i (cc) in
    let (my, e', f') = get_round_element-mod (m ∷ mxs) (i + length (m ∷ mxs)) (cc) in
    let same : (i + length (m ∷ mxs)) % length (m ∷ mxs) ≡ i % length (m ∷ mxs) =
      mod-add_self i (length (m ∷ mxs)) in
    (mx, rw (mod-eq_of_lt h) at e, f, cc)
