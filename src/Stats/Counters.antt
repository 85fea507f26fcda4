-- ===== src/Stats/Counters.antt =====
-- The counters: a sum does not depend on when its goroutine runs, and a maximum is one of the values.
use smtprelay.Base.{◌≡◌, refl, ℤ, ◌+ℤ◌, int_laws, ltb_ℤ, List, [], ◌∷◌, ◌++◌, if◌then◌else◌}
use smtprelay.Stats.{add_values, max_values}

add_values-+ : (a b : ℤ) (vs : List ℤ) → add_values (a +ℤ b) vs ≡ a +ℤ add_values b vs
unfolding add_values
add_values-+ a b [] = refl
add_values-+ a b (v ∷ vs) = rw (← add_values-+ a (b +ℤ v) vs) (rw (assoc a b v) refl)
  where
    assoc : (a b v : ℤ) → a +ℤ b +ℤ v ≡ a +ℤ (b +ℤ v)
    assoc a b v = omega int_laws

-- Wherever the goroutine is interrupted, it ends with the same counter.
pub add_values-append :
    (c : ℤ) (us vs : List ℤ) → add_values c (us ++ vs) ≡ add_values (add_values c us) vs
unfolding add_values
add_values-append c [] vs = refl
add_values-append c (u ∷ us) vs = add_values-append (c +ℤ u) us vs

pub max_values-append :
    (c : ℤ) (us vs : List ℤ) → max_values c (us ++ vs) ≡ max_values (max_values c us) vs
unfolding max_values
max_values-append c [] vs = refl
max_values-append c (u ∷ us) vs = max_values-append (if ltb_ℤ c u then u else c) us vs
