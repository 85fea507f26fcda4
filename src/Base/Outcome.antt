-- ===== src/Base/Outcome.antt =====
-- How a Go call ends: with a value, with an error, by a panic, in a loop whose fuel ran out, or
-- waiting for ever on a channel.
use mathlib.Core.Path.{◌≡◌, refl}

pub data Outcome (E : Type 0) (A : Type 0) : Type 0 where
  ok : A → Outcome E A
  err : E → Outcome E A
  panicked : Outcome E A
  diverged : Outcome E A
  blocked : Outcome E A

infixl 5 ◌>>=◌
abbrev pub ◌>>=◌ : {E A B : Type 0} → Outcome E A → (A → Outcome E B) → Outcome E B
ok a >>= f = f a
err e >>= f = err e
panicked >>= f = panicked
diverged >>= f = diverged
blocked >>= f = blocked

-- A chain that gives a value has a value in the middle.
pub middle_value :
    {E A B : Type 0} (first : Outcome E A) (rest : A → Outcome E B) {result : B}
    → (first >>= rest) ≡ ok result
    → (v : A) × (first ≡ ok v) × (rest v ≡ ok result)
middle_value blocked rest run = cc
middle_value diverged rest run = cc
middle_value panicked rest run = cc
middle_value (err e) rest run = cc
middle_value (ok v) rest run = (v, refl, run)

-- The call came back, with a value or with an error.
abbrev pub Returns : {E A : Type 0} → Outcome E A → Type 0
Returns (ok a) = Unit
Returns (err e) = Unit
Returns panicked = ⊥
Returns diverged = ⊥
Returns blocked = ⊥

-- The call came back or panicked.
abbrev pub Halts : {E A : Type 0} → Outcome E A → Type 0
Halts (ok a) = Unit
Halts (err e) = Unit
Halts panicked = Unit
Halts diverged = ⊥
Halts blocked = ⊥

pub >>=-Halts :
    {E A B : Type 0} (m : Outcome E A) (f : A → Outcome E B)
    → Halts m
    → ((a : A) → Halts (f a))
    → Halts (m >>= f)
>>=-Halts (ok a) f h k = k a
>>=-Halts (err e) f h k = tt
>>=-Halts panicked f h k = tt
>>=-Halts diverged f h k = h
>>=-Halts blocked f h k = h

pub >>=-Returns :
    {E A B : Type 0} (m : Outcome E A) (f : A → Outcome E B)
    → Returns m
    → ((a : A) → Returns (f a))
    → Returns (m >>= f)
>>=-Returns (ok a) f h k = k a
>>=-Returns (err e) f h k = tt
>>=-Returns panicked f h k = h
>>=-Returns diverged f h k = h
>>=-Returns blocked f h k = h
