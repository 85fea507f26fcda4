-- ===== src/Base/Text.antt =====
-- Texts as lists of bytes: what the program uses of Go's `strings` and `bytes`. Letter case and
-- white space are those of ASCII.
use Prim.Native.Nat.{ℕ, ◌+◌, ◌-◌}
use Prim.Native.Char.{code}
use Prim.Native.String.{String}
use mathlib.Core.Path.{◌≡◌, refl}
use mathlib.Core.Logic.{◌↔◌}
use mathlib.Core.Bool.{Bool, true, false, ◌&&◌, ◌||◌}
use mathlib.Core.List.{List, [], ◌∷◌, ◌++◌, map, reverse}
use native.Mathlib.Omega.{arith}
use smtprelay.Base.Tests.{leb, ◌==◌, if◌then◌else◌}

abbrev pub Bytes : Type 0
Bytes = List ℕ

-- The bytes of an ASCII literal.
abbrev pub codes : String → Bytes
codes String.[] = []
codes (String.◌∷◌ c s) = code c ∷ codes s

-- `a == b` on strings.
unfoldable pub eqb : Bytes → Bytes → Bool
eqb [] [] = true
eqb [] (c ∷ t) = false
eqb (c ∷ s) [] = false
eqb (c ∷ s) (d ∷ t) = c == d && eqb s t

pub eqb→eq : (s t : Bytes) → eqb s t ≡ true → s ≡ t
unfolding eqb
eqb→eq [] [] h = refl
eqb→eq [] (d ∷ t) h = cc
eqb→eq (c ∷ s) [] h = cc
eqb→eq (c ∷ s) (d ∷ t) h = ground (arith, eqb→eq s t)

pub eqb_refl : (s : Bytes) → eqb s s ≡ true
unfolding eqb
eqb_refl [] = refl
eqb_refl (c ∷ s) = ground (arith, eqb_refl s)

pub eqb_iff : (s t : Bytes) → (eqb s t ≡ true) ↔ (s ≡ t)
eqb_iff s t = (eqb→eq s t, λ e. rw e (eqb_refl t))

-- How often a text stands in a list.
unfoldable pub occurs : Bytes → List Bytes → ℕ
occurs s [] = 0
occurs s (t ∷ ts) = (if eqb s t then 1 else 0) + occurs s ts

pub occurs-append :
    (s : Bytes) (ts us : List Bytes) → occurs s (ts ++ us) ≡ occurs s ts + occurs s us
unfolding occurs
occurs-append s [] us = omega arith
occurs-append s (t ∷ ts) us = omega (arith, occurs-append s ts us)

pub occurs-cons :
    (s t : Bytes) (ts : List Bytes) → occurs s (t ∷ ts) ≡ (if eqb s t then 1 else 0) + occurs s ts
unfolding occurs
occurs-cons s t ts = refl

abbrev lower : ℕ → ℕ
lower c = if leb b'A' c && leb c b'Z' then c + 32 else c

-- `strings.ToLower`
unfoldable pub to_lower : Bytes → Bytes
to_lower s = map lower s

-- `strings.EqualFold`
unfoldable pub equal_fold : Bytes → Bytes → Bool
unfolding eqb to_lower
equal_fold s t = eqb (to_lower s) (to_lower t)

abbrev upper : ℕ → ℕ
upper c = if leb b'a' c && leb c b'z' then c - 32 else c

-- `strings.ToUpper`
unfoldable pub to_upper : Bytes → Bytes
to_upper s = map upper s

-- `asciiSpace`: tab, newline, vertical tab, form feed, carriage return and space.
abbrev pub is_space : ℕ → Bool
is_space c = (leb 9 c && leb c 13) || c == 32

unfoldable pub trim_left : Bytes → Bytes
trim_left [] = []
trim_left (c ∷ s) = if is_space c then trim_left s else c ∷ s

-- `strings.TrimSpace`
unfoldable pub trim_space : Bytes → Bytes
unfolding trim_left
trim_space s = reverse (trim_left (reverse (trim_left s)))

-- Puts a byte in front of the first part.
abbrev pub push_first : ℕ → List Bytes → List Bytes
push_first c [] = (c ∷ []) ∷ []
push_first c (p ∷ ps) = (c ∷ p) ∷ ps

-- `strings.Split` by a separator of one byte: there is always a part.
unfoldable pub split : ℕ → Bytes → List Bytes
split sep [] = [] ∷ []
split sep (c ∷ s) = elim (c == sep) [ true ↦ [] ∷ split sep s | false ↦ push_first c (split sep s) ]

-- `strings.SplitN(s, sep, 2)`: at the first separator, if there is one.
unfoldable pub split_n2 : ℕ → Bytes → List Bytes
split_n2 sep [] = [] ∷ []
split_n2 sep (c ∷ s) = elim (c == sep) [
  | true ↦ [] ∷ s ∷ []
  | false ↦ push_first c (split_n2 sep s)
]

-- `strings.Fields`: the words between white space. `in_word` tells whether the byte before was one of
-- a word.
unfoldable pub words_from : Bool → Bytes → List Bytes
words_from in_word [] = if in_word then [] ∷ [] else []
words_from in_word (c ∷ s) =
    let closed = words_from false s in
    let inside = words_from true s in
    if is_space c then (if in_word then [] ∷ closed else closed) else push_first c inside

unfoldable pub fields : Bytes → List Bytes
unfolding words_from
fields s = words_from false s
