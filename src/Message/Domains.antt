-- ===== src/Message/Domains.antt =====
-- The domains that `ParseMessage` counts, and the recipients that `GetDomainRecipientList` gives for
-- each of them.
use smtprelay.Base.{
  ℕ, zero, suc, ◌+◌, ◌≤◌, ◌≡◌, refl, true, List, [], ◌∷◌, ◌++◌, map, arith, ◌==◌, if◌then◌else◌,
  Bytes, eqb, eqb_refl, eqb_iff, equal_fold, to_lower, occurs, occurs-append, occurs-cons, count_if,
  All,
}
use smtprelay.Message.{EmailAddress, bump, add_domains, domain_recipients}

abbrev pub keys : List (Bytes × ℕ) → List Bytes
keys m = map (λ e. e.0) m

-- `m[k]`, which is 0 for a missing key.
pub at : Bytes → List (Bytes × ℕ) → ℕ
at k [] = 0
at k ((j, n) ∷ m) = if eqb j k then n else at k m

-- The recipients of one domain, spelled in this way.
abbrev pub in_domain : Bytes → List EmailAddress → ℕ
in_domain k = count_if (λ a. eqb a.domain k)

eqb_sym : (s t : Bytes) → eqb s t ≡ eqb t s
eqb_sym s t = ground (arith, eqb_iff s t, eqb_iff t s)

at-bump :
    (k j : Bytes) (m : List (Bytes × ℕ)) → at k (bump j m) ≡ at k m + (if eqb j k then 1 else 0)
unfolding at bump
at-bump k j [] = ground arith
at-bump k j ((i, n) ∷ m) = ground (arith, eqb_iff i j, eqb_iff i k, eqb_iff j k, at-bump k j m)

-- Each domain is counted as often as it stands among the recipients.
pub at-add_domains :
    (k : Bytes) (rcpt : List EmailAddress) (m : List (Bytes × ℕ))
    → at k (add_domains rcpt m) ≡ at k m + in_domain k rcpt
unfolding add_domains
at-add_domains k [] m = omega arith
at-add_domains k (a ∷ rcpt) m =
    omega (arith, at-add_domains k rcpt (bump a.domain m), at-bump k a.domain m)

-- 1 for a key that stands in the map, 0 for any other.
abbrev sign : ℕ → ℕ
sign zero = 0
sign (suc n) = 1

occurs-bump :
    (k j : Bytes) (m : List (Bytes × ℕ))
    → occurs k (keys (bump j m))
      ≡ occurs k (keys m) + (if eqb k j then (if occurs j (keys m) == 0 then 1 else 0) else 0)
unfolding occurs bump
occurs-bump k j [] = ground arith
occurs-bump k j ((i, n) ∷ m) =
    ground (arith, eqb_iff i j, eqb_iff k i, eqb_iff k j, eqb_iff j i, occurs-bump k j m)

occurs-add_domains :
    (k : Bytes) (rcpt : List EmailAddress) (m : List (Bytes × ℕ))
    → occurs k (keys m) ≤ 1
    → occurs k (keys (add_domains rcpt m)) ≡ sign (occurs k (keys m) + in_domain k rcpt)
unfolding add_domains
occurs-add_domains k [] m h = ground arith
occurs-add_domains k (a ∷ rcpt) m h = ground (
  arith,
  occurs-add_domains k rcpt (bump a.domain m),
  occurs-bump k a.domain m,
  eqb_iff a.domain k,
  eqb_iff k a.domain,
)

-- The domains of the map are those of the recipients, once each.
pub domains_once :
    (k : Bytes) (rcpt : List EmailAddress)
    → occurs k (keys (add_domains rcpt [])) ≡ (if in_domain k rcpt == 0 then 0 else 1)
unfolding occurs
domains_once k rcpt = ground (arith, occurs-add_domains k rcpt [])

-- The spellings of a domain in a list that `EqualFold` takes for it.
abbrev pub spellings : Bytes → List Bytes → ℕ
spellings x = count_if (λ d. equal_fold d x)

-- The recipient lists of several domains, one after the other.
unfoldable pub all_recipients : List Bytes → List EmailAddress → List Bytes
all_recipients [] rcpt = []
all_recipients (d ∷ ds) rcpt = domain_recipients d rcpt ++ all_recipients ds rcpt

all_recipients-nil : (r : Bytes) (ds : List Bytes) → occurs r (all_recipients ds []) ≡ 0
unfolding all_recipients domain_recipients occurs
all_recipients-nil r [] = refl
all_recipients-nil r (d ∷ ds) = all_recipients-nil r ds

occurs-domain_recipients :
    (r d : Bytes) (a : EmailAddress) (rcpt : List EmailAddress)
    → occurs r (domain_recipients d (a ∷ rcpt))
      ≡ (if equal_fold d a.domain then (if eqb r a.raw_address then 1 else 0) else 0)
        + occurs r (domain_recipients d rcpt)
unfolding domain_recipients occurs
occurs-domain_recipients r d a rcpt = ground arith

occurs-all_recipients :
    (r d : Bytes) (ds : List Bytes) (rcpt : List EmailAddress)
    → occurs r (all_recipients (d ∷ ds) rcpt)
      ≡ occurs r (domain_recipients d rcpt) + occurs r (all_recipients ds rcpt)
unfolding all_recipients
occurs-all_recipients r d ds rcpt =
    occurs-append r (domain_recipients d rcpt) (all_recipients ds rcpt)

-- One more recipient stands once in the list of each spelling of its domain.
pub all_recipients-cons :
    (r : Bytes) (ds : List Bytes) (a : EmailAddress) (rcpt : List EmailAddress)
    → occurs r (all_recipients ds (a ∷ rcpt))
      ≡ (if eqb r a.raw_address then spellings a.domain ds else 0)
        + occurs r (all_recipients ds rcpt)
all_recipients-cons r [] a rcpt = unfold occurs all_recipients in ground arith
all_recipients-cons r (d ∷ ds) a rcpt = ground (
  arith,
  occurs-all_recipients r d ds (a ∷ rcpt),
  occurs-all_recipients r d ds rcpt,
  occurs-domain_recipients r d a rcpt,
  all_recipients-cons r ds a rcpt,
)

-- The texts of the recipients, as they were given.
abbrev pub raw_addresses : List EmailAddress → List Bytes
raw_addresses = map (λ a. a.raw_address)

-- No recipient is left out, if every domain is visited.
pub all_recipients-covers :
    (r : Bytes) (ds : List Bytes) (rcpt : List EmailAddress)
    → All (λ a. 1 ≤ spellings a.domain ds) rcpt
    → occurs r (raw_addresses rcpt) ≤ occurs r (all_recipients ds rcpt)
all_recipients-covers r ds [] h = rw all_recipients-nil (unfold occurs in omega arith)
all_recipients-covers r ds (a ∷ rcpt) h = ground (
  arith,
  occurs-cons r a.raw_address (raw_addresses rcpt),
  all_recipients-cons r ds a rcpt,
  all_recipients-covers r ds rcpt h.1,
)

-- No recipient is repeated, if each domain is visited under one spelling.
pub all_recipients-exact :
    (r : Bytes) (ds : List Bytes) (rcpt : List EmailAddress)
    → All (λ a. spellings a.domain ds ≡ 1) rcpt
    → occurs r (all_recipients ds rcpt) ≡ occurs r (raw_addresses rcpt)
all_recipients-exact r ds [] h = rw all_recipients-nil (unfold occurs in refl)
all_recipients-exact r ds (a ∷ rcpt) h = ground (
  arith,
  occurs-cons r a.raw_address (raw_addresses rcpt),
  all_recipients-cons r ds a rcpt,
  all_recipients-exact r ds rcpt h.1,
)

pub equal_fold_refl : (x : Bytes) → equal_fold x x ≡ true
unfolding equal_fold
equal_fold_refl x = eqb_refl (to_lower x)

pub occurs-le-spellings : (x : Bytes) (ds : List Bytes) → occurs x ds ≤ spellings x ds
unfolding occurs
occurs-le-spellings x [] = omega arith
occurs-le-spellings x (d ∷ ds) =
    ground (arith, eqb_iff x d, equal_fold_refl x, occurs-le-spellings x ds)

-- Where no other spelling stands in the list, they are as many.
pub spellings-eq-occurs :
    (x : Bytes) (ds : List Bytes)
    → ((d : Bytes) → 1 ≤ occurs d ds → equal_fold d x ≡ true → d ≡ x)
    → spellings x ds ≡ occurs x ds
unfolding occurs
spellings-eq-occurs x [] h = refl
spellings-eq-occurs x (d ∷ ds) h = ground (
  arith,
  eqb_iff x d,
  equal_fold_refl x,
  eqb_refl d,
  h d,
  spellings-eq-occurs x ds (λ e p. h e (omega arith)),
)
