-- ===== src/Message/Spelling.antt =====
-- How many spellings of a recipient's domain are visited. The map `RcptDomains` tells spellings apart
-- that `GetDomainRecipientList` takes for one.
use smtprelay.Base.{
  ◌+◌, ◌≤◌, ◌<◌, ◌≡◌, ◌≢◌, ◌∙◌, true, List, [], ◌∷◌, ◌++◌, arith, append_assoc, ◌==◌, if◌then◌else◌,
  Bytes, eqb, eqb_iff, eqb_refl, equal_fold, occurs, occurs-cons, count_if-append, All,
}
use smtprelay.Message.{EmailAddress, add_domains}
use smtprelay.Message.Domains.{
  keys, in_domain, domains_once, spellings, occurs-le-spellings, spellings-eq-occurs,
  equal_fold_refl, all_recipients-cons, all_recipients, raw_addresses, all_recipients-covers,
  all_recipients-exact,
}

All-map {ℓ κ μ} :
    {A : Type ℓ} {P : A → Type κ} {Q : A → Type μ} (xs : List A)
    → ((x : A) → P x → Q x)
    → All P xs
    → All Q xs
All-map [] f h = tt
All-map (x ∷ xs) f h = (f x h.0, All-map xs f h.1)

All-both {ℓ κ μ} :
    {A : Type ℓ} (P : A → Type κ) (Q : A → Type μ) (xs : List A)
    → All P xs
    → All Q xs
    → All (λ x. P x × Q x) xs
All-both P Q [] h k = tt
All-both P Q (x ∷ xs) h k = ((h.0, k.0), All-both P Q xs h.1 k.1)

self_in_from :
    (before after : List EmailAddress) → All (λ a. 1 ≤ in_domain a.domain (before ++ after)) after
self_in_from before [] = tt
self_in_from before (a ∷ after) = (
  ground
      (arith, count_if-append (λ b. eqb b.domain a.domain) before (a ∷ after), eqb_refl a.domain),
  rw append_assoc at (self_in_from (before ++ a ∷ []) after),
)

-- Every recipient is a recipient of its domain.
self_in : (rcpt : List EmailAddress) → All (λ a. 1 ≤ in_domain a.domain rcpt) rcpt
self_in rcpt = self_in_from [] rcpt

-- Domains of recipients that `EqualFold` takes for one are spelled alike.
abbrev pub OneSpelling : List EmailAddress → Type 0
OneSpelling rcpt =
    All (λ a. All (λ b. equal_fold b.domain a.domain ≡ true → b.domain ≡ a.domain) rcpt) rcpt

from_domain :
    (d x : Bytes) (rcpt : List EmailAddress)
    → All (λ b. equal_fold b.domain x ≡ true → b.domain ≡ x) rcpt
    → 1 ≤ in_domain d rcpt
    → equal_fold d x ≡ true
    → d ≡ x
from_domain d x [] h p e = absurd (omega arith)
from_domain d x (a ∷ rcpt) h p e = ground (arith, eqb_iff a.domain d, from_domain d x rcpt h.1)

module _ (ds : List Bytes) (rcpt : List EmailAddress)
    (visited : (k : Bytes) → occurs k ds ≡ occurs k (keys (add_domains rcpt []))) where
  occurs-visited : (k : Bytes) → occurs k ds ≡ (if in_domain k rcpt == 0 then 0 else 1)
  occurs-visited k = visited k ∙ domains_once k rcpt

  spelled : All (λ a. 1 ≤ spellings a.domain ds) rcpt
  spelled =
      All-map rcpt (λ a h. ground (arith, occurs-visited a.domain, occurs-le-spellings a.domain ds))
        (self_in rcpt)

  -- A visit of all domains of the message leaves no recipient out.
  pub visit-covers : (r : Bytes) → occurs r (raw_addresses rcpt) ≤ occurs r (all_recipients ds rcpt)
  visit-covers r = all_recipients-covers r ds rcpt spelled

  one_spelling :
      (a : EmailAddress)
      → 1 ≤ in_domain a.domain rcpt
      → All (λ b. equal_fold b.domain a.domain ≡ true → b.domain ≡ a.domain) rcpt
      → spellings a.domain ds ≡ 1
  one_spelling a h k =
      let own : spellings a.domain ds ≡ occurs a.domain ds =
        spellings-eq-occurs a.domain ds
          (λ d p e. from_domain d a.domain rcpt k (ground (arith, occurs-visited d)) e) in
      ground (arith, own, occurs-visited a.domain)

  -- It names every recipient exactly as often as the message does, if each domain has one spelling.
  pub visit-exact :
      OneSpelling rcpt
      → (r : Bytes) → occurs r (all_recipients ds rcpt) ≡ occurs r (raw_addresses rcpt)
  visit-exact h r =
      all_recipients-exact r ds rcpt
        (All-map rcpt (λ a p. one_spelling a p.0 p.1) (All-both _ _ rcpt (self_in rcpt) h))

two_spellings :
    (x d : Bytes) (ds : List Bytes)
    → d ≢ x
    → equal_fold d x ≡ true
    → occurs x ds + occurs d ds ≤ spellings x ds
unfolding occurs
two_spellings x d [] ne e = omega arith
two_spellings x d (k ∷ ds) ne e =
    ground (arith, eqb_iff x k, eqb_iff d k, equal_fold_refl x, two_spellings x d ds)

-- A visit names the first recipient more often than the message does, if the second one has the same
-- domain in another spelling.
pub visit-repeats :
    (ds : List Bytes) (a b : EmailAddress) (rcpt : List EmailAddress)
    → ((k : Bytes) → occurs k ds ≡ occurs k (keys (add_domains (a ∷ b ∷ rcpt) [])))
    → b.domain ≢ a.domain
    → equal_fold b.domain a.domain ≡ true
    → occurs a.raw_address (raw_addresses (a ∷ b ∷ rcpt))
      < occurs a.raw_address (all_recipients ds (a ∷ b ∷ rcpt))
visit-repeats ds a b rcpt visited ne e =
    let r = a.raw_address in
    let all = a ∷ b ∷ rcpt in
    let seen = self_in all in
    ground (
      arith,
      two_spellings a.domain b.domain ds ne e,
      occurs-visited ds all visited a.domain,
      occurs-visited ds all visited b.domain,
      seen.0,
      seen.1.0,
      all_recipients-cons r ds a (b ∷ rcpt),
      all_recipients-covers r ds (b ∷ rcpt) (spelled ds all visited).1,
      occurs-cons r r (raw_addresses (b ∷ rcpt)),
      eqb_refl r,
    )
