-- ===== src/Smtpd/Command/Address.antt =====
-- `parseAddress` of smtpd/address.go takes exactly the bracketed texts.
use smtprelay.Base.{
  ℕ, ◌≤◌, ◌≡◌, ◌↔◌, refl, some, [], ◌∷◌, ◌++◌, arith, Bytes, length, take, ap, length-append,
}
use smtprelay.Message.Parsing.{ats}
use smtprelay.Smtpd.Command.{parse_address, last_byte}

last_byte-append : (c d : ℕ) (s : Bytes) → last_byte c (s ++ d ∷ []) ≡ d
last_byte-append c d [] = refl
last_byte-append c d (e ∷ s) = last_byte-append e d s

-- A text ends with its last byte.
take-last : (c : ℕ) (s : Bytes) → take (length s) (c ∷ s) ++ last_byte c s ∷ [] ≡ c ∷ s
take-last c [] = refl
take-last c (d ∷ s) = ap (λ t. c ∷ t) (take-last d s)

take-append : (s t : Bytes) → take (length s) (s ++ t) ≡ s
take-append [] t = refl
take-append (c ∷ s) t = ap (λ u. c ∷ u) (take-append s t)

-- The text between the brackets of `c ∷ d ∷ s`.
bracketed :
    (c d : ℕ) (s a : Bytes)
    → parse_address (c ∷ d ∷ s) ≡ some a
    → ((c ∷ d ∷ s) ≡ (b'<' ∷ a ++ b'>' ∷ [])) × (ats (c ∷ d ∷ s) ≤ 1)
unfolding parse_address
bracketed c d s a run = ground (arith, take-last d s)

-- A text is taken for an address exactly when it stands in angle brackets and has at most one `@`; the
-- address is what stands between them.
pub parse_address_lem :
    (src a : Bytes)
    → (parse_address src ≡ some a) ↔ ((src ≡ (b'<' ∷ a ++ b'>' ∷ [])) × (ats src ≤ 1))
unfolding parse_address
parse_address_lem src a = (taken src, λ h. given h)
  where
    taken : (t : Bytes) → parse_address t ≡ some a → (t ≡ (b'<' ∷ a ++ b'>' ∷ [])) × (ats t ≤ 1)
    taken [] run = cc
    taken (c ∷ []) run = ground arith
    taken (c ∷ d ∷ s) run = bracketed c d s a run

    given : ((src ≡ (b'<' ∷ a ++ b'>' ∷ [])) × (ats src ≤ 1)) → parse_address src ≡ some a
    given (e, few) =
        let h : ats (b'<' ∷ a ++ b'>' ∷ []) ≤ 1 = rw e at few in
        rw e (
          ground (
            arith,
            h,
            last_byte-append b'<' b'>' a,
            take-append a (b'>' ∷ []),
            length-append a (b'>' ∷ []),
          ))
