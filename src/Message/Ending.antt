-- ===== src/Message/Ending.antt =====
-- `ParseMessage` always ends, and panics only at an address with no `@`.
use smtprelay.Base.{
  ◌≤◌, ◌≡◌, inl, inr, some, List, [], ◌∷◌, arith, Bytes, Option-cases, split, length,
}
use smtprelay.Base.Outcome.{Halts, Returns, >>=-Halts, >>=-Returns}
use smtprelay.Message.{
  Mail, second_part, parse_domain, parse_address, parse_addresses, read, parse_message,
}
use smtprelay.Message.Parsing.{ats, length-split}

second_part-Halts : (ps : List Bytes) → Halts (second_part ps)
unfolding second_part
second_part-Halts [] = tt
second_part-Halts (p ∷ []) = tt
second_part-Halts (p ∷ q ∷ ps) = tt

second_part-Returns : (ps : List Bytes) → 2 ≤ length ps → Returns (second_part ps)
unfolding second_part
second_part-Returns [] h = absurd (omega arith)
second_part-Returns (p ∷ []) h = absurd (omega arith)
second_part-Returns (p ∷ q ∷ ps) h = tt

parse_domain-Halts : (addr : Bytes) → Halts (parse_domain addr)
unfolding parse_domain
parse_domain-Halts addr = ground (arith, second_part-Halts (split b'@' addr))

parse_domain-Returns : (addr : Bytes) → 1 ≤ ats addr → Returns (parse_domain addr)
unfolding parse_domain
parse_domain-Returns addr h =
    ground (arith, length-split addr, second_part-Returns (split b'@' addr))

module _ (mail : Mail) where
  parse_address-Halts : (raw : Bytes) → Halts (parse_address mail raw)
  unfolding parse_address
  parse_address-Halts raw = elim (Option-cases (mail.read_address raw)) [
    | inl refused ↦ rw (refused, parse_address) tt
    | inr ((name, addr), found) ↦
        rw (found, parse_address)
          (>>=-Halts (parse_domain addr) _ (parse_domain-Halts addr) (λ d. tt))
  ]

  parse_addresses-Halts : (raws : List Bytes) → Halts (parse_addresses mail raws)
  unfolding parse_addresses
  parse_addresses-Halts [] = tt
  parse_addresses-Halts (r ∷ raws) =
      >>=-Halts (parse_address mail r) _ (parse_address-Halts r)
        λ a. >>=-Halts (parse_addresses mail raws) _ (parse_addresses-Halts raws) (λ rest. tt)

  read-Returns : (body : Bytes) → Returns (read mail body)
  unfolding read
  read-Returns body = ground arith

  read-Halts : (body : Bytes) → Halts (read mail body)
  unfolding read
  read-Halts body = ground arith

  pub parse_message-Halts :
      (id : Bytes) (recipients : List Bytes) (sender body : Bytes)
      → Halts (parse_message mail id recipients sender body)
  unfolding parse_message
  parse_message-Halts id recipients sender body =
      >>=-Halts (parse_address mail sender) _ (parse_address-Halts sender) λ from.
        >>=-Halts (parse_addresses mail recipients) _ (parse_addresses-Halts recipients)
          λ rcpt. >>=-Halts (read mail body) _ (read-Halts body) (λ m. tt)

  module _
      (has_at : (raw name addr : Bytes)
        → mail.read_address raw ≡ some (name, addr)
        → 1 ≤ ats addr) where
    parse_address-Returns : (raw : Bytes) → Returns (parse_address mail raw)
    unfolding parse_address
    parse_address-Returns raw = elim (Option-cases (mail.read_address raw)) [
      | inl refused ↦ rw (refused, parse_address) tt
      | inr ((name, addr), found) ↦
          rw (found, parse_address)
            (>>=-Returns (parse_domain addr) _
              (parse_domain-Returns addr (has_at raw name addr found)) (λ d. tt))
    ]

    parse_addresses-Returns : (raws : List Bytes) → Returns (parse_addresses mail raws)
    unfolding parse_addresses
    parse_addresses-Returns [] = tt
    parse_addresses-Returns (r ∷ raws) =
        >>=-Returns (parse_address mail r) _ (parse_address-Returns r)
          λ a. >>=-Returns (parse_addresses mail raws) _ (parse_addresses-Returns raws) (λ rest. tt)

    -- If the addresses that `mail.ParseAddress` gives hold an `@`, as it documents, `ParseMessage` comes
    -- back with a message or with an error, and does not panic.
    pub parse_message-Returns :
        (id : Bytes) (recipients : List Bytes) (sender body : Bytes)
        → Returns (parse_message mail id recipients sender body)
    unfolding parse_message
    parse_message-Returns id recipients sender body =
        >>=-Returns (parse_address mail sender) _ (parse_address-Returns sender) λ from.
          >>=-Returns (parse_addresses mail recipients) _ (parse_addresses-Returns recipients)
            λ rcpt. >>=-Returns (read mail body) _ (read-Returns body) (λ m. tt)
