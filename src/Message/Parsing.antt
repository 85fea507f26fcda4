-- ===== src/Message/Parsing.antt =====
-- What `ParseMessage` keeps of a message that it accepts.
use smtprelay.Base.{
  ℕ, ◌+◌, ◌≤◌, ◌≡◌, refl, true, false, Option-cases, Bool-cases, inl, inr, List, [], ◌∷◌, arith,
  ◌==◌, if◌then◌else◌, Bytes, codes, split, push_first, length, count_if, some,
}
use smtprelay.Base.Outcome.{Outcome, ok, err, panicked, middle_value}
use smtprelay.Message.{
  EmailAddress, Mail, Msg, MessageError, illegal_address, parse_domain, second_part, parse_address,
  parse_addresses, parse_message, read, add_domains,
}
use smtprelay.Message.Domains.{raw_addresses}

-- The number of `@` in a text.
abbrev pub ats : Bytes → ℕ
ats = count_if (λ c. c == b'@')

length-push_first : (c : ℕ) (ps : List Bytes) → 1 ≤ length ps → length (push_first c ps) ≡ length ps
length-push_first c [] h = absurd (omega arith)
length-push_first c (p ∷ ps) h = refl

pub length-split : (s : Bytes) → length (split b'@' s) ≡ ats s + 1
unfolding split
length-split [] = omega arith
length-split (c ∷ s) = ground (arith, length-split s, length-push_first c (split b'@' s))

split_none : (s : Bytes) → ats s ≡ 0 → split b'@' s ≡ s ∷ []
unfolding split
split_none [] h = refl
split_none (c ∷ s) h = ground (arith, split_none s)

-- What stands behind the first `@`.
abbrev pub behind_at : Bytes → Bytes
behind_at [] = []
behind_at (c ∷ s) = if c == b'@' then s else behind_at s

split_at :
    (c : ℕ) (s : Bytes)
    → (c == b'@') ≡ true
    → split b'@' s ≡ s ∷ []
    → split b'@' (c ∷ s) ≡ [] ∷ behind_at (c ∷ s) ∷ []
unfolding split
split_at c s at cut = ground (arith, cut)

split_other :
    (c : ℕ) (s p : Bytes)
    → (c == b'@') ≡ false
    → split b'@' s ≡ p ∷ behind_at s ∷ []
    → split b'@' (c ∷ s) ≡ (c ∷ p) ∷ behind_at (c ∷ s) ∷ []
unfolding split
split_other c s p other cut = ground (arith, cut)

split_one : (s : Bytes) → ats s ≡ 1 → (p : Bytes) × (split b'@' s ≡ p ∷ behind_at s ∷ [])
split_one [] h = absurd (omega arith)
split_one (c ∷ s) h = elim (Bool-cases (c == b'@')) [
  | inl at ↦ ([], split_at c s at (split_none s (ground arith)))
  | inr other ↦ let (p, cut) = split_one s (ground arith) in (c ∷ p, split_other c s p other cut)
]

-- With exactly one `@` the domain is the text behind it; with more of them the address is refused;
-- with none the call panics.
pub parse_domain_lem :
    (addr : Bytes)
    → parse_domain addr ≡ (
        if ats addr == 0
        then panicked
        else if ats addr == 1
        then ok (behind_at addr)
        else err (illegal_address addr))
unfolding parse_domain second_part
parse_domain_lem addr = elim (Bool-cases (ats addr == 0)) [
  | inl bare ↦ rw (bare, split_none addr (ground arith)) refl
  | inr some_at ↦ elim (Bool-cases (ats addr == 1)) [
    | inl one ↦ let (p, cut) = split_one addr (ground arith) in rw (some_at, one, cut) refl
    | inr many ↦ ground (arith, length-split addr)
  ]
]

abbrev made_address : Bytes → Bytes → Bytes → Bytes → Outcome MessageError EmailAddress
made_address raw name addr d =
    ok (record { raw_address = raw; address = addr; alias = name; domain = d })

module _ (mail : Mail) where
  parse_address-ok :
      (raw : Bytes) {a : EmailAddress}
      → parse_address mail raw ≡ ok a
      → (a.raw_address ≡ raw) × (parse_domain a.address ≡ ok a.domain)
  unfolding parse_address
  parse_address-ok raw h = elim (Option-cases (mail.read_address raw)) [
    | inl refused ↦ absurd (ground arith)
    | inr ((name, addr), found) ↦
        let (d, parsed, made) =
          middle_value (parse_domain addr) (made_address raw name addr)
            (rw (found, parse_address) at h) in
        ground arith
  ]

  parse_addresses-ok :
      (raws : List Bytes) {rcpt : List EmailAddress}
      → parse_addresses mail raws ≡ ok rcpt
      → raw_addresses rcpt ≡ raws
  unfolding parse_addresses
  parse_addresses-ok [] h = ground arith
  parse_addresses-ok (r ∷ raws) h =
      let (a, first, more) = middle_value (parse_address mail r) _ h in
      let (rest, others, made) = middle_value (parse_addresses mail raws) _ more in
      let same : raw_addresses rest ≡ raws = parse_addresses-ok raws others in
      ground (arith, parse_address-ok r first)

  -- A message that is accepted has the recipients that were given, in their order, the sender that
  -- was given, the domains of those recipients, and the identifier of its header or else the fresh
  -- one.
  pub parse_message-ok :
      (id : Bytes) (recipients : List Bytes) (sender body : Bytes) {msg : Msg}
      → parse_message mail id recipients sender body ≡ ok msg
      → (raw_addresses msg.rcpt ≡ recipients)
        × (msg.sender.raw_address ≡ sender)
        × (parse_domain msg.sender.address ≡ ok msg.sender.domain)
        × (msg.rcpt_domains ≡ add_domains msg.rcpt [])
        × (mail.read_message body ≡ some msg.message)
        × (msg.message_id ≡ (
            let given = msg.message.get (codes "message-id") in
            if length given == 0 then id else given))
  unfolding parse_message read
  parse_message-ok id recipients sender body h =
      let (from, first, more) = middle_value (parse_address mail sender) _ h in
      let (rcpt, others, rest) = middle_value (parse_addresses mail recipients) _ more in
      elim (Option-cases (mail.read_message body)) [
        | inl refused ↦ absurd (ground arith)
        | inr (m, found) ↦
            ground (arith, parse_addresses-ok recipients others, parse_address-ok sender first)
      ]
