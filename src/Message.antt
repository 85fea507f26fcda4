-- ===== src/Message.antt =====
-- message.go: the addresses, the domains and the identifier of a message.
pub mod Domains
pub mod Parsing
pub mod Ending
pub mod Spelling
use smtprelay.Base.{
  ℕ, suc, ◌+◌, Bool, true, false, Option, none, some, List, [], ◌∷◌, ◌++◌, map, ◌==◌, ltb,
  if◌then◌else◌, Bytes, codes, eqb, equal_fold, split, length,
}
use smtprelay.Base.Outcome.{Outcome, ok, err, panicked, ◌>>=◌}

pub record EmailAddress : Type 0 where
  pub raw_address : Bytes
  pub address : Bytes
  pub alias : Bytes
  pub domain : Bytes

-- `mail.Message`, by its `Header.Get`.
pub record MailMessage : Type 0 where
  pub get : Bytes → Bytes

-- What the program uses of `net/mail`: `ParseAddress`, which gives a name and an address, and
-- `ReadMessage`.
pub record Mail : Type 0 where
  pub read_address : Bytes → Option (Bytes × Bytes)
  pub read_message : Bytes → Option MailMessage

pub record Msg : Type 0 where
  pub rcpt : List EmailAddress
  pub sender : EmailAddress
  pub rcpt_domains : List (Bytes × ℕ)
  pub message_id : Bytes
  pub message : MailMessage

pub data MessageError : Type 0 where
  malformed_address illegal_address : Bytes → MessageError
  malformed_message : MessageError

-- `parts[1]`
second_part : List Bytes → Outcome MessageError Bytes
second_part [] = panicked
second_part (p ∷ []) = panicked
second_part (p ∷ q ∷ ps) = ok q

-- An address with no `@` passes the guard, and the index panics.
unfoldable pub parse_domain : Bytes → Outcome MessageError Bytes
unfolding split second_part
parse_domain addr =
    let parts = split b'@' addr in
    if length parts == 0
    then err (illegal_address addr)
    else if ltb 2 (length parts)
    then err (illegal_address addr)
    else second_part parts

-- `m[k] = m[k] + 1` on `map[string]int`
unfoldable pub bump : Bytes → List (Bytes × ℕ) → List (Bytes × ℕ)
bump k [] = (k, 1) ∷ []
bump k ((j, n) ∷ m) = if eqb j k then (j, n + 1) ∷ m else (j, n) ∷ bump k m

-- `for _, d := range msg.Rcpt { … }`
unfoldable pub add_domains : List EmailAddress → List (Bytes × ℕ) → List (Bytes × ℕ)
unfolding bump
add_domains [] m = m
add_domains (a ∷ rcpt) m = add_domains rcpt (bump a.domain m)

unfoldable pub domains : Msg → List Bytes
domains msg = map (λ e. e.0) msg.rcpt_domains

-- `GetDomainRecipientList`
unfoldable pub domain_recipients : Bytes → List EmailAddress → List Bytes
unfolding equal_fold
domain_recipients domain [] = []
domain_recipients domain (a ∷ rcpt) =
    let rest = domain_recipients domain rcpt in
    if equal_fold domain a.domain then a.raw_address ∷ rest else rest

unfoldable pub get_domain_recipient_list : Msg → Bytes → List Bytes
unfolding domain_recipients
get_domain_recipient_list msg domain = domain_recipients domain msg.rcpt

module _ (mail : Mail) where
  unfoldable pub parse_address : Bytes → Outcome MessageError EmailAddress
  parse_address raw = elim (mail.read_address raw) [
    | none ↦ err (malformed_address raw)
    | some (name, addr) ↦ do
      domain ← parse_domain addr
      ok (record { raw_address = raw; address = addr; alias = name; domain = domain })
  ]

  -- `for _, rcpt := range recipients { … }`
  unfoldable pub parse_addresses : List Bytes → Outcome MessageError (List EmailAddress)
  parse_addresses [] = ok []
  parse_addresses (r ∷ rs) = do a ← parse_address r; rest ← parse_addresses rs; ok (a ∷ rest)

  read : Bytes → Outcome MessageError MailMessage
  read body = elim (mail.read_message body) [ none ↦ err malformed_message | some m ↦ ok m ]

  -- `id` is what `uuid.NewV4().String()` gives, if it is called.
  unfoldable pub parse_message : Bytes → List Bytes → Bytes → Bytes → Outcome MessageError Msg
  unfolding read
  parse_message id recipients sender body = do
    from ← parse_address sender
    rcpt ← parse_addresses recipients
    m ← read body
    let given = m.get (codes "message-id")
    ok (record {
      rcpt = rcpt;
      sender = from;
      rcpt_domains = add_domains rcpt [];
      message_id = if length given == 0 then id else given;
      message = m;
    })
