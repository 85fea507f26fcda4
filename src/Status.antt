-- ===== src/Status.antt =====
-- status.go: the SMTP status codes, their texts, and the reading of a remote server's answer.
pub mod Answer
use smtprelay.Base.{
  ℕ, ◌*◌, ◌+◌, ◌-◌, ◌/◌, ◌^◌, ℤ, pos, negsuc, quot, sub_ℕ, Bool, true, false, ◌&&◌, Option, none,
  some, List, [], ◌∷◌, ltb, leb, ◌==◌, if◌then◌else◌, Bytes, codes, trim_space, split_n2, length,
}

-- `smtpd.Error`
pub record SmtpError : Type 0 where
  pub code : ℤ
  pub message : Bytes

abbrev pub status_success : ℕ
status_success = 250

abbrev pub status_password_needed : ℕ
status_password_needed = 432

abbrev pub status_message_error : ℕ
status_message_error = 450

abbrev pub status_message_exceed_storage : ℕ
status_message_exceed_storage = 452

abbrev pub status_temp_auth_failure : ℕ
status_temp_auth_failure = 454

abbrev pub status_auth_invalid : ℕ
status_auth_invalid = 535

abbrev pub status_auth_required : ℕ
status_auth_required = 530

abbrev pub status_encryption_required : ℕ
status_encryption_required = 538

abbrev pub status_server_error : ℕ
status_server_error = 550

abbrev pub status_exceed_storage : ℕ
status_exceed_storage = 552

abbrev pub status_domain_not_found : ℕ
status_domain_not_found = 554

abbrev pub status_too_many_recipients : ℕ
status_too_many_recipients = 452

-- The map `statusString`.
status_texts : List (ℕ × Bytes)
status_texts =
    (status_password_needed, codes "4.7.12  A password transition is needed")
    ∷ (status_message_error, codes "Requested mail action not taken")
    ∷ (status_temp_auth_failure, codes "4.7.0  Temporary authentication failure")
    ∷ (status_auth_invalid, codes "5.7.8  Authentication credentials invalid")
    ∷ (status_auth_required, codes "5.7.0  Authentication required")
    ∷ (
      status_encryption_required,
      codes "5.7.11  Encryption required for requested authentication mechanism",
    )
    ∷ (status_server_error, codes "Requested mail action not taken: server error")
    ∷ (status_exceed_storage, codes "Requested mail action aborted: exceeded storage allocation")
    ∷ (status_too_many_recipients, codes "Too many recipients")
    ∷ (status_domain_not_found, codes "Domain not found")
    ∷ (status_success, codes "OK")
    ∷ []

lookup_text : ℕ → List (ℕ × Bytes) → Option Bytes
lookup_text k [] = none
lookup_text k ((j, v) ∷ m) = if j == k then some v else lookup_text k m

pub status_string : ℕ → Bytes
unfolding lookup_text status_texts
status_string status = elim (lookup_text status status_texts) [
  | none ↦ codes "unknown"
  | some s ↦ s
]

-- An error whose text is that of its code.
status_error : ℕ → SmtpError
unfolding status_string
status_error n = record { code = pos n; message = status_string n }

unfoldable pub err_status_success : SmtpError
unfolding status_error
err_status_success = status_error status_success

unfoldable pub err_message_error : SmtpError
unfolding status_error
err_message_error = status_error status_message_error

unfoldable pub err_message_error_unknown : SmtpError
unfolding status_error
err_message_error_unknown = status_error status_message_error

unfoldable pub err_too_many_recipients : SmtpError
unfolding status_error
err_too_many_recipients = status_error status_too_many_recipients

unfoldable pub err_domain_not_found : SmtpError
unfolding status_error
err_domain_not_found = status_error status_domain_not_found

-- The digits of `strconv.Atoi`, with the number that they spell so far.
unfoldable pub digits_value : ℕ → Bytes → Option ℕ
digits_value n [] = some n
digits_value n (c ∷ s) =
    if leb b'0' c && leb c b'9' then digits_value (n * 10 + (c - b'0')) s else none

-- One digit at least.
unfoldable pub unsigned : Bytes → Option ℕ
unfolding digits_value
unsigned [] = none
unsigned (c ∷ s) = digits_value 0 (c ∷ s)

-- The ranges of a 64-bit `int`.
in_range : Bool → Option ℕ → Option ℤ
in_range negative none = none
in_range false (some n) = if ltb n (2 ^ 63) then some (pos n) else none
in_range true (some n) = if leb n (2 ^ 63) then some (sub_ℕ 0 n) else none

-- `strconv.Atoi`: an optional sign, then digits.
pub atoi : Bytes → Option ℤ
unfolding unsigned in_range
atoi [] = none
atoi (c ∷ s) =
    if c == b'-'
    then in_range true (unsigned s)
    else if c == b'+'
    then in_range false (unsigned s)
    else in_range false (unsigned (c ∷ s))

-- `if l := len(parts); l > 0 { … } else { … }` and what follows it.
answer_of : Bytes → List Bytes → SmtpError
answer_of str [] = record { code = pos 450; message = str }
answer_of str (code_text ∷ rest) = elim (atoi code_text) [
  | none ↦ record { code = pos 450; message = str }
  | some n ↦ record { code = n; message = elim rest [ [] ↦ [] | msg ∷ more ↦ msg ] }
]

parse_trimmed : Bytes → SmtpError
unfolding answer_of err_message_error_unknown
parse_trimmed str =
    if ltb (length str) 3 then err_message_error_unknown else answer_of str (split_n2 b' ' str)

unfoldable pub parse_outcoming_error : Bytes → SmtpError
unfolding parse_trimmed trim_space split_n2 atoi
parse_outcoming_error str = parse_trimmed (trim_space str)

-- `smtpError.Code/100 == 5` of sender.go
unfoldable pub is_permanent : SmtpError → Bool
is_permanent e = elim (quot e.code 100) [ pos n ↦ n == 5 | negsuc n ↦ false ]
