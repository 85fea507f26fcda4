-- ===== src/Dns.antt =====
-- dns.go: the choice of a mail server among the MX records of a domain.
pub mod Round
pub mod Server
use smtprelay.Base.{
  ℕ, zero, suc, ◌-◌, Bool, true, false, ◌||◌, Option, none, some, List, [], ◌∷◌, ◌++◌, leb, ◌==◌,
  if◌then◌else◌, length, get_elem?, take, Bytes, codes, eqb,
}
use smtprelay.Base.Outcome.{Outcome, ok, err, panicked, diverged, ◌>>=◌}

-- `net.MX`
pub record Mx : Type 0 where
  pub host : Bytes
  pub pref : ℕ

-- The errors of `lookupMailServer`, by their texts.
pub data MxError : Type 0 where
  invalid_domain lookup_failed not_found incorrect_record invalid_record : MxError

-- `for errorCount >= l { errorCount = errorCount - l }`; `none` means that the fuel ran out.
reduce : ℕ → ℕ → ℕ → Option ℕ
reduce zero l n = none
reduce (suc fuel) l n = let rest = reduce fuel l (n - l) in if leb l n then rest else some n

-- `*mxList[i]`
abbrev pub index_mx : List Mx → ℕ → Outcome MxError Mx
index_mx mxs i = elim (get_elem? mxs i) [ none ↦ panicked | some mx ↦ ok mx ]

unfoldable pub get_round_element : List Mx → ℕ → Outcome MxError Mx
unfolding reduce
get_round_element mxs error_count =
    if length mxs == 0
    then err not_found
    else elim (reduce (suc error_count) (length mxs) error_count) [
      | none ↦ diverged
      | some i ↦ index_mx mxs i
    ]

-- `s == "localhost" || s == "127.0.0.1"`
unfoldable pub is_local : Bytes → Bool
is_local s = eqb s (codes "localhost") || eqb s (codes "127.0.0.1")

-- `host[:len(host)-1]`, of a host that is not empty
abbrev pub without_dot : Bytes → Bytes
without_dot host = take (length host - 1) host

-- What `lookupMailServer` makes of the record that was chosen.
server_of : Mx → Outcome MxError Bytes
unfolding is_local
server_of mx =
    if length mx.host == 0
    then err incorrect_record
    else if is_local (without_dot mx.host)
    then err invalid_record
    else ok (without_dot mx.host ++ codes ":25")

-- `resolve` stands for `net.LookupMX`.
unfoldable pub lookup_mail_server : (Bytes → Option (List Mx)) → Bytes → ℕ → Outcome MxError Bytes
unfolding is_local get_round_element server_of
lookup_mail_server resolve domain error_count =
    if is_local domain then err invalid_domain else elim (resolve domain) [
      | none ↦ err lookup_failed
      | some mxs ↦ get_round_element mxs error_count >>= server_of
    ]
