-- ===== src/Dns/Server.antt =====
-- What `lookupMailServer` returns.
use smtprelay.Base.{
  ℕ, ◌%◌, ◌≡◌, ◌≢◌, refl, false, Option, some, List, [], ◌∷◌, ◌++◌, arith, Option-cases, Bool-cases,
  length, get_elem?, Bytes, codes, eqb, inl, inr,
}
use smtprelay.Base.Outcome.{ok, Returns, ◌>>=◌}
use smtprelay.Dns.{Mx, is_local, without_dot, server_of, get_round_element, lookup_mail_server}
use smtprelay.Dns.Round.{get_round_element-mod, get_round_element-nil}

server_of-ok :
    (mx : Mx) {server : Bytes}
    → server_of mx ≡ ok server
    → (is_local (without_dot mx.host) ≡ false)
      × (mx.host ≢ [])
      × (server ≡ without_dot mx.host ++ codes ":25")
unfolding server_of
server_of-ok mx h = ground arith

server_of-Returns : (mx : Mx) → Returns (server_of mx)
unfolding server_of
server_of-Returns mx = ground arith

records_return : (mxs : List Mx) (n : ℕ) → Returns (get_round_element mxs n >>= server_of)
records_return [] n = rw get_round_element-nil tt
records_return (m ∷ mxs) n =
    let (mx, _, chosen) = get_round_element-mod (m ∷ mxs) n (cc) in rw chosen (server_of-Returns mx)

abbrev pub null_mx : ℕ → Mx
null_mx pref = record { host = codes "."; pref = pref }

only_record :
    (pref n : ℕ) (mx : Mx) → get_elem? (null_mx pref ∷ []) (n % 1) ≡ some mx → mx ≡ null_mx pref
only_record pref n mx e = let z : n % 1 ≡ 0 = omega arith in ground (arith, rw z at e)

null_record :
    (pref n : ℕ) → (get_round_element (null_mx pref ∷ []) n >>= server_of) ≡ ok (codes ":25")
unfolding server_of eqb
null_record pref n =
    let (mx, e, chosen) = get_round_element-mod (null_mx pref ∷ []) n (cc) in
    rw (chosen, only_record pref n mx e) refl

module _ (resolve : Bytes → Option (List Mx)) where
  abbrev pub Serves : Bytes → Bytes → ℕ → Type 0
  Serves domain server n =
      (mxs : List Mx) × (mx : Mx) × (resolve domain ≡ some mxs)
      × (get_elem? mxs (n % length mxs) ≡ some mx)
      × (is_local domain ≡ false)
      × (is_local (without_dot mx.host) ≡ false)
      × (server ≡ without_dot mx.host ++ codes ":25")

  from_records :
      (domain server : Bytes) (n : ℕ) (mxs : List Mx)
      → is_local domain ≡ false
      → resolve domain ≡ some mxs
      → (get_round_element mxs n >>= server_of) ≡ ok server
      → Serves domain server n
  from_records domain server n [] remote found h = absurd (ground (arith, get_round_element-nil n))
  from_records domain server n (m ∷ mxs) remote found h =
      let (mx, e, chosen) = get_round_element-mod (m ∷ mxs) n (cc) in
      let (l, _, same) = server_of-ok mx (rw chosen at h) in
      (m ∷ mxs, mx, found, e, remote, l, same)

  -- A server that is found is the host of one of the records of the domain, the one for this
  -- attempt, without its last byte and with the SMTP port; neither the domain nor the host is one of
  -- the texts `localhost` and `127.0.0.1`.
  pub lookup_mail_server-ok :
      (domain server : Bytes) (n : ℕ)
      → lookup_mail_server resolve domain n ≡ ok server
      → Serves domain server n
  unfolding lookup_mail_server
  lookup_mail_server-ok domain server n h = elim (Bool-cases (is_local domain)) [
    | inl local ↦ absurd (ground arith)
    | inr remote ↦ elim (Option-cases (resolve domain)) [
      | inl failed ↦ absurd (ground arith)
      | inr (mxs, found) ↦ from_records domain server n mxs remote found (ground arith)
    ]
  ]

  -- The look-up always ends, and never indexes past the records.
  pub lookup_mail_server-Returns :
      (domain : Bytes) (n : ℕ) → Returns (lookup_mail_server resolve domain n)
  unfolding lookup_mail_server
  lookup_mail_server-Returns domain n = elim (Bool-cases (is_local domain)) [
    | inl local ↦ rw local tt
    | inr remote ↦ elim (Option-cases (resolve domain)) [
      | inl failed ↦ rw (remote, failed) tt
      | inr (mxs, found) ↦ rw (remote, found) (records_return mxs n)
    ]
  ]

  -- A domain whose only record is the null one, a single dot, is given the server ":25".
  pub lookup_mail_server_null :
      (domain : Bytes) (pref n : ℕ)
      → is_local domain ≡ false
      → resolve domain ≡ some (null_mx pref ∷ [])
      → lookup_mail_server resolve domain n ≡ ok (codes ":25")
  unfolding lookup_mail_server
  lookup_mail_server_null domain pref n remote found = rw (remote, found) (null_record pref n)
