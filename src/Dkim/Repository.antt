-- ===== src/Dkim/Repository.antt =====
-- The repository holds each key under its own domain, and a message is signed with the key of its
-- sender's domain or not at all.
use smtprelay.Base.{
  ◌≡◌, ◌≢◌, refl, inl, inr, true, Option, none, some, List, [], ◌∷◌, arith, All, Option-cases,
  Bytes, eqb_iff,
}
use smtprelay.Dkim.{
  DkimLibrary, Key, KeyDir, normalise_lines, find_key, put_key, load_key, add_key, load_keys,
  dkim_load_key_repository, sign_with, dkim_sign,
}

module _ {C S : Type 0} (lib : DkimLibrary C S) where
  abbrev pub WellKeyed : List (Bytes × Key C S) → Type 0
  WellKeyed repo = All (λ e. e.0 ≡ e.1.domain) repo

  put_key-WellKeyed :
      (key : Key C S) (m : List (Bytes × Key C S)) → WellKeyed m → WellKeyed (put_key lib key m)
  unfolding put_key
  put_key-WellKeyed key [] h = (refl, tt)
  put_key-WellKeyed key ((j, v) ∷ m) h = ground (arith, put_key-WellKeyed key m h.1)

  add_key-WellKeyed :
      (o : Option (Key C S)) (m : List (Bytes × Key C S))
      → WellKeyed m
      → WellKeyed (add_key lib o m)
  add_key-WellKeyed none m h = h
  add_key-WellKeyed (some key) m h = put_key-WellKeyed key m h

  load_keys-WellKeyed :
      (dir : KeyDir) (names : List Bytes) (m : List (Bytes × Key C S))
      → WellKeyed m
      → WellKeyed (load_keys lib dir names m)
  unfolding load_keys
  load_keys-WellKeyed dir [] m h = h
  load_keys-WellKeyed dir (name ∷ names) m h =
      load_keys-WellKeyed dir names (add_key lib (load_key lib dir name) m)
        (add_key-WellKeyed (load_key lib dir name) m h)

  find_key-domain :
      (k : Bytes) (m : List (Bytes × Key C S)) (key : Key C S)
      → WellKeyed m
      → find_key lib k m ≡ some key
      → key.domain ≡ k
  unfolding find_key
  find_key-domain k [] key h f = absurd (ground arith)
  find_key-domain k ((j, v) ∷ m) key h f = ground (arith, eqb_iff j k, find_key-domain k m key h.1)

  signed_by_key :
      (body : Bytes) (key : Key C S) {text : Bytes}
      → sign_with lib body key ≡ (text, true)
      → (conf : C) × (key.domain ≢ [])
        × (lib.new_conf key.domain key.selector ≡ some conf)
        × (lib.sign (lib.with_conf key.signer conf) (normalise_lines body) ≡ some text)
  signed_by_key body key h = elim (Option-cases (lib.new_conf key.domain key.selector)) [
    | inl refused ↦ absurd (ground arith)
    | inr (conf, given) ↦
        elim (Option-cases (lib.sign (lib.with_conf key.signer conf) (normalise_lines body))) [
          | inl failed ↦ absurd (ground arith)
          | inr (text', signed) ↦ (conf, ground arith, given, ground arith)
        ]
  ]

  loaded_WellKeyed :
      (dir : KeyDir) (repo : List (Bytes × Key C S))
      → dkim_load_key_repository lib dir ≡ some repo
      → WellKeyed repo
  unfolding dkim_load_key_repository
  loaded_WellKeyed dir repo h = elim (Option-cases dir.names) [
    | inl unread ↦ absurd (ground arith)
    | inr (names, listed) ↦
        let same : load_keys lib dir names [] ≡ repo = ground arith in
        rw same at (load_keys-WellKeyed dir names [] tt)
  ]

  found_signs :
      (repo : List (Bytes × Key C S)) (body domain : Bytes) (key : Key C S)
      → find_key lib domain repo ≡ some key
      → dkim_sign lib repo body domain ≡ sign_with lib body key
  unfolding dkim_sign
  found_signs repo body domain key found = rw (found, dkim_sign) refl

  -- With the repository that was loaded from a directory, a text that is returned as signed was signed
  -- by the key of that very domain, under a configuration for its domain and selector, after its lines
  -- were normalised; the domain is not empty.
  pub dkim_sign_lem :
      (dir : KeyDir) (repo : List (Bytes × Key C S)) (body domain text : Bytes)
      → dkim_load_key_repository lib dir ≡ some repo
      → dkim_sign lib repo body domain ≡ (text, true)
      → (key : Key C S) × (conf : C) × (find_key lib domain repo ≡ some key)
        × (key.domain ≡ domain)
        × (domain ≢ [])
        × (lib.new_conf domain key.selector ≡ some conf)
        × (lib.sign (lib.with_conf key.signer conf) (normalise_lines body) ≡ some text)
  dkim_sign_lem dir repo body domain text loaded h =
      elim (Option-cases (find_key lib domain repo)) [
        | inl missing ↦ absurd (unfold dkim_sign in ground arith)
        | inr (key, found) ↦
            let same : key.domain ≡ domain =
              find_key-domain domain repo key (loaded_WellKeyed dir repo loaded) found in
            let (conf, given, made, signed) =
              signed_by_key body key (rw (found_signs repo body domain key found) at h) in
            (key, conf, found, same, rw same at given, rw same at made, signed)
      ]
