-- ===== src/Dkim.antt =====
-- dkim.go: the repository of the signing keys, and the signing of a message.
pub mod Repository
pub mod Lines
use smtprelay.Base.{
  ℕ, suc, ◌+◌, Bool, true, false, ◌&&◌, ◌||◌, Option, none, some, List, [], ◌∷◌, ◌++◌, ◌==◌,
  if◌then◌else◌, Bytes, codes, eqb, length,
}

abbrev pub key_config_suffix : Bytes
key_config_suffix = codes ".config"

-- The package `dkim`, which this program only calls: its configurations `C` and its signers `S`.
-- `with_conf` is the assignment to the field `Conf`; an error is `none`.
pub record DkimLibrary (C S : Type 0) : Type 0 where
  pub new_conf : Bytes → Bytes → Option C
  pub new : C → Bytes → Option S
  pub with_conf : S → C → S
  pub sign : S → Bytes → Option Bytes

-- The type `DKIM`.
pub record Key (C S : Type 0) : Type 0 where
  pub selector : Bytes
  pub domain : Bytes
  pub pem : Bytes  -- `Data`
  pub conf : C
  pub signer : S

-- What `DKIMLoadConfig` decodes from a file.
pub record KeyConfig : Type 0 where
  pub selector : Bytes
  pub domain : Bytes

-- The key directory: its listing, its files by name, and `json.Unmarshal` of a key configuration.
pub record KeyDir : Type 0 where
  pub names : Option (List Bytes)
  pub read_file : Bytes → Option Bytes
  pub decode : Bytes → Option KeyConfig

has_prefix : Bytes → Bytes → Bool
has_prefix [] s = true
has_prefix (c ∷ p) [] = false
has_prefix (c ∷ p) (d ∷ s) = c == d && has_prefix p s

-- `strings.Contains(s, p)`
unfoldable pub contains : Bytes → Bytes → Bool
unfolding has_prefix
contains [] p = has_prefix p []
contains (c ∷ s) p = has_prefix p (c ∷ s) || contains s p

-- `bytes.Replace(data, "\n", "\r\n", -1)`
unfoldable pub lf_to_crlf : Bytes → Bytes
lf_to_crlf [] = []
lf_to_crlf (c ∷ s) = let rest = lf_to_crlf s in if c == 10 then 13 ∷ 10 ∷ rest else c ∷ rest

abbrev pub crlf : Bytes
crlf = 13 ∷ 10 ∷ []

-- `if bytes.Index(data, "\r\n") < 0 { … }`
unfoldable pub normalise_lines : Bytes → Bytes
normalise_lines body = if contains body crlf then body else lf_to_crlf body

-- A chain of calls that may fail.
infixl 5 ◌>>=◌
abbrev pub ◌>>=◌ : {A B : Type 0} → Option A → (A → Option B) → Option B
none >>= f = none
some a >>= f = f a

module _ {C S : Type 0} (lib : DkimLibrary C S) where
  abbrev pub Repo : Type 0
  Repo = List (Bytes × Key C S)

  -- `DKIMRepo[domain]`
  unfoldable pub find_key : Bytes → List (Bytes × Key C S) → Option (Key C S)
  find_key k [] = none
  find_key k ((j, v) ∷ m) = if eqb j k then some v else find_key k m

  -- `DKIMRepo[key.Domain] = key`
  unfoldable pub put_key : Key C S → List (Bytes × Key C S) → List (Bytes × Key C S)
  put_key key [] = (key.domain, key) ∷ []
  put_key key ((j, v) ∷ m) =
      if eqb j key.domain then (key.domain, key) ∷ m else (j, v) ∷ put_key key m

  -- The body of the loop of `DKIMLoadKeyRepository`, up to the assignment; `none` is a `continue`.
  load_key : KeyDir → Bytes → Option (Key C S)
  load_key dir name = if contains name key_config_suffix then none else do
    file ← dir.read_file (name ++ key_config_suffix)
    config ← dir.decode file
    pem ← dir.read_file name
    conf ← lib.new_conf config.domain config.selector
    signer ← lib.new conf pem
    some (record {
      selector = config.selector;
      domain = config.domain;
      pem = pem;
      conf = conf;
      signer = signer;
    })

  abbrev pub add_key : Option (Key C S) → List (Bytes × Key C S) → List (Bytes × Key C S)
  add_key none m = m
  add_key (some key) m = put_key key m

  load_keys : KeyDir → List Bytes → List (Bytes × Key C S) → List (Bytes × Key C S)
  unfolding load_key put_key
  load_keys dir [] m = m
  load_keys dir (name ∷ names) m = load_keys dir names (add_key (load_key dir name) m)

  -- `DKIMLoadKeyRepository`: `none` if the directory cannot be read.
  unfoldable pub dkim_load_key_repository : KeyDir → Option (List (Bytes × Key C S))
  unfolding load_keys
  dkim_load_key_repository dir = do names ← dir.names; some (load_keys dir names [])

  -- The last step of `DKIMSign`.
  abbrev pub signed_or : Bytes → Option Bytes → Bytes × Bool
  signed_or body none = (body, false)
  signed_or body (some signed) = (signed, true)

  abbrev pub sign_with : Bytes → Key C S → Bytes × Bool
  sign_with body key =
      if length key.domain == 0
      then (body, false)
      else elim (lib.new_conf key.domain key.selector) [
        | none ↦ (body, false)
        | some conf ↦
            let text = normalise_lines body in
            signed_or text (lib.sign (lib.with_conf key.signer conf) text)
      ]

  -- `DKIMSign`: the text that it returns, and whether there is no error. A missing key reads as the
  -- zero one, whose domain is empty.
  unfoldable pub dkim_sign : List (Bytes × Key C S) → Bytes → Bytes → Bytes × Bool
  dkim_sign repo body domain = elim (find_key domain repo) [
    | none ↦ (body, false)
    | some key ↦ sign_with body key
  ]
