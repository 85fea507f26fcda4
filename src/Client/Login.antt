-- ===== src/Client/Login.antt =====
-- smtp/auth.go, and `Auth` of smtp/smtp.go: how the client authenticates itself.
pub mod Plain
use smtprelay.Base.{
  ℕ, zero, suc, ◌+◌, ◌/◌, ◌%◌, ◌==◌, ltb, Bool, true, false, not, ◌&&◌, Option, none, some, List,
  [], ◌∷◌, ◌++◌, if◌then◌else◌, Bytes, codes, eqb,
}
use smtprelay.Client.{
  Answer, ClientError, refused, failed, Reply, done, missed, Network, Client, cmd, hello, quit,
}

pub record ServerInfo : Type 0 where
  pub name : Bytes
  pub tls : Bool
  pub auth : List Bytes

-- What `Start` gives: the mechanism and the first data, or the text of the error.
pub data Started : Type 0 where
  begins : Bytes → Bytes → Started
  declines : Bytes → Started

-- What `Next` gives: data, `nil`, or the text of the error.
pub data Continued : Type 0 where
  goes_on : Bytes → Continued
  rests : Continued
  gives_up : Bytes → Continued

-- `Auth`
pub record Auth : Type 0 where
  pub start : ServerInfo → Started
  pub next : Bytes → Bool → Continued

-- `for _, mechanism := range server.Auth { … }`
abbrev pub advertised : List Bytes → Bool
advertised [] = false
advertised (mechanism ∷ auth) = if eqb mechanism (codes "PLAIN") then true else advertised auth

abbrev pub plain_response : Bytes → Bytes → Bytes → Bytes
plain_response identity username password = identity ++ 0 ∷ (username ++ 0 ∷ password)

-- `PlainAuth`
abbrev pub plain_auth : Bytes → Bytes → Bytes → Bytes → Auth
plain_auth identity username password host = record {
  start = λ server.
      if not server.tls && not (advertised server.auth)
      then declines (codes "unencrypted connection")
      else if not (eqb server.name host)
      then declines (codes "wrong host name")
      else begins (codes "PLAIN") (plain_response identity username password);
  next = λ from more. if more then gives_up (codes "unexpected server challenge") else rests;
}

-- `%x`
abbrev pub hex_digit : ℕ → ℕ
hex_digit d = if ltb d 10 then b'0' + d else 87 + d

unfoldable pub hex : Bytes → Bytes
hex [] = []
hex (c ∷ s) = hex_digit (c / 16) ∷ hex_digit (c % 16) ∷ hex s

-- `CRAMMD5Auth`, over `crypto/hmac` with `crypto/md5`: the digest under a key.
abbrev pub cram_md5_auth : (Bytes → Bytes → Bytes) → Bytes → Bytes → Auth
cram_md5_auth hmac username secret = record {
  start = λ server. begins (codes "CRAM-MD5") [];
  next = λ from more. if more then goes_on (username ++ 32 ∷ hex (hmac secret from)) else rests;
}

-- `base64.StdEncoding`: an encoding, a decoding, and the text of its error.
pub record Base64 : Type 0 where
  pub encode : Bytes → Bytes
  pub decode : Bytes → Option Bytes
  pub complaint : Bytes → Bytes

-- What an answer means to the loop of `Auth`: a challenge, the end, or an error.
pub data Heard : Type 0 where
  challenge : Bytes → Heard
  accepted : Bytes → Heard
  wrong : ClientError → Heard

-- What the loop does next.
pub data Move : Type 0 where
  say : Bytes → Move
  stop : Move
  abort : ClientError → Move

abbrev pub moved : Continued → Move
moved (goes_on resp) = say resp
moved rests = stop
moved (gives_up text) = abort (failed text)

abbrev pub move_of : Auth → Heard → Move
move_of a (challenge msg) = moved (a.next msg true)
move_of a (accepted msg) = moved (a.next msg false)
move_of a (wrong e) = abort e

module _ (base64 : Base64) where
  abbrev pub decoded : Bytes → Option Bytes → Heard
  decoded msg64 (some msg) = challenge msg
  decoded msg64 none = wrong (failed (base64.complaint msg64))

  -- `switch code { … }`
  abbrev pub heard : ℕ → Bytes → Heard
  heard code msg64 =
      if code == 334
      then decoded msg64 (base64.decode msg64)
      else if code == 235
      then accepted msg64
      else wrong (refused code msg64)

  abbrev pub auth_line : Bytes → Bytes → Bytes
  auth_line mech resp = codes "AUTH " ++ mech ++ 32 ∷ base64.encode resp

  module _ {R : Type 0} (net : Network R) where
    -- `c.cmd(501, "*")`, then `c.Quit()`; their errors are dropped.
    abbrev pub abandon : ClientError → Client R → Option ClientError × Client R
    abandon e c =
        let (reply, d) = cmd net 501 (codes "*") c in let (e', d') = quit net d in (some e, d')

    abbrev pub follow :
        (Reply × Client R → Option (Option ClientError × Client R))
        → Move
        → Client R
        → Option (Option ClientError × Client R)
    follow loop (say resp) c = loop (cmd net 0 (base64.encode resp) c)
    follow loop stop c = some (none, c)
    follow loop (abort e) c = some (abandon e c)

    -- `for err == nil { … }`, with fuel; `none` means that the fuel ran out.
    unfoldable pub auth_loop : Auth → ℕ → Reply × Client R → Option (Option ClientError × Client R)
    unfolding cmd quit
    auth_loop a zero p = none
    auth_loop a (suc fuel) (missed e, c) = some (some e, c)
    auth_loop a (suc fuel) (done code msg64, c) =
        follow (auth_loop a fuel) (move_of a (heard code msg64)) c

    abbrev pub auth_started : Auth → ℕ → Started → Client R → Option (Option ClientError × Client R)
    auth_started a fuel (declines text) c = let (e, d) = quit net c in some (some (failed text), d)
    auth_started a fuel (begins mech resp) c = auth_loop a fuel (cmd net 0 (auth_line mech resp) c)

    abbrev pub auth_greeted :
        Auth → ℕ → Option ClientError × Client R → Option (Option ClientError × Client R)
    auth_greeted a fuel (some e, c) = some (some e, c)
    auth_greeted a fuel (none, c) =
        auth_started a fuel (a.start (record { name = c.server_name; tls = c.tls; auth = c.auth }))
          c

    -- `Auth`
    unfoldable pub client_auth : Auth → ℕ → Client R → Option (Option ClientError × Client R)
    unfolding hello auth_loop
    client_auth a fuel c = auth_greeted a fuel (hello net c)
