-- ===== src/Smtpd/Login.antt =====
-- `handleAUTH` of smtpd/protocol.go.
use smtprelay.Base.{
  ◌==◌, not, Option, none, some, List, [], ◌∷◌, if◌then◌else◌, Bytes, codes, eqb, length, split,
  to_upper,
}
use smtprelay.Smtpd.{Peer, Failure, Server, Session, panicked, reply, report}
use smtprelay.Smtpd.Command.{unless}
use smtprelay.Smtpd.Input.{Scan, got, too_long, ended, scan}

-- What is read of `encoding/base64` and `net`: `DecodeString` and `ParseIP`, of which `nil` is `none`.
pub record Decoders : Type 0 where
  pub decode64 : Bytes → Option Bytes
  pub parse_ip : Bytes → Option Bytes

module _ {W : Type 0} (decoders : Decoders) (server : Server W) where
  -- `if !session.scanner.Scan() { return }`, and then the text. A line that is too long is met by the
  -- next scan once more, as one that is too long.
  abbrev pub with_scan : Scan → Session W → (Bytes → Session W → Session W) → Session W
  with_scan (got text rest) s k = k text (record s { wire = rest })
  with_scan (too_long rest) s k = s
  with_scan (ended rest) s k = record s { wire = rest }

  abbrev pub with_text : Session W → (Bytes → Session W → Session W) → Session W
  with_text s k = with_scan (scan s.wire) s k

  abbrev pub with_decoded : Option Bytes → Session W → (Bytes → Session W → Session W) → Session W
  with_decoded none s k = reply 502 (codes "Couldn't decode your credentials") s
  with_decoded (some text) s k = k text s

  -- The end of `handleAUTH`, with the name and the password.
  abbrev pub authenticate :
      (Peer → Bytes → Bytes → Option Failure) → Bytes → Bytes → Session W → Session W
  authenticate check username password s = unless server (check s.peer username password) s (
      reply 235 (codes "OK, you are now authenticated")
        (record s { peer = record s.peer { username = username; password = password } }))

  -- Three parts between zero bytes.
  abbrev pub plain_parts :
      (Peer → Bytes → Bytes → Option Failure) → List Bytes → Session W → Session W
  plain_parts check (identity ∷ username ∷ password ∷ []) s = authenticate check username password s
  plain_parts check parts s = reply 502 (codes "Couldn't decode your credentials") s

  abbrev pub plain : (Peer → Bytes → Bytes → Option Failure) → Bytes → Session W → Session W
  plain check auth s =
      with_decoded (decoders.decode64 auth) s (λ text. plain_parts check (split 0 text))

  -- The mechanism LOGIN: with the line of the password, after that of the name, and at its start.
  abbrev pub login_password :
      (Peer → Bytes → Bytes → Option Failure) → Bytes → Bytes → Session W → Session W
  login_password check username line s =
      with_decoded (decoders.decode64 line) s (authenticate check username)

  abbrev pub ask_password : (Peer → Bytes → Bytes → Option Failure) → Bytes → Session W → Session W
  ask_password check username s =
      with_text (reply 334 (codes "UGFzc3dvcmQ6") s) (login_password check username)

  abbrev pub login_name : (Peer → Bytes → Bytes → Option Failure) → Bytes → Session W → Session W
  login_name check line s = with_decoded (decoders.decode64 line) s (ask_password check)

  abbrev pub login : (Peer → Bytes → Bytes → Option Failure) → Session W → Session W
  login check s = with_text (reply 334 (codes "VXNlcm5hbWU6") s) (login_name check)

  -- `if len(cmd.fields) < 3 { … }`, on the words behind the mechanism
  abbrev pub plain_given :
      (Peer → Bytes → Bytes → Option Failure) → List Bytes → Session W → Session W
  plain_given check [] s = with_text (reply 334 (codes "Give me your credentials") s) (plain check)
  plain_given check (auth ∷ words) s = plain check auth s

  abbrev pub mechanism :
      (Peer → Bytes → Bytes → Option Failure) → Bytes → List Bytes → Session W → Session W
  mechanism check name words s =
      if eqb name (codes "PLAIN")
      then plain_given check words s
      else if eqb name (codes "LOGIN")
      then login check s
      else reply 502 (codes "Unknown authentication mechanism") s

  -- `cmd.fields[1]`, which panics if there is none
  abbrev pub auth_with :
      (Peer → Bytes → Bytes → Option Failure) → List Bytes → Session W → Session W
  auth_with check (word ∷ name ∷ words) s = mechanism check (to_upper name) words s
  auth_with check words s = record s { course = panicked }

  abbrev pub auth_checked :
      Option (Peer → Bytes → Bytes → Option Failure) → List Bytes → Session W → Session W
  auth_checked none words s = reply 502 (codes "AUTH not supported.") s
  auth_checked (some check) words s =
      if length s.peer.helo_name == 0
      then reply 502 (codes "Please introduce yourself first.") s
      else if not s.tls
      then reply 502 (codes "Cannot AUTH in plain text mode. Use STARTTLS.") s
      else auth_with check words s

  unfoldable pub handle_auth : List Bytes → Session W → Session W
  unfolding reply report scan
  handle_auth words s = auth_checked server.authenticator words s
