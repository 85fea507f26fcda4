-- ===== src/Client.antt =====
-- smtp/smtp.go: the SMTP client, its commands and `SendMail`.
pub mod Sending
pub mod Greeted
pub mod Refused
pub mod Told
pub mod Accepted
pub mod Relayed
pub mod Login
use smtprelay.Base.{
  ℕ, ◌/◌, leb, ltb, ◌==◌, Bool, true, false, not, ◌&&◌, ◌||◌, Option, none, some, List, [], ◌∷◌,
  ◌++◌, if◌then◌else◌, Bytes, codes, eqb, split, split_n2, to_upper,
}

-- A response of the server, of one line or of several that are joined by newlines, or the text of the
-- error of the connection.
pub data Answer : Type 0 where
  answered : ℕ → Bytes → Answer
  broken : Bytes → Answer

-- An error of a call: `textproto.Error`, or another one by its text.
pub data ClientError : Type 0 where
  refused : ℕ → Bytes → ClientError
  failed : Bytes → ClientError

-- The code and the text of a response that was expected, or the error.
pub data Reply : Type 0 where
  done : ℕ → Bytes → Reply
  missed : ClientError → Reply

-- What `net` and `net/textproto` do for the client, over the state `R` of the other side: the
-- connection to an address, the host of an address, the greeting, the response to a line, the writing of
-- a text, the response behind its end, TLS, and the end of the connection. An error is its text.
pub record Network (R : Type 0) : Type 0 where
  pub dial : Bytes → R → Option Bytes × R
  pub host : Bytes → Bytes
  pub greet : R → Answer × R
  pub ask : Bytes → R → Answer × R
  pub write : Bytes → R → Option Bytes × R
  pub finish : R → Answer × R
  pub secure : R → R
  pub hang_up : R → Option Bytes × R

-- What was sent to the server and what it answered: a line, or the text of a message.
pub data Exchange : Type 0 where
  command : Bytes → Answer → Exchange
  message : Bytes → Answer → Exchange

-- `Client`, with the other side, and with what was said so far.
pub record Client (R : Type 0) : Type 0 where
  pub remote : R
  pub tls : Bool
  pub server_name : Bytes
  pub ext : Option (List (Bytes × Bytes))
  pub auth : List Bytes
  pub local_name : Bytes
  pub did_hello : Bool
  pub hello_error : Option ClientError
  pub said : List Exchange

-- The test of `ReadResponse`: all digits of `expect` stand at the front of the code.
abbrev pub accepts : ℕ → ℕ → Bool
accepts expect code =
    if leb 1 expect && ltb expect 10
    then code / 100 == expect
    else if leb 10 expect && ltb expect 100
    then code / 10 == expect
    else if leb 100 expect && ltb expect 1000
    then code == expect
    else true

abbrev pub expected : ℕ → Answer → Reply
expected expect (answered code msg) =
    if accepts expect code then done code msg else missed (refused code msg)
expected expect (broken text) = missed (failed text)

abbrev pub error_of : Reply → Option ClientError
error_of (done code msg) = none
error_of (missed e) = some e

-- `ext[args[0]] = args[1]`, or the empty text: a later line stands before an earlier one.
abbrev pub put_args : List Bytes → List (Bytes × Bytes) → List (Bytes × Bytes)
put_args [] ext = ext
put_args (name ∷ []) ext = (name, []) ∷ ext
put_args (name ∷ args ∷ more) ext = (name, args) ∷ ext

unfoldable pub put_lines : List Bytes → List (Bytes × Bytes) → List (Bytes × Bytes)
unfolding split_n2
put_lines [] ext = ext
put_lines (line ∷ lines) ext = put_lines lines (put_args (split_n2 b' ' line) ext)

-- The lines behind the first one.
abbrev pub ext_of : List Bytes → List (Bytes × Bytes)
ext_of [] = []
ext_of (first ∷ lines) = put_lines lines []

unfoldable pub lookup : Bytes → List (Bytes × Bytes) → Option Bytes
unfolding eqb
lookup name [] = none
lookup name ((n, args) ∷ ext) = if eqb n name then some args else lookup name ext

abbrev pub mechanisms : Option Bytes → List Bytes → List Bytes
mechanisms none auth = auth
mechanisms (some mechs) auth = split b' ' mechs

abbrev pub has_ext : Bytes → Option (List (Bytes × Bytes)) → Bool
has_ext name none = false
has_ext name (some ext) = elim (lookup name ext) [ none ↦ false | some args ↦ true ]

-- `if err != nil { return err }`, and else what follows
abbrev pub and_next :
    {A : Type 0} → Option ClientError × A → (A → Option ClientError × A) → Option ClientError × A
and_next (none, c) next = next c
and_next (some e, c) next = (some e, c)

module _ {R : Type 0} (net : Network R) where
  unfoldable pub cmd : ℕ → Bytes → Client R → Reply × Client R
  cmd expect line c =
      let (answer, r) = net.ask line c.remote in
      (expected expect answer, record c { remote = r; said = c.said ++ command line answer ∷ [] })

  -- A command of which only the error counts.
  unfoldable pub cmd_error : ℕ → Bytes → Client R → Option ClientError × Client R
  unfolding cmd
  cmd_error expect line c = let (reply, d) = cmd expect line c in (error_of reply, d)

  unfoldable pub helo : Client R → Option ClientError × Client R
  unfolding cmd_error
  helo c = cmd_error 250 (codes "HELO " ++ c.local_name) (record c { ext = none })

  abbrev pub extended : Reply × Client R → Option ClientError × Client R
  extended (missed e, c) = (some e, c)
  extended (done code msg, c) =
      let ext = ext_of (split 10 msg) in
      (none, record c { ext = some ext; auth = mechanisms (lookup (codes "AUTH") ext) c.auth })

  unfoldable pub ehlo : Client R → Option ClientError × Client R
  unfolding cmd put_lines lookup split
  ehlo c = extended (cmd 250 (codes "EHLO " ++ c.local_name) c)

  -- `if err != nil { c.helloError = c.helo() }`
  abbrev pub or_helo : Option ClientError × Client R → Option ClientError × Client R
  or_helo (none, c) = (c.hello_error, c)
  or_helo (some e, c) = let (f, d) = helo c in (f, record d { hello_error = f })

  unfoldable pub hello : Client R → Option ClientError × Client R
  unfolding ehlo helo
  hello c =
      if c.did_hello then (c.hello_error, c) else or_helo (ehlo (record c { did_hello = true }))

  -- `Hello`
  unfoldable pub hello_as : Bytes → Client R → Option ClientError × Client R
  unfolding hello
  hello_as name c =
      if c.did_hello
      then (some (failed (codes "smtp: Hello called after other methods")), c)
      else hello (record c { local_name = name })

  unfoldable pub start_tls : Client R → Option ClientError × Client R
  unfolding hello cmd_error ehlo
  start_tls c = and_next (hello c) λ d.
      and_next (cmd_error 220 (codes "STARTTLS") d)
        λ f. ehlo (record f { remote = net.secure f.remote; tls = true })

  unfoldable pub verify : Bytes → Client R → Option ClientError × Client R
  unfolding hello cmd_error
  verify addr c = and_next (hello c) (cmd_error 250 (codes "VRFY " ++ addr))

  unfoldable pub mail : Bytes → Client R → Option ClientError × Client R
  unfolding hello cmd_error lookup
  mail from c = and_next (hello c) λ d.
      let body = if has_ext (codes "8BITMIME") d.ext then codes " BODY=8BITMIME" else [] in
      cmd_error 250 (codes "MAIL FROM:<" ++ from ++ codes ">" ++ body) d

  unfoldable pub rcpt : Bytes → Client R → Option ClientError × Client R
  unfolding cmd_error
  rcpt to c = cmd_error 25 (codes "RCPT TO:<" ++ to ++ codes ">") c

  unfoldable pub begin_data : Client R → Option ClientError × Client R
  unfolding cmd_error
  begin_data c = cmd_error 354 (codes "DATA") c

  -- `dataCloser.Close`, behind a text
  unfoldable pub close_data : Bytes → Client R → Option ClientError × Client R
  close_data text c =
      let (answer, r) = net.finish c.remote in
      (
        error_of (expected 250 answer),
        record c { remote = r; said = c.said ++ message text answer ∷ [] },
      )

  abbrev pub connection_error : Option Bytes → Option ClientError
  connection_error none = none
  connection_error (some text) = some (failed text)

  -- `Close`
  unfoldable pub close : Client R → Option ClientError × Client R
  close c = let (e, r) = net.hang_up c.remote in (connection_error e, record c { remote = r })

  unfoldable pub quit : Client R → Option ClientError × Client R
  unfolding hello cmd_error close
  quit c = and_next (hello c) λ d. and_next (cmd_error 221 (codes "QUIT") d) close

  unfoldable pub reset : Client R → Option ClientError × Client R
  unfolding hello cmd_error
  reset c = and_next (hello c) (cmd_error 250 (codes "RSET"))

  -- What `Extension` looks up, behind the greeting; an error of the greeting counts as no extension.
  abbrev pub looked_up : Bytes → Option ClientError × Client R → Option Bytes × Client R
  looked_up name (some e, c) = (none, c)
  looked_up name (none, c) = (elim c.ext [ none ↦ none | some ext ↦ lookup (to_upper name) ext ], c)

  -- `Extension`
  unfoldable pub extension : Bytes → Client R → Option Bytes × Client R
  unfolding hello lookup to_upper
  extension name c = looked_up name (hello c)
