-- ===== src/Client/Sending.antt =====
-- `NewClient`, `Dial` and `SendMail` of smtp/smtp.go.
use smtprelay.Base.{false, Option, none, some, List, [], ◌∷◌, Bytes, codes}
use smtprelay.Client.{
  ClientError, failed, Reply, done, missed, expected, Network, Client, and_next, hello, extension,
  start_tls, mail, rcpt, begin_data, close_data, quit, close, connection_error,
}

module _ {R : Type 0} (net : Network R) where
  -- `NewClient`: a client, or the error; the connection is closed behind an error.
  abbrev pub new_client : Bytes → Reply → R → Option ClientError × Option (Client R)
  new_client host (missed e) r = (some e, none)
  new_client host (done code msg) r = (
    none,
    some (record {
      remote = r;
      tls = false;
      server_name = host;
      ext = none;
      auth = [];
      local_name = codes "localhost";
      did_hello = false;
      hello_error = none;
      said = [];
    }),
  )

  abbrev pub dialled : Bytes → Option Bytes × R → Option ClientError × Option (Client R)
  dialled addr (some text, r) = (some (failed text), none)
  dialled addr (none, r) =
      let (answer, r') = net.greet r in new_client (net.host addr) (expected 220 answer) r'

  -- `Dial`
  unfoldable pub dial : Bytes → R → Option ClientError × Option (Client R)
  dial addr r = dialled addr (net.dial addr r)

  -- `if ok, _ := c.Extension("STARTTLS"); ok { … }`
  abbrev pub tls_if : Option Bytes × Client R → Option ClientError × Client R
  tls_if (none, c) = (none, c)
  tls_if (some args, c) = start_tls net c

  -- `for _, addr := range to { … }`
  unfoldable pub rcpts : List Bytes → Client R → Option ClientError × Client R
  unfolding rcpt
  rcpts [] c = (none, c)
  rcpts (addr ∷ to) c = and_next (rcpt net addr c) (rcpts to)

  -- `w.Write(msg)`
  unfoldable pub write : Bytes → Client R → Option ClientError × Client R
  write text c =
      let (e, r) = net.write text c.remote in (connection_error net e, record c { remote = r })

  -- The mail transaction of `SendMail`, and `QUIT`.
  unfoldable pub transaction : Bytes → List Bytes → Bytes → Client R → Option ClientError × Client R
  unfolding mail rcpts begin_data write close_data quit
  transaction from to text c = and_next (mail net from c) λ c₁. and_next (rcpts to c₁) λ c₂.
      and_next (begin_data net c₂)
        λ c₃. and_next (write text c₃) λ c₄. and_next (close_data net text c₄) (quit net)

  -- `SendMail` behind `Dial`, without an `Auth`, as sender.go calls it.
  unfoldable pub converse :
      Bytes → List Bytes → Bytes → Bytes → Client R → Option ClientError × Client R
  unfolding hello extension start_tls transaction
  converse from to text host c =
      and_next (hello net (record c { local_name = host }))
        λ d. and_next (tls_if (extension net (codes "STARTTLS") d)) (transaction from to text)

  -- `defer c.Close()`, whose error nobody reads
  abbrev pub closed : Option ClientError × Client R → Option ClientError × Option (Client R)
  closed (e, c) = let (f, d) = close net c in (e, some d)

  abbrev pub converse_if :
      Bytes
      → List Bytes
      → Bytes
      → Bytes
      → Option ClientError × Option (Client R)
      → Option ClientError × Option (Client R)
  converse_if from to text host (e, none) = (e, none)
  converse_if from to text host (e, some c) = closed (converse from to text host c)

  unfoldable pub send_mail :
      Bytes → Bytes → List Bytes → Bytes → Bytes → R → Option ClientError × Option (Client R)
  unfolding dial converse close
  send_mail addr from to text host r = converse_if from to text host (dial addr r)
