-- ===== src/Client/Refused.antt =====
-- The error of `SendMail` is the last answer of the server.
use smtprelay.Base.{
  ℕ, ◌≡◌, refl, false, Option, none, some, List, [], ◌∷◌, ◌++◌, Bytes, codes, arith,
}
use smtprelay.Client.{
  ClientError, refused, failed, Reply, done, missed, message, Network, Client, expected, cmd_error,
  hello, start_tls, mail, rcpt, begin_data, close_data, connection_error, close, quit, extension,
}
use smtprelay.Client.Sending.{
  new_client, dialled, dial, tls_if, rcpts, write, transaction, converse, closed, converse_if,
  send_mail,
}
use smtprelay.Client.Greeted.{
  Greeted, Blamed-Fine, Ended, Fine, and_next-Fine, answer, cmd_error-Fine, ehlo-Fine,
  expected-Blamed, hello-Fine, hello_again, hello_new-Fine,
}

module _ {R : Type 0} (net : Network R) where
  rcpts-Fine : (to : List Bytes) (c : Client R) → Greeted c → Fine (rcpts net to c)
  unfolding rcpts rcpt
  rcpts-Fine [] c g = g
  rcpts-Fine (addr ∷ to) c g =
      and_next-Fine (rcpt net addr c) (rcpts net to) (cmd_error-Fine net 25 _ c g) (rcpts-Fine to)

  connection-Fine :
      (e : Option Bytes) (r : R) (c : Client R)
      → Greeted c
      → Fine (connection_error net e, record c { remote = r })
  connection-Fine none r c g = record { did_hello = g.did_hello; no_error = g.no_error }
  connection-Fine (some text) r c g = tt

  close_data-Fine : (text : Bytes) (c : Client R) → Greeted c → Fine (close_data net text c)
  unfolding close_data
  close_data-Fine text c g =
      let (a, r) = net.finish c.remote in
      let d = record c { remote = r; said = c.said ++ message text a ∷ [] } in
      Blamed-Fine (close_data net text c)
        (expected-Blamed 250 a d c.said (message text a) refl refl)
        (record { did_hello = g.did_hello; no_error = g.no_error })

  quit-Fine : (c : Client R) → Greeted c → Fine (quit net c)
  unfolding quit close
  quit-Fine c g = and_next-Fine (hello net c) _ (hello-Fine net c g) λ d g'.
      and_next-Fine (cmd_error net 221 (codes "QUIT") d) _ (cmd_error-Fine net 221 _ d g')
        λ f. connection-Fine _ _ f

  transaction-Fine :
      (from : Bytes) (to : List Bytes) (text : Bytes) (c : Client R)
      → Greeted c
      → Fine (transaction net from to text c)
  unfolding transaction mail begin_data write
  transaction-Fine from to text c g =
      and_next-Fine (mail net from c) _
        (and_next-Fine (hello net c) _ (hello-Fine net c g) (λ d. cmd_error-Fine net 250 _ d))
        λ c₁ g₁. and_next-Fine (rcpts net to c₁) _ (rcpts-Fine to c₁ g₁) λ c₂ g₂.
          and_next-Fine (begin_data net c₂) _ (cmd_error-Fine net 354 _ c₂ g₂) λ c₃ g₃.
            and_next-Fine (write net text c₃) _ (connection-Fine _ _ c₃ g₃) λ c₄ g₄.
              and_next-Fine (close_data net text c₄) (quit net) (close_data-Fine text c₄ g₄)
                quit-Fine

  start_tls-Fine : (c : Client R) → Greeted c → Fine (start_tls net c)
  unfolding start_tls
  start_tls-Fine c g = and_next-Fine (hello net c) _ (hello-Fine net c g) λ d g'.
      and_next-Fine (cmd_error net 220 (codes "STARTTLS") d) _ (cmd_error-Fine net 220 _ d g')
        λ f g''. ehlo-Fine net _ (record { did_hello = g''.did_hello; no_error = g''.no_error })

  tls_if-Fine : (o : Option Bytes) (c : Client R) → Greeted c → Fine (tls_if net (o, c))
  tls_if-Fine none c g = g
  tls_if-Fine (some args) c g = start_tls-Fine c g

  pub extension-tls :
      (name : Bytes) (c : Client R) → Greeted c → Fine (tls_if net (extension net name c))
  unfolding extension
  extension-tls name c g = rw (hello_again net c g) (tls_if-Fine _ c g)

  converse-Fine :
      (from : Bytes) (to : List Bytes) (text host : Bytes) (c : Client R)
      → c.hello_error ≡ none
      → c.did_hello ≡ false
      → Fine (converse net from to text host c)
  unfolding converse
  converse-Fine from to text host c e new =
      and_next-Fine (hello net (record c { local_name = host })) _ (hello_new-Fine net _ e new)
        λ d g.
          and_next-Fine (tls_if net (extension net (codes "STARTTLS") d)) _
            (extension-tls (codes "STARTTLS") d g) (transaction-Fine from to text)

  -- What becomes of the error when the connection is closed.
  closed-Ended :
      (p : Option ClientError × Client R) {code : ℕ} {msg : Bytes} {c : Client R}
      → Fine p
      → closed net p ≡ (some (refused code msg), some c)
      → Ended code msg c.said
  unfolding close
  closed-Ended (none, d) f run = cc
  closed-Ended (some (failed text), d) f run = cc
  closed-Ended (some (refused k m), d) (before, x, said, e) run =
      (before, x, ground (arith, run), ground (arith, run))

  -- A client that has said nothing.
  abbrev pub New : Option ClientError × Option (Client R) → Type 0
  New (e, none) = Unit
  New (e, some c) = (c.hello_error ≡ none) × (c.did_hello ≡ false)

  new_client-New : (host : Bytes) (reply : Reply) (r : R) → New (new_client net host reply r)
  new_client-New host (missed e) r = tt
  new_client-New host (done code msg) r = (refl, refl)

  pub dialled-New : (addr : Bytes) (p : Option Bytes × R) → New (dialled net addr p)
  dialled-New addr (some text, r) = tt
  dialled-New addr (none, r) =
      let (answer, r') = net.greet r in new_client-New (net.host addr) (expected 220 answer) r'

  converse_if-Ended :
      (from : Bytes) (to : List Bytes) (text host : Bytes)
      (p : Option ClientError × Option (Client R)) {code : ℕ} {msg : Bytes} {c : Client R}
      → New p
      → converse_if net from to text host p ≡ (some (refused code msg), some c)
      → Ended code msg c.said
  converse_if-Ended from to text host (e, none) new run = cc
  converse_if-Ended from to text host (e, some c) (none_yet, new) run =
      closed-Ended (converse net from to text host c)
        (converse-Fine from to text host c none_yet new) run

  -- If `SendMail` fails with a response of the server, on a connection that was greeted, that response
  -- is the last one that the server gave, to the last thing that was sent: the error that the sender
  -- takes for permanent or not is the one of the first command that was refused, and nothing was sent
  -- behind it.
  pub send_mail_refused :
      (addr from : Bytes) (to : List Bytes) (text host : Bytes) (r : R) {code : ℕ} {msg : Bytes}
      {c : Client R}
      → send_mail net addr from to text host r ≡ (some (refused code msg), some c)
      → Ended code msg c.said
  unfolding send_mail dial
  send_mail_refused addr from to text host r run =
      converse_if-Ended from to text host (dial net addr r) (dialled-New addr (net.dial addr r)) run
