-- ===== src/Client/Accepted.antt =====
-- What the server has accepted when `SendMail` succeeds.
use smtprelay.Base.{
  ◌≡◌, ◌∙◌, ap, sym, refl, false, Option, none, some, List, [], ◌∷◌, ◌++◌, Bytes, codes,
  append_assoc,
}
use smtprelay.Client.{
  answered, ClientError, Exchange, message, Network, Client, and_next, hello, mail, begin_data,
  close_data, close, quit, extension,
}
use smtprelay.Client.Sending.{
  dial, tls_if, rcpts, write, transaction, converse, converse_if, send_mail,
}
use smtprelay.Client.Greeted.{Greeted, Fine, hello_new-Fine}
use smtprelay.Client.Refused.{extension-tls, New, dialled-New}
use smtprelay.Client.Told.{
  EachTook, Told, Told-Greeted, Took, and_next-none, close_data-none, cmd_error-none, mail-none,
  quit-none, rcpts-none, write-none,
}

module _ {R : Type 0} (net : Network R) where
  -- What was said in a mail transaction that succeeded, and in the end of the connection.
  abbrev pub Ending : Bytes → List Exchange → Type 0
  Ending text said =
      (msg : Bytes) × (left : Exchange) × Took 221 (codes "QUIT") left
      × (said ≡ message text (answered 250 msg) ∷ left ∷ [])

  abbrev pub Delivered : Bytes → List Bytes → Bytes → List Exchange → Type 0
  Delivered from to text said =
      (body : Bytes) × (begun : Exchange) × (named : List Exchange) × (opened : Exchange)
      × (rest : List Exchange) × Took 250 (codes "MAIL FROM:<" ++ from ++ codes ">" ++ body) begun
      × EachTook to named
      × Took 354 (codes "DATA") opened
      × Ending text rest
      × (said ≡ (begun ∷ (named ++ (opened ∷ rest))))

  join :
      {c d : Client R} (xs ys l : List Exchange)
      → Told c d xs
      → l ≡ d.said ++ ys
      → l ≡ c.said ++ (xs ++ ys)
  join {c} xs ys l t h = h ∙ ap (λ k. k ++ ys) t.said ∙ append_assoc c.said xs ys

  close-none :
      (text : Bytes) (c : Client R) {d : Client R}
      → Greeted c
      → and_next (close_data net text c) (quit net) ≡ (none, d)
      → (ys : List Exchange) × Ending text ys × (d.said ≡ c.said ++ ys)
  close-none text c {d} g run =
      let (e, first, rest) = and_next-none (close_data net text c) (quit net) run in
      let (msg, told) = close_data-none net text c first in
      let (x, took, last) = quit-none net e (Told-Greeted told g) rest in
      (
        message text (answered 250 msg) ∷ x ∷ [],
        (msg, x, took, refl),
        join (message text (answered 250 msg) ∷ []) (x ∷ []) d.said told last,
      )

  text-none :
      (text : Bytes) (c : Client R) {d : Client R}
      → Greeted c
      → and_next (write net text c) (λ e. and_next (close_data net text e) (quit net)) ≡ (none, d)
      → (ys : List Exchange) × Ending text ys × (d.said ≡ c.said ++ ys)
  text-none text c {d} g run =
      let (e, first, rest) = and_next-none (write net text c) _ run in
      let told = write-none net text c first in
      let (ys, ending, last) = close-none text e (Told-Greeted told g) rest in
      (ys, ending, join [] ys d.said told last)

  data-none :
      (text : Bytes) (c : Client R) {d : Client R}
      → Greeted c
      → and_next
          (begin_data net c)
          (λ b. and_next (write net text b) (λ e. and_next (close_data net text e) (quit net)))
        ≡ (none, d)
      → (opened : Exchange) × (ys : List Exchange) × Took 354 (codes "DATA") opened
        × Ending text ys
        × (d.said ≡ c.said ++ (opened ∷ ys))
  unfolding begin_data
  data-none text c {d} g run =
      let (e, first, rest) = and_next-none (begin_data net c) _ run in
      let (x, took, told) = cmd_error-none net 354 _ c first in
      let (ys, ending, last) = text-none text e (Told-Greeted told g) rest in
      (x, ys, took, ending, join (x ∷ []) ys d.said told last)

  rest-none :
      (to : List Bytes) (text : Bytes) (c : Client R) {d : Client R}
      → Greeted c
      → and_next (rcpts net to c) (λ a.
        and_next
          (begin_data net a)
          (λ b. and_next (write net text b) (λ e. and_next (close_data net text e) (quit net))))
        ≡ (none, d)
      → (named : List Exchange) × (opened : Exchange) × (ys : List Exchange) × EachTook to named
        × Took 354 (codes "DATA") opened
        × Ending text ys
        × (d.said ≡ c.said ++ (named ++ (opened ∷ ys)))
  rest-none to text c {d} g run =
      let (e, first, rest) = and_next-none (rcpts net to c) _ run in
      let (xs, each, told) = rcpts-none net to c first in
      let (x, ys, took, ending, last) = data-none text e (Told-Greeted told g) rest in
      (xs, x, ys, each, took, ending, join xs (x ∷ ys) d.said told last)

  pub transaction-none :
      (from : Bytes) (to : List Bytes) (text : Bytes) (c : Client R) {d : Client R}
      → Greeted c
      → transaction net from to text c ≡ (none, d)
      → (said : List Exchange) × Delivered from to text said × (d.said ≡ c.said ++ said)
  unfolding transaction
  transaction-none from to text c {d} g run =
      let (e, first, rest) = and_next-none (mail net from c) _ run in
      let (body, x, took, told) = mail-none net from c g first in
      let (xs, y, ys, each, opened, ending, last) =
        rest-none to text e (Told-Greeted told g) rest in
      (
        x ∷ (xs ++ (y ∷ ys)),
        (body, x, xs, y, ys, took, each, opened, ending, refl),
        join (x ∷ []) (xs ++ (y ∷ ys)) d.said told last,
      )

  converse-none :
      (from : Bytes) (to : List Bytes) (text host : Bytes) (c : Client R) {d : Client R}
      → c.hello_error ≡ none
      → c.did_hello ≡ false
      → converse net from to text host c ≡ (none, d)
      → (before : List Exchange) × (said : List Exchange) × Delivered from to text said
        × (d.said ≡ before ++ said)
  unfolding converse
  converse-none from to text host c e new run =
      let c' : Client R = record c { local_name = host } in
      let (b, first, rest) = and_next-none (hello net c') _ run in
      let f : Fine (hello net c') = hello_new-Fine net c' e new in
      let g : Greeted b = rw first at f in
      let (a, second, last) =
        and_next-none (tls_if net (extension net (codes "STARTTLS") b)) _ rest in
      let k : Fine (tls_if net (extension net (codes "STARTTLS") b)) =
        extension-tls net (codes "STARTTLS") b g in
      let h : Greeted a = rw second at k in
      let (said, delivered, same) = transaction-none from to text a h last in
      (a.said, said, delivered, same)

  abbrev said_of : Option (Client R) → List Exchange
  said_of none = []
  said_of (some c) = c.said

  converse_if-none :
      (from : Bytes) (to : List Bytes) (text host : Bytes)
      (p : Option ClientError × Option (Client R)) {c : Client R}
      → New net p
      → converse_if net from to text host p ≡ (none, some c)
      → (before : List Exchange) × (said : List Exchange) × Delivered from to text said
        × (c.said ≡ before ++ said)
  unfolding close
  converse_if-none from to text host (e, none) new run = cc
  converse_if-none from to text host (e, some b) {c} (none_yet, new) run =
      let (f, d) = converse net from to text host b in
      let same : converse net from to text host b ≡ (none, d) = ap (λ p. (p.0, d)) run in
      let (before, said, delivered, last) = converse-none from to text host b none_yet new same in
      (before, said, delivered, sym (ap (λ p. said_of p.1) run) ∙ last)

  -- If `SendMail` succeeds, the last that it said to the server was the whole transaction: MAIL with the
  -- sender, RCPT with each recipient in order, DATA, the text and QUIT, and the server answered each of
  -- them with a code that was expected.
  pub send_mail-Delivered :
      (addr from : Bytes) (to : List Bytes) (text host : Bytes) (r : R) {c : Client R}
      → send_mail net addr from to text host r ≡ (none, some c)
      → (before : List Exchange) × (said : List Exchange) × Delivered from to text said
        × (c.said ≡ before ++ said)
  unfolding send_mail dial
  send_mail-Delivered addr from to text host r run =
      converse_if-none from to text host (dial net addr r) (dialled-New net addr (net.dial addr r))
        run
