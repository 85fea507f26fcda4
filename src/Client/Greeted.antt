-- ===== src/Client/Greeted.antt =====
-- Commands and the greeting: an error is the last answer, and the greeting is made once.
use smtprelay.Base.{
  ℕ, ◌≡◌, refl, true, false, Option, none, some, List, [], ◌∷◌, ◌++◌, Bytes, codes, Bool-cases, inl,
  inr,
}
use smtprelay.Client.{
  Answer, answered, broken, ClientError, refused, failed, Reply, done, missed, Exchange, command,
  message, Network, Client, accepts, expected, error_of, and_next, cmd, cmd_error, helo, ehlo,
  extended, or_helo, hello,
}

-- The answer that an exchange ended with.
abbrev pub answer : Exchange → Answer
answer (command line a) = a
answer (message text a) = a

-- The last exchange was answered by this code and text.
abbrev pub Ended : ℕ → Bytes → List Exchange → Type 0
Ended code msg said =
    (before : List Exchange) × (x : Exchange) × (said ≡ before ++ x ∷ [])
    × (answer x ≡ answered code msg)

module _ {R : Type 0} where
  -- The greeting is over, without an error.
  pub record Greeted (c : Client R) : Type 0 where
    pub did_hello : c.did_hello ≡ true
    pub no_error : c.hello_error ≡ none

  abbrev pub Fine : Option ClientError × Client R → Type 0
  Fine (none, c) = Greeted c
  Fine (some (refused code msg), c) = Ended code msg c.said
  Fine (some (failed text), c) = Unit

  -- Of an error alone.
  abbrev pub Blamed : Option ClientError × Client R → Type 0
  Blamed (none, c) = Unit
  Blamed (some (refused code msg), c) = Ended code msg c.said
  Blamed (some (failed text), c) = Unit

  pub and_next-Fine :
      (p : Option ClientError × Client R) (next : Client R → Option ClientError × Client R)
      → Fine p
      → ((c : Client R) → Greeted c → Fine (next c))
      → Fine (and_next p next)
  and_next-Fine (none, c) next g h = h c g
  and_next-Fine (some (refused code msg), c) next g h = g
  and_next-Fine (some (failed text), c) next g h = tt

  pub Blamed-Fine : (p : Option ClientError × Client R) → Blamed p → Greeted p.1 → Fine p
  Blamed-Fine (none, c) b g = g
  Blamed-Fine (some (refused code msg), c) b g = b
  Blamed-Fine (some (failed text), c) b g = tt

  pub none-Fine : (o : Option ClientError) (c : Client R) → o ≡ none → Greeted c → Fine (o, c)
  none-Fine none c e g = g
  none-Fine (some x) c e g = cc

  -- An answer, after what had been said.
  pub expected-Blamed :
      (expect : ℕ) (a : Answer) (c : Client R) (before : List Exchange) (x : Exchange)
      → c.said ≡ before ++ x ∷ []
      → answer x ≡ a
      → Blamed (error_of (expected expect a), c)
  expected-Blamed expect (broken text) c before x said e = tt
  expected-Blamed expect (answered code msg) c before x said e =
      elim (Bool-cases (accepts expect code)) [
        | inl fine ↦ rw fine tt
        | inr wrong ↦ rw wrong (before, x, said, e)
      ]

module _ {R : Type 0} (net : Network R) where
  pub cmd_error-Blamed :
      (expect : ℕ) (line : Bytes) (c : Client R) → Blamed (cmd_error net expect line c)
  unfolding cmd_error cmd
  cmd_error-Blamed expect line c =
      let (a, r) = net.ask line c.remote in
      let d = record c { remote = r; said = c.said ++ command line a ∷ [] } in
      expected-Blamed expect a d c.said (command line a) refl refl

  pub cmd_error-Greeted :
      (expect : ℕ) (line : Bytes) (c : Client R)
      → Greeted c
      → Greeted (cmd_error net expect line c).1
  unfolding cmd_error cmd
  cmd_error-Greeted expect line c g = record { did_hello = g.did_hello; no_error = g.no_error }

  pub cmd_error-Fine :
      (expect : ℕ) (line : Bytes) (c : Client R) → Greeted c → Fine (cmd_error net expect line c)
  cmd_error-Fine expect line c g =
      Blamed-Fine (cmd_error net expect line c) (cmd_error-Blamed expect line c)
        (cmd_error-Greeted expect line c g)

  pub extended-Blamed :
      (a : Answer) (c : Client R) (before : List Exchange) (x : Exchange)
      → c.said ≡ before ++ x ∷ []
      → answer x ≡ a
      → Blamed (extended net (expected 250 a, c))
  extended-Blamed (broken text) c before x said e = tt
  extended-Blamed (answered code msg) c before x said e = elim (Bool-cases (accepts 250 code)) [
    | inl fine ↦ rw fine tt
    | inr wrong ↦ rw wrong (before, x, said, e)
  ]

  pub extended-Greeted :
      (reply : Reply) (c : Client R) → Greeted c → Greeted (extended net (reply, c)).1
  extended-Greeted (missed e) c g = g
  extended-Greeted (done code msg) c g = record { did_hello = g.did_hello; no_error = g.no_error }

  pub ehlo-Greeted : (c : Client R) → Greeted c → Greeted (ehlo net c).1
  unfolding ehlo cmd
  ehlo-Greeted c g =
      let line = codes "EHLO " ++ c.local_name in
      let (a, r) = net.ask line c.remote in
      let d = record c { remote = r; said = c.said ++ command line a ∷ [] } in
      extended-Greeted (expected 250 a) d
        (record { did_hello = g.did_hello; no_error = g.no_error })

  pub ehlo-Fine : (c : Client R) → Greeted c → Fine (ehlo net c)
  unfolding ehlo cmd
  ehlo-Fine c g =
      let line = codes "EHLO " ++ c.local_name in
      let (a, r) = net.ask line c.remote in
      let d = record c { remote = r; said = c.said ++ command line a ∷ [] } in
      Blamed-Fine (ehlo net c) (extended-Blamed a d c.said (command line a) refl refl)
        (ehlo-Greeted c g)

  pub with_error-Fine :
      (f : Option ClientError) (d : Client R)
      → Greeted d
      → Blamed (f, d)
      → Fine (f, record d { hello_error = f })
  with_error-Fine none d g b = record { did_hello = g.did_hello; no_error = refl }
  with_error-Fine (some (refused code msg)) d g b = b
  with_error-Fine (some (failed text)) d g b = tt

  pub or_helo-Fine : (p : Option ClientError × Client R) → Greeted p.1 → Fine (or_helo net p)
  unfolding helo
  or_helo-Fine (none, c) g = none-Fine c.hello_error c g.no_error g
  or_helo-Fine (some e, c) g =
      let c' = record c { ext = none } in
      let line = codes "HELO " ++ c.local_name in
      with_error-Fine _ _
        (cmd_error-Greeted 250 line c' (record { did_hello = g.did_hello; no_error = g.no_error }))
        (cmd_error-Blamed 250 line c')

  pub hello_new-Fine :
      (c : Client R) → c.hello_error ≡ none → c.did_hello ≡ false → Fine (hello net c)
  unfolding hello
  hello_new-Fine c e new =
      let c' = record c { did_hello = true } in
      rw new
        (or_helo-Fine (ehlo net c') (ehlo-Greeted c' (record { did_hello = refl; no_error = e })))

  pub hello_again : (c : Client R) → Greeted c → hello net c ≡ (none, c)
  unfolding hello
  hello_again c g = rw (g.did_hello, g.no_error) refl

  pub hello-Fine : (c : Client R) → Greeted c → Fine (hello net c)
  hello-Fine c g = rw (hello_again c g) g
