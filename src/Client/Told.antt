-- ===== src/Client/Told.antt =====
-- What the server has accepted when one call of the client succeeds.
use smtprelay.Base.{
  ℕ, ◌≡◌, ◌∙◌, ap, sym, refl, true, Option, none, some, List, [], ◌∷◌, ◌++◌, Bytes, codes,
  if◌then◌else◌, arith, append_assoc, append-nil,
}
use smtprelay.Client.{
  Answer, answered, broken, ClientError, Exchange, command, message, Network, Client, accepts,
  expected, error_of, and_next, cmd, cmd_error, mail, rcpt, close_data, close, quit, has_ext,
}
use smtprelay.Client.Sending.{rcpts, write}
use smtprelay.Client.Greeted.{Greeted, hello_again}

-- A command that was answered as expected.
abbrev pub Took : ℕ → Bytes → Exchange → Type 0
Took expect line x =
    (code : ℕ) × (msg : Bytes) × (x ≡ command line (answered code msg))
    × (accepts expect code ≡ true)

-- One accepted `RCPT` for each recipient, in order.
abbrev pub EachTook : List Bytes → List Exchange → Type 0
EachTook [] [] = Unit
EachTook (addr ∷ to) (x ∷ xs) = Took 25 (codes "RCPT TO:<" ++ addr ++ codes ">") x × EachTook to xs
EachTook to xs = ⊥

module _ {R : Type 0} where
  -- What a call said, with the state of the greeting unchanged.
  pub record Told (c d : Client R) (xs : List Exchange) : Type 0 where
    pub said : d.said ≡ c.said ++ xs
    pub did_hello : d.did_hello ≡ c.did_hello
    pub hello_error : d.hello_error ≡ c.hello_error

  pub Told-Greeted : {c d : Client R} {xs : List Exchange} → Told c d xs → Greeted c → Greeted d
  Told-Greeted t g = record {
    did_hello = t.did_hello ∙ g.did_hello;
    no_error = t.hello_error ∙ g.no_error;
  }

  pub Told-append :
      {c d e : Client R} {xs ys : List Exchange} → Told c d xs → Told d e ys → Told c e (xs ++ ys)
  Told-append {c} {xs = xs} {ys = ys} t u = record {
    said = u.said ∙ ap (λ l. l ++ ys) t.said ∙ append_assoc c.said xs ys;
    did_hello = u.did_hello ∙ t.did_hello;
    hello_error = u.hello_error ∙ t.hello_error;
  }

  pub and_next-none :
      (p : Option ClientError × Client R) (next : Client R → Option ClientError × Client R)
      {d : Client R}
      → and_next p next ≡ (none, d)
      → (c : Client R) × (p ≡ (none, c)) × (next c ≡ (none, d))
  and_next-none (none, c) next run = (c, refl, run)
  and_next-none (some e, c) next run = cc

-- An answer that is no error.
pub accepted :
    (expect : ℕ) (a : Answer)
    → error_of (expected expect a) ≡ none
    → (code : ℕ) × (msg : Bytes) × (a ≡ answered code msg) × (accepts expect code ≡ true)
accepted expect (broken text) e = cc
accepted expect (answered code msg) e = (code, msg, refl, ground arith)

module _ {R : Type 0} (net : Network R) where
  pub cmd_error-none :
      (expect : ℕ) (line : Bytes) (c : Client R) {d : Client R}
      → cmd_error net expect line c ≡ (none, d)
      → (x : Exchange) × Took expect line x × Told c d (x ∷ [])
  unfolding cmd_error cmd
  cmd_error-none expect line c run =
      let (a, r) = net.ask line c.remote in
      let (code, msg, answer, fine) = accepted expect a (ap (λ p. p.0) run) in
      (
        command line a,
        (code, msg, ap (command line) answer, fine),
        record {
          said = sym (ap (λ p. p.1.said) run);
          did_hello = sym (ap (λ p. p.1.did_hello) run);
          hello_error = sym (ap (λ p. p.1.hello_error) run);
        },
      )

  pub rcpts-none :
      (to : List Bytes) (c : Client R) {d : Client R}
      → rcpts net to c ≡ (none, d)
      → (xs : List Exchange) × EachTook to xs × Told c d xs
  unfolding rcpts rcpt
  rcpts-none [] c run = (
    [],
    tt,
    record {
      said = sym (append-nil c.said ∙ ap (λ p. p.1.said) run);
      did_hello = sym (ap (λ p. p.1.did_hello) run);
      hello_error = sym (ap (λ p. p.1.hello_error) run);
    },
  )
  rcpts-none (addr ∷ to) c run =
      let (b, first, rest) = and_next-none (rcpt net addr c) (rcpts net to) run in
      let (x, took, told) = cmd_error-none 25 _ c first in
      let (xs, each, more) = rcpts-none to b rest in (x ∷ xs, (took, each), Told-append told more)

  pub write-none :
      (text : Bytes) (c : Client R) {d : Client R} → write net text c ≡ (none, d) → Told c d []
  unfolding write
  write-none text c run = record {
    said = sym (append-nil c.said ∙ ap (λ p. p.1.said) run);
    did_hello = sym (ap (λ p. p.1.did_hello) run);
    hello_error = sym (ap (λ p. p.1.hello_error) run);
  }

  pub close_data-none :
      (text : Bytes) (c : Client R) {d : Client R}
      → close_data net text c ≡ (none, d)
      → (msg : Bytes) × Told c d (message text (answered 250 msg) ∷ [])
  unfolding close_data
  close_data-none text c run =
      let (a, r) = net.finish c.remote in
      let (code, msg, answer, fine) = accepted 250 a (ap (λ p. p.0) run) in
      let same : code ≡ 250 = ground arith in
      (
        msg,
        record {
          said =
              sym (ap (λ p. p.1.said) run)
              ∙ ap (λ x. c.said ++ message text x ∷ []) (answer ∙ ap (λ k. answered k msg) same);
          did_hello = sym (ap (λ p. p.1.did_hello) run);
          hello_error = sym (ap (λ p. p.1.hello_error) run);
        },
      )

  pub mail-none :
      (from : Bytes) (c : Client R) {d : Client R}
      → Greeted c
      → mail net from c ≡ (none, d)
      → (body : Bytes) × (x : Exchange) × Took 250
          (codes "MAIL FROM:<" ++ from ++ codes ">" ++ body)
          x
        × Told c d (x ∷ [])
  unfolding mail
  mail-none from c {d} g run =
      let body = if has_ext (codes "8BITMIME") c.ext then codes " BODY=8BITMIME" else [] in
      let same : cmd_error net 250 (codes "MAIL FROM:<" ++ from ++ codes ">" ++ body) c
          ≡ (none, d) =
        rw (hello_again net c g) at run in
      let (x, took, told) = cmd_error-none 250 _ c same in (body, x, took, told)

  pub quit-none :
      (c : Client R) {d : Client R}
      → Greeted c
      → quit net c ≡ (none, d)
      → (x : Exchange) × Took 221 (codes "QUIT") x × (d.said ≡ c.said ++ x ∷ [])
  unfolding quit close
  quit-none c {d} g run =
      let same : and_next (cmd_error net 221 (codes "QUIT") c) (close net) ≡ (none, d) =
        rw (hello_again net c g) at run in
      let (e, first, rest) = and_next-none (cmd_error net 221 (codes "QUIT") c) (close net) same in
      let (x, took, told) = cmd_error-none 221 _ c first in
      (x, took, sym (ap (λ p. p.1.said) rest) ∙ told.said)
