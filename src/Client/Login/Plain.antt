-- ===== src/Client/Login/Plain.antt =====
-- PLAIN: `Auth` ends, and the password goes only where it may.
use smtprelay.Base.{
  ℕ, suc, ◌==◌, ◌≡◌, ◌⊎◌, ◌↔◌, refl, ap, sym, ◌∙◌, Bool, true, false, ◌&&◌, ◌||◌, Option, none,
  some, List, [], ◌∷◌, ◌++◌, Bytes, codes, eqb, Bool-cases, inl, inr, append_assoc, append-nil,
  arith,
}
use smtprelay.Client.{
  Answer, answered, broken, ClientError, refused, failed, done, Exchange, command, Network, Client,
  cmd, cmd_error, quit, and_next, expected, close,
}
use smtprelay.Client.Greeted.{Greeted, hello_again}
use smtprelay.Client.Login.{
  Auth, Base64, advertised, plain_response, plain_auth, auth_line, client_auth, auth_started,
  auth_greeted, auth_loop, abandon, decoded, move_of, abort, begins, declines,
}

-- `*` and QUIT.
abbrev pub Farewell : List Exchange → Type 0
Farewell said =
    (x : Answer) × (y : Answer) × (said ≡ command (codes "*") x ∷ command (codes "QUIT") y ∷ [])

module _ {R : Type 0} (net : Network R) where
  closed_said : (p : Option ClientError × Client R) → (and_next p (close net)).1.said ≡ p.1.said
  unfolding close
  closed_said (none, c) = refl
  closed_said (some e, c) = refl

  quit_said :
      (c : Client R)
      → Greeted c
      → (x : Answer) × ((quit net c).1.said ≡ c.said ++ command (codes "QUIT") x ∷ [])
  unfolding quit cmd_error cmd
  quit_said c g = (
    (net.ask (codes "QUIT") c.remote).0,
    rw (hello_again net c g) (closed_said (cmd_error net 221 (codes "QUIT") c)),
  )

  module _ (base64 : Base64) where
    abandon_said :
        (e : ClientError) (c : Client R)
        → Greeted c
        → (rest : List Exchange) × Farewell rest
          × ((abandon base64 net e c).1.said ≡ c.said ++ rest)
    unfolding cmd
    abandon_said e c g =
        let (x, r) = net.ask (codes "*") c.remote in
        let d : Client R = record c { remote = r; said = c.said ++ command (codes "*") x ∷ [] } in
        let (y, over) = quit_said d (record { did_hello = g.did_hello; no_error = g.no_error }) in
        (
          command (codes "*") x ∷ command (codes "QUIT") y ∷ [],
          (x, y, refl),
          over ∙ append_assoc c.said (command (codes "*") x ∷ []) (command (codes "QUIT") y ∷ []),
        )

    -- What is said behind the password, and when there is no error.
    abbrev pub Over : Answer → Option ClientError → List Exchange → List Exchange → Type 0
    Over a e before said =
        (rest : List Exchange) × (said ≡ before ++ rest)
        × ((rest ≡ []) ⊎ Farewell rest)
        × ((e ≡ none) ↔ ((msg : Bytes) × (a ≡ answered 235 msg)))

    module _ (identity username password host : Bytes) where
      abbrev plain : Auth
      plain = plain_auth identity username password host

      aborted-Over :
          (a : Answer) (x : ClientError) (d : Client R)
          → Greeted d
          → ((msg : Bytes) → ¬ (a ≡ answered 235 msg))
          → Over a (some x) d.said (abandon base64 net x d).1.said
      aborted-Over a x d g other =
          let (rest, bye, said) = abandon_said x d g in
          (rest, said, inr bye, ((λ h. cc), (λ (msg, h). elim (other msg h) [ ])))

      challenge_aborts :
          (msg : Bytes) (o : Option Bytes)
          → (x : ClientError) × (move_of plain (decoded base64 msg o) ≡ abort x)
      challenge_aborts msg none = (failed (base64.complaint msg), refl)
      challenge_aborts msg (some text) = (failed (codes "unexpected server challenge"), refl)

      -- Behind another answer than 235.
      refused-Over :
          (code : ℕ) (msg : Bytes) (k : ℕ) (d : Client R)
          → Greeted d
          → (code == 235) ≡ false
          → (e : Option ClientError) × (f : Client R) × (auth_loop base64 net plain
                (suc k)
                (done code msg, d)
              ≡ some (e, f))
            × Over (answered code msg) e d.said f.said
      unfolding auth_loop
      refused-Over code msg k d g wrong =
          let other : (m : Bytes) → ¬ (answered code msg ≡ answered 235 m) =
            λ m h. let same : code ≡ 235 = cc in ground (arith, same) in
          elim (Bool-cases (code == 334)) [
            | inl asked ↦
                let (x, aborts) = challenge_aborts msg (base64.decode msg) in
                rw (asked, aborts) (_, _, refl, aborted-Over (answered code msg) x d g other)
            | inr final ↦
                rw (final, wrong)
                  (_, _, refl, aborted-Over (answered code msg) (refused code msg) d g other)
          ]

      loop-Over :
          (a : Answer) (k : ℕ) (d : Client R)
          → Greeted d
          → (e : Option ClientError) × (f : Client R) × (auth_loop base64 net plain
                (suc k)
                (expected 0 a, d)
              ≡ some (e, f))
            × Over a e d.said f.said
      unfolding auth_loop
      loop-Over (broken text) k d g = (
        some (failed text),
        d,
        refl,
        ([], sym (append-nil d.said), inl refl, ((λ h. cc), (λ (msg, h). cc))),
      )
      loop-Over (answered code msg) k d g = elim (Bool-cases (code == 235)) [
        | inl fine ↦
            let same : code ≡ 235 = ground arith in
            rw same (
              none,
              d,
              refl,
              ([], sym (append-nil d.said), inl refl, ((λ h. (msg, refl)), (λ h. refl))),
            )
        | inr wrong ↦ refused-Over code msg k d g wrong
      ]

pub auth_begun :
    {R : Type 0} (net : Network R) (base64 : Base64) (a : Auth) (fuel : ℕ) (c : Client R)
    → Greeted c
    → client_auth base64 net a fuel c
      ≡ auth_started base64 net a fuel
          (a.start (record { name = c.server_name; tls = c.tls; auth = c.auth }))
          c
unfolding client_auth
auth_begun net base64 a fuel c g = ap (auth_greeted base64 net a fuel) (hello_again net c g)

-- The connection is with TLS or the server names PLAIN, and it is the server that is meant.
abbrev pub trusted : {R : Type 0} → Client R → Bytes → Bool
trusted c host = (c.tls || advertised c.auth) && eqb c.server_name host

start_cases :
    {R : Type 0} (identity username password host : Bytes) (c : Client R)
    → let begun =
        (plain_auth identity username password host).start
          (record { name = c.server_name; tls = c.tls; auth = c.auth }) in
      ((trusted c host ≡ false) × (text : Bytes) × (begun ≡ declines text))
      ⊎ ((trusted c host ≡ true)
          × (begun ≡ begins (codes "PLAIN") (plain_response identity username password)))
start_cases identity username password host c = elim (Bool-cases (eqb c.server_name host)) [
  | inl same ↦ elim (Bool-cases (c.tls || advertised c.auth)) [
    | inl open_to ↦ inr (ground arith, ground arith)
    | inr closed ↦ inl (ground arith, codes "unencrypted connection", ground arith)
  ]
  | inr other ↦ elim (Bool-cases (c.tls || advertised c.auth)) [
    | inl open_to ↦ inl (ground arith, codes "wrong host name", ground arith)
    | inr closed ↦ inl (ground arith, codes "unencrypted connection", ground arith)
  ]
]

-- The one command of PLAIN.
pub auth_trusted :
    {R : Type 0} (net : Network R) (base64 : Base64) (identity username password host : Bytes)
    (fuel : ℕ) (c : Client R)
    → Greeted c
    → trusted c host ≡ true
    → let plain = plain_auth identity username password host in
      client_auth base64 net plain fuel c
      ≡ auth_loop base64 net plain fuel (
          cmd net 0
            (auth_line base64 (codes "PLAIN") (plain_response identity username password))
            c)
auth_trusted net base64 identity username password host fuel c g trust =
    let plain : Auth = plain_auth identity username password host in
    elim (start_cases identity username password host c) [
      | inl (untrusted, text, declined) ↦ cc
      | inr (fine, begun) ↦
          auth_begun net base64 plain fuel c g
          ∙ ap (λ s. auth_started base64 net plain fuel s c) begun
    ]

-- Behind a greeting, `Auth` with PLAIN comes to its end on any fuel but 0, whatever the server
-- answers. Without TLS, if the server does not name PLAIN, or at another server than the one that
-- is meant, it is an error, and all that was sent is QUIT. Else AUTH with the encoded name and
-- password is sent once; behind it, nothing or `*` and QUIT; and there is no error if and only if
-- the answer to AUTH was 235.
pub client_auth-plain :
    {R : Type 0} (net : Network R) (base64 : Base64) (identity username password host : Bytes)
    (k : ℕ) (c : Client R)
    → Greeted c
    → (e : Option ClientError) × (d : Client R) × (client_auth base64 net
          (plain_auth identity username password host)
          (suc k)
          c
        ≡ some (e, d))
      × (((trusted c host ≡ false)
            × (text : Bytes) × (e ≡ some (failed text))
            × (x : Answer) × (d.said ≡ c.said ++ command (codes "QUIT") x ∷ []))
          ⊎ ((trusted c host ≡ true)
              × (a : Answer) × Over net base64 a e
                  (c.said
                    ++ command
                        (auth_line base64
                          (codes "PLAIN")
                          (plain_response identity username password))
                        a
                      ∷ [])
                  d.said))
unfolding cmd
client_auth-plain {R} net base64 identity username password host k c g =
    let plain : Auth = plain_auth identity username password host in
    elim (start_cases identity username password host c) [
      | inl (untrusted, text, declined) ↦
          let (x, said) = quit_said net c g in
          (
            some (failed text),
            (quit net c).1,
            auth_begun net base64 plain (suc k) c g
                ∙ ap (λ s. auth_started base64 net plain (suc k) s c) declined,
            inl (untrusted, text, refl, x, said),
          )
      | inr (fine, begun) ↦
          let line = auth_line base64 (codes "PLAIN") (plain_response identity username password) in
          let (a, r) = net.ask line c.remote in
          let d : Client R = record c { remote = r; said = c.said ++ command line a ∷ [] } in
          let (e, f, run, over) =
            loop-Over net base64 identity username password host a k d
              (record { did_hello = g.did_hello; no_error = g.no_error }) in
          (
            e,
            f,
            auth_trusted net base64 identity username password host (suc k) c g fine ∙ run,
            inr (fine, a, over),
          )
    ]
