-- ===== src/Listener/Smtp/Accepting.antt =====
-- `StoppableListener` of smtplistener.go: connections are accepted until the listener is stopped.
use smtprelay.Base.{
  ℕ, ◌≡◌, refl, ◌⊎◌, inl, inr, Bool, true, false, ◌&&◌, Option, none, some, List, [], ◌∷◌, ◌++◌,
  arith, if◌then◌else◌, Bool-cases, Option-cases, Bytes, All,
}

-- An error of `TCPListener.Accept`, by whether it is a `net.Error` and by its two tests.
pub record AcceptError : Type 0 where
  pub text : Bytes
  pub is_net_error : Bool
  pub is_timeout : Bool
  pub is_temporary : Bool

-- What `TCPListener.Accept` gives: a connection, by its number, or an error.
pub data Accepted : Type 0 where
  new_conn : ℕ → Accepted
  failure : AcceptError → Accepted

-- One round of the loop: what is accepted within the deadline, and whether `stop` is closed by then.
pub record Round : Type 0 where
  pub accepted : Accepted
  pub is_stopped : Bool

-- What `Accept` returns.
pub data AcceptResult : Type 0 where
  connection : ℕ → AcceptResult
  stopped_error : AcceptResult
  other_error : AcceptError → AcceptResult

-- `ok && netErr.Timeout() && netErr.Temporary()`
is_pause : AcceptError → Bool
is_pause e = e.is_net_error && (e.is_timeout && e.is_temporary)

-- The end of a round that is not stopped: a result, or `none` for `continue`.
unfoldable pub returned : Accepted → Option AcceptResult
unfolding is_pause
returned (new_conn c) = some (connection c)
returned (failure e) = if is_pause e then none else some (other_error e)

-- `Accept`, with the rounds that are to come: the result and the rounds after it, or `none` while it
-- waits.
unfoldable pub accept_conn : List Round → Option (AcceptResult × List Round)
unfolding returned
accept_conn [] = none
accept_conn (r ∷ rounds) =
    let rest = accept_conn rounds in
    if r.is_stopped
    then some (stopped_error, rounds)
    else elim (returned r.accepted) [ none ↦ rest | some result ↦ some (result, rounds) ]

-- The time-out of a deadline: a `net.Error` that says it is a time-out and temporary.
abbrev pub TimedOut : AcceptError → Type 0
TimedOut e = (e.is_net_error ≡ true) × (e.is_timeout ≡ true) × (e.is_temporary ≡ true)

-- A round in which the deadline passes and nothing else.
abbrev pub IsQuiet : Round → Type 0
IsQuiet r = (r.is_stopped ≡ false) × ((e : AcceptError) × (r.accepted ≡ failure e) × TimedOut e)

-- A round that ends the call with this result.
abbrev pub Ends : Round → AcceptResult → Type 0
Ends r result =
    ((r.is_stopped ≡ true) × (result ≡ stopped_error))
    ⊎ ((r.is_stopped ≡ false)
        × (((c : ℕ) × (r.accepted ≡ new_conn c) × (result ≡ connection c))
            ⊎ ((e : AcceptError) × (r.accepted ≡ failure e)
                × (result ≡ other_error e)
                × ¬ TimedOut e)))

abbrev pub AcceptEnds : List Round → Type 0
AcceptEnds rounds =
    ((accept_conn rounds ≡ none) × All IsQuiet rounds)
    ⊎ ((quiet : List Round) × (r : Round) × (later : List Round) × (result : AcceptResult) × (rounds
          ≡ quiet ++ r ∷ later)
        × All IsQuiet quiet
        × Ends r result
        × (accept_conn rounds ≡ some (result, later)))

returned-none :
    (a : Accepted) → returned a ≡ none → (e : AcceptError) × (a ≡ failure e) × TimedOut e
unfolding returned is_pause
returned-none (new_conn c) h = absurd (ground arith)
returned-none (failure e) h = (e, refl, ground arith)

returned-some :
    (a : Accepted) (result : AcceptResult)
    → returned a ≡ some result
    → ((c : ℕ) × (a ≡ new_conn c) × (result ≡ connection c))
      ⊎ ((e : AcceptError) × (a ≡ failure e) × (result ≡ other_error e) × ¬ TimedOut e)
unfolding returned is_pause
returned-some (new_conn c) result h = inl (c, refl, ground arith)
returned-some (failure e) result h = inr (e, refl, ground arith, λ t. ground arith)

IsQuiet-returned : (r : Round) → IsQuiet r → returned r.accepted ≡ none
unfolding returned is_pause
IsQuiet-returned r (runs, (e, at, out)) = rw at (ground arith)

one_more :
    (r : Round) (rounds : List Round) → IsQuiet r → AcceptEnds rounds → AcceptEnds (r ∷ rounds)
unfolding accept_conn
one_more r rounds q (inl (waits, quiet)) = inl (ground (arith, IsQuiet-returned r q), (q, quiet))
one_more r rounds q (inr (quiet, s, later, result, split, all, ends, run)) = inr (
  r ∷ quiet,
  s,
  later,
  result,
  ground arith,
  (q, all),
  ends,
  ground (arith, IsQuiet-returned r q),
)

-- `Accept` passes over the rounds in which the listener is not stopped and the deadline passes, with an
-- error of the network that says it is a time-out and temporary, and ends at the first other one, for
-- whatever comes later: with `StoppedError` if the listener is stopped by then, also where a connection
-- came in that round, and else with the connection, or with the error, of that round. While there is
-- no such round, it waits.
pub accept_conn_lem : (rounds : List Round) → AcceptEnds rounds
unfolding accept_conn
accept_conn_lem [] = inl (refl, tt)
accept_conn_lem (r ∷ rounds) = elim (Bool-cases r.is_stopped) [
  | inl stops ↦ inr ([], r, rounds, stopped_error, refl, tt, inl (stops, refl), ground arith)
  | inr runs ↦ elim (Option-cases (returned r.accepted)) [
    | inl pause ↦ one_more r rounds (runs, returned-none r.accepted pause) (accept_conn_lem rounds)
    | inr (result, ends) ↦ inr (
      [],
      r,
      rounds,
      result,
      refl,
      tt,
      inr (runs, returned-some r.accepted result ends),
      ground arith,
    )
  ]
]
