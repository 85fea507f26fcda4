-- ===== src/Queue/Waiting.antt =====
-- `ExtractError` holds an entry back until its time.
use smtprelay.Base.{
  ℕ, zero, suc, ◌+◌, ◌≤◌, ◌<◌, ◌≡◌, refl, ◌⊎◌, inl, inr, List, ◌∷◌, arith, ltb, ltb→lt, Bool-cases,
}
use smtprelay.Base.Outcome.{ok}
use smtprelay.Queue.{QueueEntry, Relay, second, wait_until, extract_error}

-- A sleep of a second lasts a second at least.
abbrev pub IsSleep : (ℕ → ℕ) → Type 0
IsSleep slept = (t : ℕ) → t + second ≤ slept t

-- The time behind several sleeps.
abbrev pub after_sleeps : (ℕ → ℕ) → ℕ → ℕ → ℕ
after_sleeps slept zero now = now
after_sleeps slept (suc k) now = after_sleeps slept k (slept now)

-- The wait began at `now` and ended at `later`: at once, or behind some sleeps, where it was too early
-- before the last of them.
abbrev pub Waited : (ℕ → ℕ) → ℕ → ℕ → ℕ → Type 0
Waited slept unqueue now later =
    (later ≡ now)
    ⊎ ((k : ℕ) × (after_sleeps slept k now < unqueue) × (later ≡ slept (after_sleeps slept k now)))

one_round :
    (slept : ℕ → ℕ) (unqueue now later : ℕ)
    → now < unqueue
    → Waited slept unqueue (slept now) later
    → Waited slept unqueue now later
one_round slept unqueue now later early (inl e) = inr (0, early, e)
one_round slept unqueue now later early (inr (k, before, e)) = inr (suc k, before, e)

wait_until_lem :
    (slept : ℕ → ℕ) (fuel unqueue now : ℕ)
    → IsSleep slept
    → unqueue < fuel + now
    → 0 < fuel
    → (later : ℕ) × (wait_until slept fuel unqueue now ≡ ok later)
      × (unqueue ≤ later)
      × Waited slept unqueue now later
unfolding wait_until
wait_until_lem slept zero unqueue now sleeps h p = absurd (omega arith)
wait_until_lem slept (suc fuel) unqueue now sleeps h p = elim (Bool-cases (ltb now unqueue)) [
  | inr done ↦ (now, rw done, ground arith, inl refl)
  | inl early ↦
      let before : now < unqueue = ltb→lt now unqueue early in
      let (later, run, due, waited) =
        wait_until_lem slept fuel unqueue (slept now) sleeps (omega (arith, sleeps now))
          (omega (arith, sleeps now, before)) in
      (later, rw early run, due, one_round slept unqueue now later before waited)
]

extract_error_run :
    (slept : ℕ → ℕ) (now later : ℕ) (r : Relay) (entry : QueueEntry) (rest : List QueueEntry)
    → r.error_queue ≡ entry ∷ rest
    → wait_until slept (suc entry.unqueue_time) entry.unqueue_time now ≡ ok later
    → extract_error slept now r ≡ (ok (entry, later), record r { error_queue = rest })
unfolding extract_error
extract_error_run slept now later r entry rest e run = ground arith

-- Where a sleep lasts a second at least, the oldest deferred entry is handed over, and not before its
-- `UnqueueTime`: at once if that has come, and else behind as many sleeps, one after the other, as it
-- takes for it to come, before the last of which it had not come.
pub extract_error_lem :
    (slept : ℕ → ℕ) (now : ℕ) (r : Relay) (entry : QueueEntry) (rest : List QueueEntry)
    → IsSleep slept
    → r.error_queue ≡ entry ∷ rest
    → (later : ℕ) × (extract_error slept now r
        ≡ (ok (entry, later), record r { error_queue = rest }))
      × (entry.unqueue_time ≤ later)
      × Waited slept entry.unqueue_time now later
extract_error_lem slept now r entry rest sleeps e =
    let (later, run, due, waited) =
      wait_until_lem slept (suc entry.unqueue_time) entry.unqueue_time now sleeps (omega arith)
        (omega arith) in
    (later, extract_error_run slept now later r entry rest e run, due, waited)
