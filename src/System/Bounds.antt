-- ===== src/System/Bounds.antt =====
-- The error counters: a message is given up before its counter passes the limit.
use mathlib.Core.Path.{subst}
use smtprelay.Base.{
  ℕ, ◌≤◌, ◌<◌, ◌≡◌, ap, inl, inr, Option, none, some, List, [], ◌∷◌, ◌++◌, map, arith, All,
  All-append, length, length-append, Bytes,
}
use smtprelay.Base.Outcome.{ok}
use smtprelay.Config.{Conf}
use smtprelay.Queue.{
  QueueEntry, Relay, push_mail, pop_mail, extract_error, flush_errors, max_error_buffer_size,
}
use smtprelay.Queue.Flush.{forced, flush_errors_inv}
use smtprelay.Dkim.{DkimLibrary, Key}
use smtprelay.Sender.{Outside, send_mail}
use smtprelay.Sender.Fate.{send_mail_lem, Settled, Released}
use smtprelay.System.{
  System, init, Step, accept, pop, start, finish, extract, requeue, flush, refuse, Reach, here,
  next,
}
use smtprelay.System.Account.{Inv, Reach-Inv}

All-map_any {ℓ κ} :
    {A : Type ℓ} (P : A → Type κ) (f : A → A) (xs : List A) → ((x : A) → P (f x)) → All P (map f xs)
All-map_any P f [] h = tt
All-map_any P f (x ∷ xs) h = (h x, All-map_any P f xs h)

All-split {ℓ κ} :
    {A : Type ℓ} (P : A → Type κ) (xs ys : List A) → All P (xs ++ ys) → All P xs × All P ys
All-split P [] ys h = (tt, h)
All-split P (x ∷ xs) ys h = let (l, r) = All-split P xs ys h.1 in ((h.0, l), r)

module _ (limit : ℕ) where
  -- An entry that was deferred: at least one error, and fewer than the limit.
  abbrev pub IsDeferred : QueueEntry → Type 0
  IsDeferred e = (1 ≤ e.error_count) × (e.error_count < limit)

  -- An entry that may be tried.
  abbrev pub MayTry : QueueEntry → Type 0
  MayTry e = e.error_count ≤ limit

  abbrev pub Held : (QueueEntry → Type 0) → Option QueueEntry → Type 0
  Held P none = Unit
  Held P (some e) = P e

  -- The counters in the two queues.
  abbrev pub Counted : Relay → Type 0
  Counted r = All MayTry r.mail_queue × All IsDeferred r.error_queue

  pushed :
      (e : QueueEntry) (r r' : Relay)
      → push_mail e r ≡ (ok tt, r')
      → (r'.mail_queue ≡ r.mail_queue ++ e ∷ []) × (r'.error_queue ≡ r.error_queue)
  unfolding push_mail
  pushed e r r' h = ground arith

  push_mail-Counted :
      (e : QueueEntry) (r r' : Relay)
      → push_mail e r ≡ (ok tt, r')
      → MayTry e
      → Counted r
      → Counted r'
  push_mail-Counted e r r' h m c =
      let (q, errors) = pushed e r r' h in
      (rw q (All-append MayTry r.mail_queue (e ∷ []) c.0 (m, tt)), rw errors c.1)

  popped_head :
      (e : QueueEntry) (r r' : Relay)
      → pop_mail r ≡ (ok e, r')
      → (r.mail_queue ≡ e ∷ r'.mail_queue) × (r'.error_queue ≡ r.error_queue)
  unfolding pop_mail
  popped_head e r r' h = ground arith

  pop_mail-Counted :
      (e : QueueEntry) (r r' : Relay) → pop_mail r ≡ (ok e, r') → Counted r → MayTry e × Counted r'
  pop_mail-Counted e r r' h c =
      let (q, errors) = popped_head e r r' h in
      let all : All MayTry (e ∷ r'.mail_queue) = subst (All MayTry) q c.0 in
      (all.0, (all.1, rw errors c.1))

  extracted_head :
      (slept : ℕ → ℕ) (now later : ℕ) (e : QueueEntry) (r r' : Relay)
      → extract_error slept now r ≡ (ok (e, later), r')
      → (r.error_queue ≡ e ∷ r'.error_queue) × (r'.mail_queue ≡ r.mail_queue)
  unfolding extract_error
  extracted_head slept now later e r r' h = ground arith

  extract_error-Counted :
      (slept : ℕ → ℕ) (now later : ℕ) (e : QueueEntry) (r r' : Relay)
      → extract_error slept now r ≡ (ok (e, later), r')
      → Counted r
      → IsDeferred e × Counted r'
  extract_error-Counted slept now later e r r' h c =
      let (q, mails) = extracted_head slept now later e r r' h in
      let all : All IsDeferred (e ∷ r'.error_queue) = subst (All IsDeferred) q c.1 in
      (all.0, (rw mails c.0, all.1))

  flush_errors-Counted :
      (r r' : Relay) → flush_errors limit r ≡ (ok tt, r') → Counted r → Counted r'
  flush_errors-Counted r r' h c = rw (flush_errors_inv limit r r' h) (
    All-append MayTry r.mail_queue (map (forced limit) r.error_queue) c.0
        (All-map_any MayTry (forced limit) r.error_queue (λ e. omega arith)),
    tt,
  )

module _ {C S : Type 0} (lib : DkimLibrary C S) (repo : List (Bytes × Key C S)) (conf : Conf) where
  abbrev limit_of : ℕ
  limit_of = conf.deferred_mail_max_errors

  Settled-Counted :
      (out : Outside) (e : QueueEntry) (r s : Relay)
      → Released r s
      → Settled lib repo conf out e r s
      → Counted limit_of r
      → Counted limit_of s
  Settled-Counted out e r s free (inl (a, done)) c =
      (rw free.mail_queue c.0, rw done.error_queue c.1)
  Settled-Counted out e r s free (inr (inl (text, a, why, gone))) c =
      (rw free.mail_queue c.0, rw gone.error_queue c.1)
  Settled-Counted out e r s free (inr (inr (text, server, a, perm, below, found, waits))) c = (
    rw free.mail_queue c.0,
    rw waits.error_queue
        (All-append (IsDeferred limit_of) r.error_queue _ c.1 ((omega arith, below), tt)),
  )

  send_mail-Counted :
      (out : Outside) (e : QueueEntry) (r r' : Relay)
      → 0 < r.sender_limiter
      → length r.error_queue < max_error_buffer_size
      → send_mail lib repo conf out e r ≡ (ok tt, r')
      → Counted limit_of r
      → Counted limit_of r'
  send_mail-Counted out e r r' held room h c =
      let (s, run, free, fate) = send_mail_lem lib repo conf out e r held room in
      let same : s ≡ r' = ground arith in
      subst (Counted limit_of) same (Settled-Counted out e r s free fate c)

  -- The counters everywhere.
  pub record InLimits (s : System) : Type 0 where
    pub queues : Counted limit_of s.relay
    pub popped : Held limit_of (MayTry limit_of) s.popped
    pub flying : All (MayTry limit_of) s.flying
    pub held : Held limit_of (IsDeferred limit_of) s.held

  pub init-InLimits : InLimits init
  unfolding init
  init-InLimits = ground arith

  Step-InLimits :
      {s t : System} → Step lib repo conf s t → Inv lib repo conf s → InLimits s → InLimits t
  Step-InLimits {s} (accept e r fresh run same) v l =
      let q = push_mail-Counted limit_of e s.relay r run (omega arith) l.queues in
      rw same (record { queues = q; popped = l.popped; flying = l.flying; held = l.held })
  Step-InLimits (refuse same) v l =
      rw same (record { queues = l.queues; popped = l.popped; flying = l.flying; held = l.held })
  Step-InLimits {s} (pop e r empty run same) v l =
      let (m, q) = pop_mail-Counted limit_of e s.relay r run l.queues in
      rw same (record { queues = q; popped = m; flying = l.flying; held = l.held })
  Step-InLimits (start e waits free same) v l =
      let m : MayTry limit_of e = rw waits at l.popped in
      rw same (record { queues = l.queues; popped = tt; flying = (m, l.flying); held = l.held })
  Step-InLimits {s} (finish before after e out r flies room run same) v l =
      let all : All (MayTry limit_of) (before ++ e ∷ after) = rw flies at l.flying in
      let (first, rest) = All-split (MayTry limit_of) before (e ∷ after) all in
      let held : 0 < s.relay.sender_limiter =
        omega (arith, v.limited, ap length flies, length-append before (e ∷ after)) in
      let q = send_mail-Counted out e s.relay r held room run l.queues in
      rw same (record {
        queues = q;
        popped = l.popped;
        flying = All-append (MayTry limit_of) before after first rest.1;
        held = l.held;
      })
  Step-InLimits {s} (extract slept now later e r empty run same) v l =
      let (d, q) = extract_error-Counted limit_of slept now later e s.relay r run l.queues in
      rw same (record { queues = q; popped = l.popped; flying = l.flying; held = d })
  Step-InLimits {s} (requeue e r holds run same) v l =
      let d : IsDeferred limit_of e = rw holds at l.held in
      let q = push_mail-Counted limit_of e s.relay r run (omega arith) l.queues in
      rw same (record { queues = q; popped = l.popped; flying = l.flying; held = tt })
  Step-InLimits {s} (flush r run same) v l =
      let q = flush_errors-Counted limit_of s.relay r run l.queues in
      rw same (record { queues = q; popped = l.popped; flying = l.flying; held = l.held })

  -- As long as the configuration is not loaded again, in every reachable state no entry has an
  -- error counter above the limit, and every entry that waits in the error queue, or was taken from
  -- it and not yet pushed, has had at least one error and fewer than the limit.
  pub Reach-InLimits : {s : System} → Reach lib repo conf init s → InLimits s
  Reach-InLimits here = init-InLimits
  Reach-InLimits (next r st) = Step-InLimits st (Reach-Inv lib repo conf r) (Reach-InLimits r)
