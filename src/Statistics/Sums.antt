-- ===== src/Statistics/Sums.antt =====
-- The numbers of a report add up.
use smtprelay.Base.{
  ℕ, ◌+◌, ◌<◌, ◌≡◌, refl, ◌∙◌, inl, inr, ℤ, pos, ◌+ℤ◌, List, [], ◌∷◌, arith, All, All-append,
  length, length-append, ap, Bytes,
}
use smtprelay.Base.Outcome.{ok}
use mathlib.Core.Path.{subst}
use smtprelay.Config.{Conf}
use smtprelay.Stats.{
  add_values, mail_queue_check_max, init_statistics, mail_dropped_increase_counter,
}
use smtprelay.Queue.{
  QueueEntry, Relay, push_mail, pop_mail, extract_error, flush_errors, max_error_buffer_size,
}
use smtprelay.Queue.Flush.{flush_errors_inv}
use smtprelay.Dkim.{DkimLibrary, Key}
use smtprelay.Sender.{Outside, send_mail}
use smtprelay.Sender.Fate.{send_mail_lem, Settled}
use smtprelay.System.{
  System, init, Step, accept, pop, start, finish, extract, requeue, flush, refuse, Reach, here,
  next,
}
use smtprelay.System.Account.{Inv, Reach-Inv, flying_count}
use smtprelay.Statistics.{received, get_statistics}

-- A message is counted by a single 1.
abbrev IsOne : ℤ → Type 0
IsOne v = v ≡ pos 1

pos_add : (m n : ℕ) → pos m +ℤ pos n ≡ pos (m + n)
unfolding ◌+ℤ◌
pos_add m n = ground arith

add_values-IsOne :
    (n : ℕ) (vs : List ℤ) → All IsOne vs → add_values (pos n) vs ≡ pos (n + length vs)
unfolding add_values
add_values-IsOne n [] ones = ap pos (omega arith)
add_values-IsOne n (v ∷ vs) ones =
    rw (ones.0, pos_add n 1) (add_values-IsOne (n + 1) vs ones.1 ∙ ap pos (omega arith))

-- The two channels hold such values only.
record CountsOnes (r : Relay) : Type 0 where
  sent : All IsOne r.stats.mail_sent_channel
  dropped : All IsOne r.stats.mail_dropped_channel

-- These channels are as before.
abbrev SameCounts : Relay → Relay → Type 0
SameCounts r r' =
    (r'.stats.mail_sent_channel ≡ r.stats.mail_sent_channel)
    × (r'.stats.mail_dropped_channel ≡ r.stats.mail_dropped_channel)

push_mail-SameCounts :
    (e : QueueEntry) (r r' : Relay) → push_mail e r ≡ (ok tt, r') → SameCounts r r'
unfolding push_mail mail_queue_check_max
push_mail-SameCounts e r r' h = ground arith

pop_mail-SameCounts : (e : QueueEntry) (r r' : Relay) → pop_mail r ≡ (ok e, r') → SameCounts r r'
unfolding pop_mail
pop_mail-SameCounts e r r' h = ground arith

extract_error-SameCounts :
    (slept : ℕ → ℕ) (now later : ℕ) (e : QueueEntry) (r r' : Relay)
    → extract_error slept now r ≡ (ok (e, later), r')
    → SameCounts r r'
unfolding extract_error
extract_error-SameCounts slept now later e r r' h = ground arith

flush_errors-SameCounts : (k : ℕ) (r r' : Relay) → flush_errors k r ≡ (ok tt, r') → SameCounts r r'
flush_errors-SameCounts k r r' h = rw (flush_errors_inv k r r' h) (refl, refl)

SameCounts-CountsOnes : (r r' : Relay) → SameCounts r r' → CountsOnes r → CountsOnes r'
SameCounts-CountsOnes r r' (s, d) v = record { sent = rw s v.sent; dropped = rw d v.dropped }

module _ {C S : Type 0} (lib : DkimLibrary C S) (repo : List (Bytes × Key C S)) (conf : Conf) where
  Settled-CountsOnes :
      (out : Outside) (e : QueueEntry) (r s : Relay)
      → Settled lib repo conf out e r s
      → CountsOnes r
      → CountsOnes s
  Settled-CountsOnes out e r s (inl (a, done)) v = record {
    sent = rw done.sent (All-append IsOne r.stats.mail_sent_channel _ v.sent (refl, tt));
    dropped = rw done.dropped v.dropped;
  }
  Settled-CountsOnes out e r s (inr (inl (text, a, why, gone))) v = record {
    sent = rw gone.sent v.sent;
    dropped =
        rw gone.dropped (All-append IsOne r.stats.mail_dropped_channel _ v.dropped (refl, tt));
  }
  Settled-CountsOnes out e r s (inr (inr (text, server, a, perm, below, found, waits))) v = record {
    sent = rw waits.sent v.sent;
    dropped = rw waits.dropped v.dropped;
  }

  send_mail-CountsOnes :
      (out : Outside) (e : QueueEntry) (r r' : Relay)
      → 0 < r.sender_limiter
      → length r.error_queue < max_error_buffer_size
      → send_mail lib repo conf out e r ≡ (ok tt, r')
      → CountsOnes r
      → CountsOnes r'
  send_mail-CountsOnes out e r r' held room h v =
      let (s, run, free, fate) = send_mail_lem lib repo conf out e r held room in
      let same : s ≡ r' = ground arith in
      subst CountsOnes same (Settled-CountsOnes out e r s fate v)

  Step-CountsOnes :
      {s t : System}
      → Step lib repo conf s t
      → Inv lib repo conf s
      → CountsOnes s.relay
      → CountsOnes t.relay
  unfolding mail_dropped_increase_counter
  Step-CountsOnes {s} (accept e r fresh run same) i v =
      rw same (SameCounts-CountsOnes s.relay r (push_mail-SameCounts e s.relay r run) v)
  Step-CountsOnes {s} (refuse same) i v = rw same (record {
    sent = v.sent;
    dropped = All-append IsOne s.relay.stats.mail_dropped_channel _ v.dropped (refl, tt);
  })
  Step-CountsOnes {s} (pop e r empty run same) i v =
      rw same (SameCounts-CountsOnes s.relay r (pop_mail-SameCounts e s.relay r run) v)
  Step-CountsOnes {s} (start e waits free same) i v =
      rw same (SameCounts-CountsOnes s.relay _ (refl, refl) v)
  Step-CountsOnes {s} (finish before after e out r flies room run same) i v =
      let held : 0 < s.relay.sender_limiter =
        omega (arith, i.limited, ap length flies, length-append before (e ∷ after)) in
      rw same (send_mail-CountsOnes out e s.relay r held room run v)
  Step-CountsOnes {s} (extract slept now later e r empty run same) i v =
      rw same (
        SameCounts-CountsOnes s.relay r (extract_error-SameCounts slept now later e s.relay r run)
          v)
  Step-CountsOnes {s} (requeue e r holds run same) i v =
      rw same (SameCounts-CountsOnes s.relay r (push_mail-SameCounts e s.relay r run) v)
  Step-CountsOnes {s} (flush r run same) i v =
      rw same (SameCounts-CountsOnes s.relay r (flush_errors-SameCounts _ s.relay r run) v)

  Reach-CountsOnes : {s : System} → Reach lib repo conf init s → CountsOnes s.relay
  unfolding init init_statistics
  Reach-CountsOnes here = record { sent = tt; dropped = tt }
  Reach-CountsOnes (next r st) = Step-CountsOnes st (Reach-Inv lib repo conf r) (Reach-CountsOnes r)

  -- In every reachable state, once the counters have received all that was sent, the messages that are
  -- reported as sent, as dropped and as queued, with those under way, are all that were taken or refused.
  pub get_statistics_lem :
      (s : System)
      → Reach lib repo conf init s
      → (let q = get_statistics (received s.relay.stats) conf s.relay in
          q.mail_sent_since_last_restart
          +ℤ q.mail_dropped_since_last_restart
          +ℤ pos (q.overall_counter + flying_count s))
        ≡ pos (s.taken + s.refused)
  unfolding received get_statistics
  get_statistics_lem s r =
      let v = Reach-CountsOnes r in
      let sent = add_values-IsOne 0 s.relay.stats.mail_sent_channel v.sent in
      let dropped = add_values-IsOne 0 s.relay.stats.mail_dropped_channel v.dropped in
      rw (sent, dropped, pos_add, pos_add)
        (ap pos (omega (arith, (Reach-Inv lib repo conf r).conserved)))
