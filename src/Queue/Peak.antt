-- ===== src/Queue/Peak.antt =====
-- The greatest length that the statistics report.
use smtprelay.Base.{
  ℕ, zero, suc, ◌+◌, ◌≤◌, ◌<◌, ◌≡◌, refl, sym, ◌∙◌, ℤ, pos, List, [], ◌∷◌, ◌++◌, arith, ap,
  append_assoc, append-nil, length, length-append,
}
use smtprelay.Base.Outcome.{ok}
use smtprelay.Stats.{max_values, mail_queue_check_max}
use smtprelay.Queue.Flush.{push_mail_lem}
use smtprelay.Queue.{QueueEntry, Relay, push_mail, push_all, max_mail_buffer_size, ◌>>◌}

-- The numbers from `k` on, `n` of them.
abbrev pub from_on : ℕ → ℕ → List ℤ
from_on k zero = []
from_on k (suc n) = pos k ∷ from_on (suc k) n

abbrev pub both_queues : Relay → ℕ
both_queues r = length r.error_queue + length r.mail_queue

push_mail_max :
    (e : QueueEntry) (r r' : Relay)
    → push_mail e r ≡ (ok tt, r')
    → (r'.stats.mail_max_queue_channel ≡ r.stats.mail_max_queue_channel ++ pos (both_queues r) ∷ [])
      × (both_queues r' ≡ suc (both_queues r))
unfolding push_mail mail_queue_check_max
push_mail_max e r r' h = ground (arith, length-append r.mail_queue (e ∷ []))

max_from_on : (n k c : ℕ) → c ≤ k → max_values (pos c) (from_on k (suc n)) ≡ pos (k + n)
unfolding max_values
max_from_on zero k c h = ground arith
max_from_on (suc n) k c h = ground (arith, max_from_on n (suc k) k)

push_all_max :
    (es : List QueueEntry) (r : Relay)
    → length r.mail_queue + length es ≤ max_mail_buffer_size
    → (r' : Relay) × (push_all es r ≡ (ok tt, r'))
      × (r'.stats.mail_max_queue_channel
          ≡ r.stats.mail_max_queue_channel ++ from_on (both_queues r) (length es))
      × (both_queues r' ≡ both_queues r + length es)
unfolding push_all
push_all_max [] r room = (r, refl, sym (append-nil r.stats.mail_max_queue_channel), omega arith)
push_all_max (e ∷ es) r room =
    let (s, run, q, same) = push_mail_lem e r (omega arith) in
    let (sent, grown) = push_mail_max e r s run in
    let longer : length s.mail_queue ≡ length r.mail_queue + 1 =
      rw q (length-append r.mail_queue (e ∷ [])) in
    let (t, rest, more, total) = push_all_max es s (omega arith) in
    (
      t,
      rw (◌>>◌, run) rest,
      more
          ∙ rw (sent, grown)
              (append_assoc r.stats.mail_max_queue_channel (pos (both_queues r) ∷ [])
                (from_on (suc (both_queues r)) (length es))),
      omega arith,
    )

-- When `n + 1` messages are pushed onto empty queues, and nothing is taken from them, they hold `n + 1`
-- messages in the end, and the greatest length that was reported is `n`.
pub peak_understated :
    (e : QueueEntry) (es : List QueueEntry) (r : Relay)
    → both_queues r ≡ 0
    → r.stats.mail_max_queue_channel ≡ []
    → length es < max_mail_buffer_size
    → (r' : Relay) × (push_all (e ∷ es) r ≡ (ok tt, r'))
      × (both_queues r' ≡ length es + 1)
      × (max_values (pos 0) r'.stats.mail_max_queue_channel ≡ pos (length es))
peak_understated e es r empty fresh room =
    let (r', run, sent, total) = push_all_max (e ∷ es) r (omega arith) in
    (
      r',
      run,
      omega arith,
      rw (sent, fresh, empty) (max_from_on (length es) 0 0 (omega arith) ∙ ap pos (omega arith)),
    )
