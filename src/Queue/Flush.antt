-- ===== src/Queue/Flush.antt =====
-- What pushing and flushing do to the queues.
use smtprelay.Base.{
  ltb, Bool-cases, inl, inr, ℕ, ◌+◌, ◌≤◌, ◌<◌, ◌≡◌, refl, ◌∙◌, sym, List, [], ◌∷◌, ◌++◌, map, arith,
  append_assoc, append-nil, length, length-append,
}
use smtprelay.Base.Outcome.{ok}
use smtprelay.Stats.{mail_queue_check_max}
use smtprelay.Queue.{
  QueueEntry, Relay, max_mail_buffer_size, send_mail_channel, push_mail, push_all, flush_from,
  flush_errors, ◌>>◌,
}

-- The globals that a push of mail leaves alone.
pub record SameButMail (r r' : Relay) : Type 0 where
  pub error_queue : r'.error_queue ≡ r.error_queue
  pub sent : r'.stats.mail_sent_channel ≡ r.stats.mail_sent_channel
  pub dropped : r'.stats.mail_dropped_channel ≡ r.stats.mail_dropped_channel
  pub handlers : r'.stats.mail_handlers_channel ≡ r.stats.mail_handlers_channel
  pub senders : r'.stats.mail_senders_channel ≡ r.stats.mail_senders_channel
  pub sender_limiter : r'.sender_limiter ≡ r.sender_limiter
  pub tcp_handlers_limiter : r'.tcp_handlers_limiter ≡ r.tcp_handlers_limiter
  pub tcp_connections_limiter : r'.tcp_connections_limiter ≡ r.tcp_connections_limiter

SameButMail-trans : {r s t : Relay} → SameButMail r s → SameButMail s t → SameButMail r t
SameButMail-trans h k = ground arith

pub push_mail_lem :
    (e : QueueEntry) (r : Relay)
    → length r.mail_queue < max_mail_buffer_size
    → (r' : Relay) × (push_mail e r ≡ (ok tt, r'))
      × (r'.mail_queue ≡ r.mail_queue ++ e ∷ [])
      × SameButMail r r'
unfolding push_mail
push_mail_lem e r room = (
  record r {
    mail_queue = r.mail_queue ++ e ∷ [];
    stats = mail_queue_check_max (length r.error_queue) (length r.mail_queue) r.stats;
  },
  ground arith,
  refl,
  ground arith,
)

-- Where there is room for all of them, the entries go to the end of the mail queue in their order,
-- and nothing else changes but the channel of the greatest length.
pub push_all_lem :
    (es : List QueueEntry) (r : Relay)
    → length r.mail_queue + length es ≤ max_mail_buffer_size
    → (r' : Relay) × (push_all es r ≡ (ok tt, r'))
      × (r'.mail_queue ≡ r.mail_queue ++ es)
      × SameButMail r r'
unfolding push_all
push_all_lem [] r room = (r, refl, sym (append-nil r.mail_queue), ground arith)
push_all_lem (e ∷ es) r room =
    let (r₁, run₁, q₁, same₁) = push_mail_lem e r (omega arith) in
    let grown : length r₁.mail_queue ≡ length r.mail_queue + 1 =
      rw q₁ (length-append r.mail_queue (e ∷ [])) in
    let (r₂, run₂, q₂, same₂) = push_all_lem es r₁ (omega arith) in
    (
      r₂,
      rw (◌>>◌, run₁) run₂,
      q₂ ∙ rw q₁ (append_assoc r.mail_queue (e ∷ []) es),
      SameButMail-trans same₁ same₂,
    )

-- What a flush makes of an entry.
abbrev pub forced : ℕ → QueueEntry → QueueEntry
forced max_errors e = record e { error_count = max_errors }

send_mail_channel_lem :
    (e : QueueEntry) (r : Relay)
    → length r.mail_queue < max_mail_buffer_size
    → send_mail_channel e r ≡ (ok tt, record r { mail_queue = r.mail_queue ++ e ∷ [] })
unfolding send_mail_channel
send_mail_channel_lem e r room = ground arith

flush_from_lem :
    (max_errors : ℕ) (es : List QueueEntry) (r : Relay)
    → r.error_queue ≡ es
    → length r.mail_queue + length es ≤ max_mail_buffer_size
    → flush_from max_errors es r ≡ (
      ok tt,
      record r { mail_queue = r.mail_queue ++ map (forced max_errors) es; error_queue = [] },
    )
unfolding flush_from
flush_from_lem max_errors [] r e room = ground (arith, append-nil r.mail_queue)
flush_from_lem max_errors (x ∷ es) r e room = ground (
  arith,
  send_mail_channel_lem (forced max_errors x) (record r { error_queue = es }),
  flush_from_lem max_errors es
      (record r { mail_queue = r.mail_queue ++ forced max_errors x ∷ []; error_queue = es }) refl,
  length-append r.mail_queue (forced max_errors x ∷ []),
  append_assoc r.mail_queue (forced max_errors x ∷ []) (map (forced max_errors) es),
)

-- Where the mail queue has room for all of them, a flush moves every deferred entry to its end, in
-- their order, with the error counter set to the limit and all else kept.
pub flush_errors_lem :
    (max_errors : ℕ) (r : Relay)
    → length r.mail_queue + length r.error_queue ≤ max_mail_buffer_size
    → flush_errors max_errors r ≡ (
      ok tt,
      record r {
        mail_queue = r.mail_queue ++ map (forced max_errors) r.error_queue;
        error_queue = [];
      },
    )
unfolding flush_errors
flush_errors_lem max_errors r room = flush_from_lem max_errors r.error_queue r refl room

flush_from_inv :
    (max_errors : ℕ) (es : List QueueEntry) (r r' : Relay)
    → r.error_queue ≡ es
    → flush_from max_errors es r ≡ (ok tt, r')
    → r' ≡ record r { mail_queue = r.mail_queue ++ map (forced max_errors) es; error_queue = [] }
unfolding flush_from
flush_from_inv max_errors [] r r' e h = ground (arith, append-nil r.mail_queue)
flush_from_inv max_errors (x ∷ es) r r' e h =
    elim (Bool-cases (ltb (length r.mail_queue) max_mail_buffer_size)) [
      | inl room ↦ ground (
        arith,
        send_mail_channel_lem (forced max_errors x) (record r { error_queue = es }),
        flush_from_inv max_errors es
            (record r { mail_queue = r.mail_queue ++ forced max_errors x ∷ []; error_queue = es })
            r' refl,
        append_assoc r.mail_queue (forced max_errors x ∷ []) (map (forced max_errors) es),
      )
      | inr full ↦ absurd (unfold send_mail_channel in ground arith)
    ]

-- A flush that comes to its end has moved every deferred entry.
pub flush_errors_inv :
    (max_errors : ℕ) (r r' : Relay)
    → flush_errors max_errors r ≡ (ok tt, r')
    → r' ≡ record r {
      mail_queue = r.mail_queue ++ map (forced max_errors) r.error_queue;
      error_queue = [];
    }
unfolding flush_errors
flush_errors_inv max_errors r r' h = flush_from_inv max_errors r.error_queue r r' refl h
