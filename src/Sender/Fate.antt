-- ===== src/Sender/Fate.antt =====
-- `SendMail` as a whole: each attempt settles what becomes of its message, and gives its place in
-- the limiter back.
use smtprelay.Base.{
  ◌+◌, ◌-◌, ◌≤◌, ◌<◌, ◌≡◌, ◌∙◌, ◌⊎◌, inl, inr, pos, negsuc, true, false, Option, none, some, List,
  [], ◌∷◌, ◌++◌, arith, append_assoc, leb, Bool-cases, Option-cases, length, Bytes,
}
use smtprelay.Base.Outcome.{ok}
use smtprelay.Status.{parse_outcoming_error, is_permanent}
use smtprelay.Config.{Conf}
use smtprelay.Stats.{
  mail_sent_increase_counter, mail_senders_increase_counter, mail_senders_decrease_counter,
}
use smtprelay.Queue.{QueueEntry, Relay, max_error_buffer_size}
use smtprelay.Dkim.{DkimLibrary, Key}
use smtprelay.Sender.{Outside, text_of, next_server, deferred, failed, attempt, send_mail}
use smtprelay.Sender.Attempt.{
  Untouched, Sent, Dropped, Deferred, failed_permanent, failed_limit, failed_transient,
}

-- The globals after `SendMail`, apart from what the message's fate changes: the place in the limiter
-- is free, and the counter of the senders went up and down.
pub record Released (r r' : Relay) : Type 0 where
  pub mail_queue : r'.mail_queue ≡ r.mail_queue
  pub handlers : r'.stats.mail_handlers_channel ≡ r.stats.mail_handlers_channel
  pub senders :
      r'.stats.mail_senders_channel ≡ r.stats.mail_senders_channel ++ pos 1 ∷ negsuc 0 ∷ []
  pub sender_limiter : r'.sender_limiter + 1 ≡ r.sender_limiter
  pub tcp_handlers_limiter : r'.tcp_handlers_limiter ≡ r.tcp_handlers_limiter
  pub tcp_connections_limiter : r'.tcp_connections_limiter ≡ r.tcp_connections_limiter

module _ {C S : Type 0} (lib : DkimLibrary C S) (repo : List (Bytes × Key C S)) (conf : Conf)
    (out : Outside) (entry : QueueEntry) where
  -- The remote server's answer to this attempt.
  abbrev pub answer : Option Bytes
  answer =
      out.smtp_send entry.mail_server entry.sender entry.recipients (text_of lib repo conf entry)
        conf.server_host_name

  -- Sent if there was no error.
  abbrev pub WasSent : Relay → Relay → Type 0
  WasSent r r' = (answer ≡ none) × Sent r r'

  -- Dropped for a permanent error, or for one that brings the counter to the limit.
  abbrev pub WasDropped : Relay → Relay → Type 0
  WasDropped r r' =
      (text : Bytes) × (answer ≡ some text)
      × ((is_permanent (parse_outcoming_error text) ≡ true)
          ⊎ (conf.deferred_mail_max_errors ≤ entry.error_count + 1))
      × Dropped r r'

  -- Deferred for any other error, with the server that was found for the next attempt.
  abbrev pub WasDeferred : Relay → Relay → Type 0
  WasDeferred r r' =
      (text : Bytes) × (server : Bytes) × (answer ≡ some text)
      × (is_permanent (parse_outcoming_error text) ≡ false)
      × (entry.error_count + 1 < conf.deferred_mail_max_errors)
      × (next_server lib repo conf out entry (entry.error_count + 1) ≡ ok server)
      × Deferred (deferred lib repo conf out entry (parse_outcoming_error text) server) r r'

  abbrev pub Settled : Relay → Relay → Type 0
  Settled r r' = WasSent r r' ⊎ (WasDropped r r' ⊎ WasDeferred r r')

  attempt-failed :
      (r : Relay) (text : Bytes)
      → answer ≡ some text
      → attempt lib repo conf out entry r
        ≡ failed lib repo conf out entry (parse_outcoming_error text) r
  unfolding attempt
  attempt-failed r text a = rw (a, attempt)

  attempt_lem :
      (r : Relay)
      → length r.error_queue < max_error_buffer_size
      → (r' : Relay) × (attempt lib repo conf out entry r ≡ (ok tt, r'))
        × Untouched r r'
        × Settled r r'
  attempt_lem r room = elim (Option-cases answer) [
    | inl a ↦ (
      record r { stats = mail_sent_increase_counter 1 r.stats },
      unfold attempt in rw (a, attempt),
      unfold mail_sent_increase_counter in ground arith,
      inl (a, unfold mail_sent_increase_counter in ground arith),
    )
    | inr (text, a) ↦
        let e = parse_outcoming_error text in
        elim (Bool-cases (is_permanent e)) [
          | inl permanent ↦
              let (r', run, same, gone) = failed_permanent lib repo conf out entry r e permanent in
              (r', attempt-failed r text a ∙ run, same, inr (inl (text, a, inl permanent, gone)))
          | inr transient ↦
              elim (Bool-cases (leb conf.deferred_mail_max_errors (entry.error_count + 1))) [
                | inl limit ↦
                    let (r', run, same, gone) =
                      failed_limit lib repo conf out entry r e (ground arith) in
                    (
                      r',
                      attempt-failed r text a ∙ run,
                      same,
                      inr (inl (text, a, inr (ground arith), gone)),
                    )
                | inr below ↦
                    let (server, r', found, run, same, waits) =
                      failed_transient lib repo conf out entry r e transient (ground arith) room in
                    (
                      r',
                      attempt-failed r text a ∙ run,
                      same,
                      inr (inr (text, server, a, transient, ground arith, found, waits)),
                    )
              ]
        ]
  ]

  -- The clean-up of `SendMail`, on the globals that the attempt left.
  abbrev settled_relay : Relay → Relay
  settled_relay r = record r {
    stats = mail_senders_decrease_counter 1 r.stats;
    sender_limiter = r.sender_limiter - 1;
  }

  send_mail_run :
      (r r₁ : Relay)
      → attempt lib repo conf out entry
          (record r { stats = mail_senders_increase_counter 1 r.stats })
        ≡ (ok tt, r₁)
      → 0 < r₁.sender_limiter
      → send_mail lib repo conf out entry r ≡ (ok tt, settled_relay r₁)
  unfolding send_mail
  send_mail_run r r₁ run held = ground arith

  abbrev started : Relay → Relay
  started r = record r { stats = mail_senders_increase_counter 1 r.stats }

  settled_relay-Released :
      (r r₁ : Relay)
      → 0 < r.sender_limiter
      → Untouched (started r) r₁
      → Released r (settled_relay r₁)
  unfolding mail_senders_increase_counter mail_senders_decrease_counter
  settled_relay-Released r r₁ held same =
      ground (arith, append_assoc r.stats.mail_senders_channel (pos 1 ∷ []) (negsuc 0 ∷ []))

  settled_relay-Settled : (r r₁ : Relay) → Settled (started r) r₁ → Settled r (settled_relay r₁)
  unfolding mail_senders_increase_counter mail_senders_decrease_counter
  settled_relay-Settled r r₁ (inl (a, gone)) = inl (a, ground arith)
  settled_relay-Settled r r₁ (inr (inl (text, a, why, gone))) =
      inr (inl (text, a, why, ground arith))
  settled_relay-Settled r r₁ (inr (inr (text, server, a, e, below, found, waits))) =
      inr (inr (text, server, a, e, below, found, ground arith))

  -- An attempt always comes to an end, in one of three ways. Without an error the message is
  -- counted as sent. After an error that is permanent, or that brings the counter to the limit, it is
  -- counted as dropped. After any other error it goes to the end of the error queue, with the counter
  -- one higher, the error, the server for the next attempt and the time of that attempt, and all else
  -- kept. In each case the place in the limiter is given back, and the mail queue is not touched.
  pub send_mail_lem :
      (r : Relay)
      → 0 < r.sender_limiter
      → length r.error_queue < max_error_buffer_size
      → (r' : Relay) × (send_mail lib repo conf out entry r ≡ (ok tt, r'))
        × Released r r'
        × Settled r r'
  send_mail_lem r held room =
      let (r₁, run, same, fate) = attempt_lem (started r) room in
      (
        settled_relay r₁,
        send_mail_run r r₁ run (rw same.sender_limiter held),
        settled_relay-Released r r₁ held same,
        settled_relay-Settled r r₁ fate,
      )

  -- An entry that was flushed is tried once more and no more: its attempt ends with the message counted
  -- as sent, or as dropped for whatever error it met, and the error queue as it was.
  pub send_mail_flushed :
      (r : Relay)
      → entry.error_count ≡ conf.deferred_mail_max_errors
      → 0 < r.sender_limiter
      → length r.error_queue < max_error_buffer_size
      → (r' : Relay) × (send_mail lib repo conf out entry r ≡ (ok tt, r'))
        × (r'.error_queue ≡ r.error_queue)
        × (((answer ≡ none) × Sent r r') ⊎ ((text : Bytes) × (answer ≡ some text) × Dropped r r'))
  send_mail_flushed r last held room =
      let (r', run, free, fate) = send_mail_lem r held room in final r' run fate
    where
      final :
          (r' : Relay)
          → send_mail lib repo conf out entry r ≡ (ok tt, r')
          → Settled r r'
          → (r' : Relay) × (send_mail lib repo conf out entry r ≡ (ok tt, r'))
            × (r'.error_queue ≡ r.error_queue)
            × (((answer ≡ none) × Sent r r')
                ⊎ ((text : Bytes) × (answer ≡ some text) × Dropped r r'))
      final r' run (inl (a, done)) = (r', run, done.error_queue, inl (a, done))
      final r' run (inr (inl (text, a, why, gone))) =
          (r', run, gone.error_queue, inr (text, a, gone))
      final r' run (inr (inr (text, server, a, e, below, found, waits))) = absurd (omega arith)
