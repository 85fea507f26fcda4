-- ===== src/Client/Relayed.antt =====
-- `SendMail` of sender.go over the SMTP client: what the answers of a server do to a message.
use smtprelay.Base.{
  ℕ, ◌≤◌, ◌<◌, ◌≡◌, ap, inl, inr, true, false, Option, none, some, List, [], ◌∷◌, ◌++◌, Bytes,
  arith, length, is_space,
}
use smtprelay.Base.Outcome.{ok}
use smtprelay.Status.{parse_outcoming_error, is_permanent}
use smtprelay.Status.Answer.{answer_text, parse_outcoming_error_answer}
use smtprelay.Config.{Conf}
use smtprelay.Queue.{QueueEntry, Relay, max_error_buffer_size}
use smtprelay.Dkim.{DkimLibrary, Key}
use smtprelay.Sender.{Outside, text_of, send_mail}
use smtprelay.Sender.Attempt.{Dropped}
use smtprelay.Sender.Fate.{Settled, answer, send_mail_lem}
use smtprelay.Client.{ClientError, refused, failed, Network, Client}
use smtprelay.Client.Sending
use smtprelay.Client.Greeted.{Ended}
use smtprelay.Client.Refused.{send_mail_refused}

-- `Error()` of an error of the client.
abbrev pub error_text : ClientError → Bytes
error_text (refused code msg) = answer_text code msg
error_text (failed text) = text

abbrev pub text_if : {A : Type 0} → Option ClientError × A → Option Bytes
text_if (none, a) = none
text_if (some e, a) = some (error_text e)

module _ {R : Type 0} (net : Network R) (r₀ : R) where
  -- The outside of the sender, with the client for `smtp.SendMail`.
  unfoldable pub over_client : Outside → Outside
  over_client out = record out {
    smtp_send = λ server sender recipients text host.
        text_if (Sending.send_mail net server sender recipients text host r₀);
  }

  module _ {C S : Type 0} (lib : DkimLibrary C S) (repo : List (Bytes × Key C S)) (conf : Conf)
      (out : Outside) (entry : QueueEntry) where
    -- The run of the client for the entry.
    abbrev pub client_run : Option ClientError × Option (Client R)
    client_run =
        Sending.send_mail net entry.mail_server entry.sender entry.recipients
          (text_of lib repo conf entry) conf.server_host_name r₀

    -- Where the server, on a connection that was greeted, answers with a code from 500 to 599 and a text
    -- that does not end in white space, and the client fails with this answer, the message is counted as
    -- dropped and is not tried again; the answer is the one to the last thing that was sent.
    pub refusal-Dropped :
        (relay : Relay) (code d : ℕ) (msg : Bytes) (c : Client R)
        → client_run ≡ (some (refused code (msg ++ d ∷ [])), some c)
        → 500 ≤ code
        → code ≤ 599
        → is_space d ≡ false
        → 0 < relay.sender_limiter
        → length relay.error_queue < max_error_buffer_size
        → (relay' : Relay) × (send_mail lib repo conf (over_client out) entry relay
            ≡ (ok tt, relay'))
          × Dropped relay relay'
          × Ended code (msg ++ d ∷ []) c.said
    unfolding over_client
    refusal-Dropped relay code d msg c run low high word held room =
        let (relay', done, free, fate) =
          send_mail_lem lib repo conf (over_client out) entry relay held room in
        (relay', done, by_fate relay' fate, send_mail_refused net _ _ _ _ _ r₀ run)
      where
        told :
            answer lib repo conf (over_client out) entry ≡ some (answer_text code (msg ++ d ∷ []))
        told = ap text_if run

        permanent : is_permanent (parse_outcoming_error (answer_text code (msg ++ d ∷ []))) ≡ true
        permanent =
            let (read, iff) = parse_outcoming_error_answer code d msg (omega arith) word in
            ground (arith, iff)

        by_fate :
            (relay' : Relay)
            → Settled lib repo conf (over_client out) entry relay relay'
            → Dropped relay relay'
        by_fate relay' (inl (a, sent)) = cc
        by_fate relay' (inr (inl (text, a, why, gone))) = gone
        by_fate relay' (inr (inr (text, server, a, e, below, found, waits))) =
            cc (permanent, told, a, e)
