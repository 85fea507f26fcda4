-- ===== src/Listener/Tcp/Emails.antt =====
-- What the loop over the messages of a packet does: each message by itself, whatever becomes of the
-- others.
use smtprelay.Base.{
  ℕ, suc, ◌+◌, ◌≤◌, ◌≡◌, refl, Bool, true, false, ◌||◌, some, List, [], ◌∷◌, ◌++◌, arith,
  append-nil, ltb, ◌==◌, if◌then◌else◌, Bool-cases, inl, inr, length, length-append, Bytes,
}
use smtprelay.Base.Outcome.{Outcome, ok, err, panicked, diverged, blocked, Returns}
use smtprelay.Message.{Msg, MessageError, domains, parse_message}
use smtprelay.Message.Parsing.{ats}
use smtprelay.Message.Ending.{parse_message-Returns}
use smtprelay.Config.{Conf}
use smtprelay.Stats.{mail_dropped_increase_counter}
use smtprelay.Packet.{EmailMessageWithByteArray}
use smtprelay.Queue.{QueueEntry, Relay, max_mail_buffer_size, ◌>>◌}
use smtprelay.Queue.Flush.{SameButMail, push_all_lem}
use smtprelay.Listener.{Inbound, Envelope}
use smtprelay.Listener.Tcp.{envelope_of, email_msg, email_parsed, email_step, process}
use smtprelay.Listener.Tcp.Routes.{Processed, Processed-trans, found, lost, one_dropped, build_lem}

module _ (inb : Inbound) (conf : Conf) where
  -- Whether a message is refused for its number of recipients.
  abbrev beyond : Envelope → Bool
  beyond env = ltb conf.max_recipients (length env.recipients) || length env.recipients == 0

  -- The entries for a parsed message, and how often it is counted as dropped.
  abbrev pub msg_entries : Envelope → Msg → List QueueEntry
  msg_entries env msg = if beyond env then [] else found inb conf env msg (inb.visit (domains msg))

  abbrev pub msg_drops : Envelope → Msg → ℕ
  msg_drops env msg = if beyond env then 1 else lost inb conf (inb.visit (domains msg))

  abbrev entries_of_outcome : Envelope → Outcome MessageError Msg → List QueueEntry
  entries_of_outcome env (ok msg) = msg_entries env msg
  entries_of_outcome env (err e) = []
  entries_of_outcome env panicked = []
  entries_of_outcome env diverged = []
  entries_of_outcome env blocked = []

  abbrev drops_of_outcome : Envelope → Outcome MessageError Msg → ℕ
  drops_of_outcome env (ok msg) = msg_drops env msg
  drops_of_outcome env (err e) = 1
  drops_of_outcome env panicked = 0
  drops_of_outcome env diverged = 0
  drops_of_outcome env blocked = 0

  -- The parsing of one message of a packet.
  abbrev pub parsed_email : Bytes → EmailMessageWithByteArray → Outcome MessageError Msg
  parsed_email id email =
      let env = envelope_of inb conf email in
      parse_message inb.mail id env.recipients env.sender env.body

  -- The entries for one message of a packet, and how often it is counted as dropped.
  abbrev pub email_entries : Bytes → EmailMessageWithByteArray → List QueueEntry
  email_entries id email = entries_of_outcome (envelope_of inb conf email) (parsed_email id email)

  abbrev pub email_drops : Bytes → EmailMessageWithByteArray → ℕ
  email_drops id email = drops_of_outcome (envelope_of inb conf email) (parsed_email id email)

  abbrev OutcomeEnds : Envelope → Outcome MessageError Msg → Relay → Type 0
  OutcomeEnds env o r =
      (r' : Relay) × (email_parsed inb conf env o r ≡ (ok tt, r'))
      × Processed (entries_of_outcome env o) (drops_of_outcome env o) r r'

  refused_ends : (r : Relay) → Processed [] 1 r (one_dropped inb conf r)
  unfolding one_dropped mail_dropped_increase_counter
  refused_ends r = ground (arith, append-nil r.mail_queue)

  msg_beyond :
      (env : Envelope) (msg : Msg) (r : Relay) → beyond env ≡ true → OutcomeEnds env (ok msg) r
  unfolding email_msg
  msg_beyond env msg r b =
      (one_dropped inb conf r, unfold one_dropped in rw b refl, rw b (refused_ends r))

  Processed-pushed :
      (es : List QueueEntry) (k : ℕ) (r s t : Relay)
      → Processed [] k r s
      → t.mail_queue ≡ s.mail_queue ++ es
      → SameButMail s t
      → Processed es k r t
  Processed-pushed es k r s t p q same = ground (arith, append-nil r.mail_queue)

  msg_within :
      (env : Envelope) (msg : Msg) (r : Relay)
      → beyond env ≡ false
      → length r.mail_queue + length (msg_entries env msg) ≤ max_mail_buffer_size
      → OutcomeEnds env (ok msg) r
  unfolding email_msg
  msg_within env msg r b room =
      let ds = inb.visit (domains msg) in
      let (s, run, p) = build_lem inb conf env msg ds r in
      let (t, pushed, q, same) =
        push_all_lem (found inb conf env msg ds) s
          (rw (p.mail_queue, append-nil r.mail_queue) (rw b at room)) in
      (
        t,
        rw (b, run) pushed,
        rw b (Processed-pushed (found inb conf env msg ds) (lost inb conf ds) r s t p q same),
      )

  outcome_lem :
      (env : Envelope) (o : Outcome MessageError Msg) (r : Relay)
      → Returns o
      → length r.mail_queue + length (entries_of_outcome env o) ≤ max_mail_buffer_size
      → OutcomeEnds env o r
  outcome_lem env (ok msg) r h room = elim (Bool-cases (beyond env)) [
    | inl b ↦ msg_beyond env msg r b
    | inr b ↦ msg_within env msg r b room
  ]
  outcome_lem env (err e) r h room =
      (one_dropped inb conf r, unfold one_dropped in refl, refused_ends r)
  outcome_lem env panicked r h room = absurd h
  outcome_lem env diverged r h room = absurd h
  outcome_lem env blocked r h room = absurd h

  -- The entries for all messages of a packet, from the round `i` on, and how often messages are counted
  -- as dropped.
  abbrev pub packet_entries : (ℕ → Bytes) → ℕ → List EmailMessageWithByteArray → List QueueEntry
  packet_entries ids i [] = []
  packet_entries ids i (email ∷ emails) =
      email_entries (ids i) email ++ packet_entries ids (suc i) emails

  abbrev pub packet_drops : (ℕ → Bytes) → ℕ → List EmailMessageWithByteArray → ℕ
  packet_drops ids i [] = 0
  packet_drops ids i (email ∷ emails) = email_drops (ids i) email + packet_drops ids (suc i) emails

  process_cons :
      (ids : ℕ → Bytes) (i : ℕ) (email : EmailMessageWithByteArray)
      (emails : List EmailMessageWithByteArray) (r s t : Relay)
      → email_step inb conf (ids i) email r ≡ (ok tt, s)
      → process inb conf ids (suc i) emails s ≡ (ok tt, t)
      → process inb conf ids i (email ∷ emails) r ≡ (ok tt, t)
  unfolding process
  process_cons ids i email emails r s t run rest = rw (◌>>◌, run) rest

  module _
      (has_at : (raw name addr : Bytes)
        → inb.mail.read_address raw ≡ some (name, addr)
        → 1 ≤ ats addr) where
    email_lem :
        (id : Bytes) (email : EmailMessageWithByteArray) (r : Relay)
        → length r.mail_queue + length (email_entries id email) ≤ max_mail_buffer_size
        → (r' : Relay) × (email_step inb conf id email r ≡ (ok tt, r'))
          × Processed (email_entries id email) (email_drops id email) r r'
    unfolding email_step
    email_lem id email r room =
        outcome_lem (envelope_of inb conf email) (parsed_email id email) r
          (parse_message-Returns inb.mail has_at id _ _ _) room

    -- Where the mail queue has room for all of them, the entries for the messages of a packet are added
    -- to it, message by message: for a message that parses and whose number of recipients is within the
    -- limits, one for each of its domains that has a server, in the order of the visit; for any other
    -- message, none. Each message that is refused as a whole is counted as dropped once, each domain
    -- without a server once more, and no message changes what becomes of another. The error queue and
    -- the limiters stay as they are. The loop comes to its end.
    pub process_lem :
        (ids : ℕ → Bytes) (i : ℕ) (emails : List EmailMessageWithByteArray) (r : Relay)
        → length r.mail_queue + length (packet_entries ids i emails) ≤ max_mail_buffer_size
        → (r' : Relay) × (process inb conf ids i emails r ≡ (ok tt, r'))
          × Processed (packet_entries ids i emails) (packet_drops ids i emails) r r'
    process_lem ids i [] r room = (
      r,
      unfold process in refl,
      ground (arith, append-nil r.mail_queue, append-nil r.stats.mail_dropped_channel),
    )
    process_lem ids i (email ∷ emails) r room =
        let es = email_entries (ids i) email in
        let more = packet_entries ids (suc i) emails in
        let sum : length (es ++ more) ≡ length es + length more = length-append es more in
        let (s, run, p) = email_lem (ids i) email r (omega arith) in
        let grown : length s.mail_queue ≡ length r.mail_queue + length es =
          rw p.mail_queue (length-append r.mail_queue es) in
        let (t, rest, q) = process_lem ids (suc i) emails s (omega arith) in
        (t, process_cons ids i email emails r s t run rest, Processed-trans p q)
