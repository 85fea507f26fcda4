-- ===== src/Listener/Tcp.antt =====
-- tcplistener.go: frames of compressed packets over a TCP connection.
pub mod Wire
pub mod Frames
pub mod Routes
pub mod Limits
pub mod Emails
pub mod Serving
pub mod Places
use smtprelay.Base.{
  ℕ, zero, suc, ◌+◌, ◌-◌, Bool, true, false, ◌||◌, Option, none, some, List, [], ◌∷◌, ltb, leb,
  ◌==◌, if◌then◌else◌, length, Bytes,
}
use smtprelay.Base.Outcome.{Outcome, ok, err, panicked, diverged, blocked}
use smtprelay.Status.{SmtpError}
use smtprelay.Dns.{MxError}
use smtprelay.Message.{Msg, MessageError, domains, parse_message}
use smtprelay.Config.{Conf}
use smtprelay.Stats.{mail_dropped_increase_counter}
use smtprelay.Packet.{EmailMessageWithByteArray, get_sender, get_recipients, get_eml_data}
use smtprelay.Queue.{QueueEntry, Relay, Exec, bind, ◌>>=◌, ◌>>◌, pure, count_stats, defer, push_all}
use smtprelay.Listener.{Inbound, Envelope, server_of_domain, entry_for}
use Wire.{Conn, ReadError, eof, unexpected_eof, broken, Codec, read_meta_data, read_payload}

-- What the client is sent before its connection is closed.
pub data Response : Type 0 where
  no_response error_response ok_response : Response

module _ (inb : Inbound) (conf : Conf) where
  -- `for domain, _ := range msg.RcptDomains { … }`: a domain without a server is counted as dropped, and
  -- the loop goes on.
  unfoldable pub build : Envelope → Msg → List Bytes → Exec (List QueueEntry)
  build env msg [] = pure []
  build env msg (domain ∷ ds) = elim (server_of_domain inb conf domain) [
    | ok server ↦ do
      entries ← build env msg ds
      pure (entry_for inb conf env msg domain server ∷ entries)
    | err e ↦ do count_stats (mail_dropped_increase_counter 1); build env msg ds
    | panicked ↦ λ r. (panicked, r)
    | diverged ↦ λ r. (diverged, r)
    | blocked ↦ λ r. (blocked, r)
  ]

  abbrev pub envelope_of : EmailMessageWithByteArray → Envelope
  envelope_of email = record {
    sender = get_sender email;
    recipients = get_recipients email;
    body = get_eml_data email;
  }

  unfoldable pub email_msg : Envelope → Msg → Exec (Unit {0})
  email_msg env msg =
      if ltb conf.max_recipients (length env.recipients) || length env.recipients == 0
      then count_stats (mail_dropped_increase_counter 1)
      else do entries ← build env msg (inb.visit (domains msg)); push_all entries

  abbrev pub email_parsed : Envelope → Outcome MessageError Msg → Exec (Unit {0})
  email_parsed env (ok msg) = email_msg env msg
  email_parsed env (err e) = count_stats (mail_dropped_increase_counter 1)
  email_parsed env panicked = λ r. (panicked, r)
  email_parsed env diverged = λ r. (diverged, r)
  email_parsed env blocked = λ r. (blocked, r)

  -- One round of the loop over `packet.Messages`; a `continue` is its end.
  unfoldable pub email_step : Bytes → EmailMessageWithByteArray → Exec (Unit {0})
  unfolding get_sender get_recipients get_eml_data
  email_step id email =
      let env = envelope_of email in
      email_parsed env (parse_message inb.mail id env.recipients env.sender env.body)

  -- The loop. `ids` gives the fresh identifier of each round.
  unfoldable pub process : (ℕ → Bytes) → ℕ → List EmailMessageWithByteArray → Exec (Unit {0})
  process ids i [] = pure tt
  process ids i (email ∷ emails) = do email_step (ids i) email; process ids (suc i) emails

-- `TCPHandlersLimiter <- 0`
unfoldable pub acquire_handler : Conf → Exec (Unit {0})
acquire_handler conf r =
    if ltb r.tcp_handlers_limiter conf.tcp_max_handlers
    then (ok tt, record r { tcp_handlers_limiter = r.tcp_handlers_limiter + 1 })
    else (blocked, r)

-- `<-TCPHandlersLimiter`
unfoldable pub release_handler : Exec (Unit {0})
release_handler r =
    if r.tcp_handlers_limiter == 0
    then (blocked, r)
    else (ok tt, record r { tcp_handlers_limiter = r.tcp_handlers_limiter - 1 })

-- `writeErrorResponse`, `writeSuccessResponse` and `closeNoResponse`: the response, the end of the
-- connection, and `<-TCPConnectionsLimiter`.
unfoldable pub respond : Response → Exec Response
respond response r =
    if r.tcp_connections_limiter == 0
    then (blocked, r)
    else (ok response, record r { tcp_connections_limiter = r.tcp_connections_limiter - 1 })

module _ (inb : Inbound) (conf : Conf) (codec : Codec) (ids : ℕ → Bytes) where
  -- After the success response.
  unfoldable pub unpack : Bytes → Exec (Unit {0})
  unpack payload = elim (codec.unmarshal payload) [
    | none ↦ pure tt
    | some emails ↦ process inb conf ids 0 emails
  ]

  -- With the compressed payload at hand.
  unfoldable pub handle_payload : Bytes → Exec Response
  handle_payload compressed = elim (codec.gunzip compressed) [
    | none ↦ respond error_response
    | some payload ↦ do answer ← respond ok_response; unpack payload; pure answer
  ]

  abbrev pub with_payload : Outcome ReadError Bytes → Exec Response
  with_payload (ok compressed) = handle_payload compressed
  with_payload (err e) = respond error_response
  with_payload panicked = λ r. (panicked, r)
  with_payload diverged = λ r. (diverged, r)
  with_payload blocked = λ r. (blocked, r)

  abbrev pub with_size : Outcome ReadError (ℕ × Conn) → Exec Response
  with_size (ok (size, conn)) = with_payload (read_payload size conn)
  with_size (err eof) = respond no_response
  with_size (err unexpected_eof) = respond error_response
  with_size (err broken) = respond error_response
  with_size panicked = λ r. (panicked, r)
  with_size diverged = λ r. (diverged, r)
  with_size blocked = λ r. (blocked, r)

  -- `tcpHandler`: the response that the client got.
  unfoldable pub tcp_handler : Conn → Exec Response
  tcp_handler conn = do
    acquire_handler conf
    defer release_handler (with_size (read_meta_data codec conn))
