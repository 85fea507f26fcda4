-- ===== src/Smtpd/Relay.antt =====
-- The SMTP server as the relay starts it: `StartSMTPServer` of smtplistener.go, with `smtpHandler` as
-- the handler of the server.
pub mod Growing
use smtprelay.Base.{
  ℕ, pos, ◌≤◌, ◌<◌, ◌≡◌, refl, Bool, true, false, Option, none, some, List, Bytes, length, arith,
}
use smtprelay.Base.Outcome.{Outcome, ok, err, panicked, diverged, blocked}
use smtprelay.Status.{SmtpError}
use smtprelay.Config.{Conf}
use smtprelay.Queue.{Relay}
use smtprelay.Listener.{Inbound, Envelope}
use smtprelay.Listener.Smtp.{smtp_handler, handler_panic_processor}
use smtprelay.Smtpd.{Peer, Failure, smtp_error, Server, Wire, Session, Addr}
use smtprelay.Smtpd.Command.{call, deliver, world_after}
use smtprelay.Smtpd.Login.{Decoders}
use smtprelay.Smtpd.Serve.{configure_defaults, accept_session}
use smtprelay.Smtpd.Serve.Keeping.{Deliverable}
use smtprelay.Smtpd.Serve.Ending.{Over, accept_session_keeps}

-- What the server sees of the handler: whether it comes back, and with what error.
abbrev pub settled : Outcome SmtpError (Unit {0}) × Relay → Option (Option Failure) × Relay
settled (ok a, r) = (some none, r)
settled (err e, r) = (some (some (smtp_error e)), r)
settled (panicked, r) = (none, r)
settled (diverged, r) = (none, r)
settled (blocked, r) = (none, r)

-- `fresh` gives the identifier of each message.
module _ (inb : Inbound) (conf : Conf) (fresh : Peer → Envelope → Relay → Bytes) where
  unfoldable pub relay_handler : Peer → Envelope → Relay → Option (Option Failure) × Relay
  relay_handler peer env r =
      settled (handler_panic_processor (smtp_handler inb conf env (fresh peer env r)) r)

  -- `smtpServer`, a zero value of which `StartSMTPServer` sets four fields.
  unfoldable pub smtp_server : Server Relay
  smtp_server = record {
    hostname = conf.server_host_name;
    welcome_message = conf.welcome_message;
    read_timeout = 0;
    write_timeout = 0;
    data_timeout = 0;
    max_connections = pos conf.max_incoming_connections;
    max_message_size = 0;
    max_recipients = 0;
    handler = some relay_handler;
    connection_checker = none;
    helo_checker = none;
    sender_checker = none;
    recipient_checker = none;
    authenticator = none;
    enable_xclient = false;
    has_tls_config = false;
    force_tls = false;
  }

  -- The server behind `configureDefaults`.
  unfoldable pub running_server : Server Relay
  unfolding smtp_server configure_defaults
  running_server = let (fine, server) = configure_defaults smtp_server in server

  -- What a call of `smtpHandler` leaves of the globals.
  abbrev pub handled : Peer → Envelope → Relay → Relay
  handled peer env r = let (back, r') = relay_handler peer env r in r'

  handled-deliver :
      (peer : Peer) (env : Envelope) (r : Relay)
      → world_after (deliver running_server peer env r) ≡ handled peer env r
  unfolding running_server smtp_server configure_defaults deliver
  handled-deliver peer env r = call-world running_server (relay_handler peer env r)
    where
      call-world :
          (server : Server Relay) (o : Option (Option Failure) × Relay)
          → world_after (call server o) ≡ (let (back, r') = o in r')
      call-world server (none, w) = refl
      call-world server (some e, w) = refl

  -- Whatever a client sends to the relay, its session is closed in the end, or stops for ever in
  -- `smtpHandler`, where a full mail queue makes that wait; and what `smtpHandler` keeps on
  -- envelopes of 1 to 100 recipients with a text of fewer than 10240000 bytes, the session keeps,
  -- whatever `MaxRecipients` is in the configuration of the relay: no other envelope gets to the
  -- handler.
  pub relay_session_keeps :
      (decoders : Decoders) (P : Relay → Type 0)
      → ((peer : Peer) (env : Envelope) (r : Relay)
          → 1 ≤ length env.recipients
          → length env.recipients ≤ 100
          → length env.body < 10240000
          → P r
          → P (handled peer env r))
      → (n : ℕ) (addr : Addr) (wire : Wire) (r : Relay) → P r
      → (s : Session Relay) × (accept_session decoders running_server n addr wire r ≡ some s)
        × P s.world
        × Over s
  unfolding running_server smtp_server configure_defaults
  relay_session_keeps decoders P keeps n addr wire r p =
      accept_session_keeps decoders running_server P
        (λ peer env r fine q.
          rw (handled-deliver peer env r)
            (keeps peer env r fine.some_recipient fine.few_recipients fine.small q))
        n addr wire r p
