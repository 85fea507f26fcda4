-- ===== src/Listener/Tcp/Serving.antt =====
-- The loop of `StartTCPServer`, with the handlers that it starts, as steps in any order.
use smtprelay.Base.{ℕ, [], ◌∷◌, suc, ◌+◌, ◌<◌, ◌≤◌, ◌≡◌, Bool, length, ◌==◌, Bytes}
use smtprelay.Base.Outcome.{ok}
use smtprelay.Config.{Conf}
use smtprelay.Packet.{EmailMessageWithByteArray}
use smtprelay.Queue.{Relay, Exec, defer, max_mail_buffer_size}
use smtprelay.Listener.{Inbound}
use smtprelay.Listener.Tcp.{Response, acquire_handler, release_handler, respond, process, with_size}
use smtprelay.Listener.Tcp.Wire.{Conn, Codec, read_meta_data}
use smtprelay.Listener.Tcp.Emails.{packet_entries}

-- The globals, how many handlers wait for a place, how many have one and have not answered yet, and how
-- many have answered, and so freed the place of their connection, and still work.
pub record Server : Type 0 where
  pub relay : Relay
  pub waiting : ℕ
  pub busy : ℕ
  pub working : ℕ

-- The new channels of `StartTCPServer`, with the rest of the globals as they are.
unfoldable pub open_server : Relay → Server
open_server r = record {
  relay = record r { tcp_handlers_limiter = 0; tcp_connections_limiter = 0 };
  waiting = 0;
  busy = 0;
  working = 0;
}

-- `TCPConnectionsLimiter <- 0`, once it has gone through.
abbrev pub with_connection : Relay → Relay
with_connection r = record r { tcp_connections_limiter = r.tcp_connections_limiter + 1 }

-- The test of `StopTCPListener`, at which it stops waiting.
unfoldable pub handlers_gone : Relay → Bool
handlers_gone r = r.tcp_handlers_limiter == 0

module _ (inb : Inbound) (conf : Conf) (codec : Codec) (ids : ℕ → Bytes) where
  -- `tcpHandler` after its first line.
  unfoldable pub serve_conn : Conn → Exec Response
  serve_conn conn = defer release_handler (with_size inb conf codec ids (read_meta_data codec conn))

  -- One step of the loop, of a handler, or of anything else.
  pub data ServerStep (s : Server) (t : Server) : Type 0 where
    -- `TCPConnectionsLimiter <- 0; go tcpHandler(conn)`
    connect :
        s.relay.tcp_connections_limiter < conf.tcp_max_connections
        → t ≡ record s { relay = with_connection s.relay; waiting = s.waiting + 1 }
        → ServerStep s t
    -- A handler gets its place.
    begin :
        (n : ℕ) (r : Relay)
        → s.waiting ≡ suc n
        → acquire_handler conf s.relay ≡ (ok tt, r)
        → t ≡ record s { relay = r; waiting = n; busy = s.busy + 1 }
        → ServerStep s t
    -- A handler answers, and the place of its connection is free.
    answer :
        (n : ℕ) (a : Response) (r : Relay)
        → s.busy ≡ suc n
        → respond a s.relay ≡ (ok a, r)
        → t ≡ record s { relay = r; busy = n; working = s.working + 1 }
        → ServerStep s t
    -- A handler that has answered processes one of its messages.
    work :
        (n i : ℕ) (email : EmailMessageWithByteArray) (r : Relay)
        → s.working ≡ suc n
        → length s.relay.mail_queue + length (packet_entries inb conf ids i (email ∷ []))
          ≤ max_mail_buffer_size
        → process inb conf ids i (email ∷ []) s.relay ≡ (ok tt, r)
        → t ≡ record s { relay = r }
        → ServerStep s t
    -- A handler that has answered comes to its end.
    finish :
        (n : ℕ) (r : Relay)
        → s.working ≡ suc n
        → release_handler s.relay ≡ (ok tt, r)
        → t ≡ record s { relay = r; working = n }
        → ServerStep s t
    -- Other goroutines do not touch the two limiters.
    elsewhere :
        (r : Relay)
        → r.tcp_handlers_limiter ≡ s.relay.tcp_handlers_limiter
        → r.tcp_connections_limiter ≡ s.relay.tcp_connections_limiter
        → t ≡ record s { relay = r }
        → ServerStep s t

  pub data Serving (r : Relay) : Server → Type 0 where
    opened : Serving r (open_server r)
    later : {s t : Server} → Serving r s → ServerStep s t → Serving r t
