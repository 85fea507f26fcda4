-- ===== src/Listener/Tcp/Places.antt =====
-- The places of the TCP server: how many are taken, and that each one is given back.
use smtprelay.Base.{ℕ, ◌+◌, ◌-◌, ◌<◌, ◌≤◌, ◌≡◌, [], ◌∷◌, true, some, arith, length, Bytes}
use smtprelay.Base.Outcome.{ok}
use smtprelay.Packet.{EmailMessageWithByteArray}
use smtprelay.Message.Parsing.{ats}
use smtprelay.Config.{Conf}
use smtprelay.Queue.{Relay, max_mail_buffer_size}
use smtprelay.Listener.{Inbound}
use smtprelay.Listener.Tcp.{Response, acquire_handler, release_handler, respond, process}
use smtprelay.Listener.Tcp.Wire.{Conn, Codec, read_meta_data}
use smtprelay.Listener.Tcp.Emails.{packet_entries, process_lem}
use smtprelay.Listener.Tcp.Limits.{carried, with_size_lem, read_meta_data-Returns}
use smtprelay.Listener.Tcp.Serving.{
  Server, open_server, handlers_gone, serve_conn, ServerStep, connect, begin, answer, work, finish,
  elsewhere, Serving, opened, later,
}

module _ (inb : Inbound) (conf : Conf) (codec : Codec) (ids : ℕ → Bytes)
    (has_at : (raw name addr : Bytes)
      → inb.mail.read_address raw ≡ some (name, addr)
      → 1 ≤ ats addr) where
  -- The limiters count the handlers.
  pub record Placed (s : Server) : Type 0 where
    pub connections : s.relay.tcp_connections_limiter ≡ s.waiting + s.busy
    pub handlers : s.relay.tcp_handlers_limiter ≡ s.busy + s.working
    pub few_connections : s.waiting + s.busy ≤ conf.tcp_max_connections
    pub few_handlers : s.busy + s.working ≤ conf.tcp_max_handlers

  acquired :
      (r r' : Relay)
      → acquire_handler conf r ≡ (ok tt, r')
      → (r'.tcp_handlers_limiter ≡ r.tcp_handlers_limiter + 1)
        × (r'.tcp_connections_limiter ≡ r.tcp_connections_limiter)
        × (r.tcp_handlers_limiter < conf.tcp_max_handlers)
  unfolding acquire_handler
  acquired r r' h = ground arith

  -- The mail queue has room for what a connection carries.
  abbrev pub HasRoomFor : Conn → Relay → Type 0
  HasRoomFor conn r =
      length r.mail_queue + length (packet_entries inb conf ids 0 (carried codec conn).1)
      ≤ max_mail_buffer_size

  serve_conn_lem :
      (conn : Conn) (r : Relay)
      → 0 < r.tcp_handlers_limiter
      → 0 < r.tcp_connections_limiter
      → HasRoomFor conn r
      → (r' : Relay) × (serve_conn inb conf codec ids conn r ≡ (ok (carried codec conn).0, r'))
        × (r'.tcp_handlers_limiter + 1 ≡ r.tcp_handlers_limiter)
        × (r'.tcp_connections_limiter + 1 ≡ r.tcp_connections_limiter)
  unfolding serve_conn release_handler
  serve_conn_lem conn r held placed room =
      let (s, run, p) =
        with_size_lem inb conf codec ids has_at (read_meta_data codec conn) r
          (read_meta_data-Returns codec conn) placed room in
      (
        record s { tcp_handlers_limiter = s.tcp_handlers_limiter - 1 },
        ground arith,
        ground arith,
        ground arith,
      )

  answered :
      (a : Response) (r r' : Relay)
      → respond a r ≡ (ok a, r')
      → (r'.tcp_connections_limiter + 1 ≡ r.tcp_connections_limiter)
        × (r'.tcp_handlers_limiter ≡ r.tcp_handlers_limiter)
  unfolding respond
  answered a r r' h = ground arith

  released :
      (r r' : Relay)
      → release_handler r ≡ (ok tt, r')
      → (r'.tcp_handlers_limiter + 1 ≡ r.tcp_handlers_limiter)
        × (r'.tcp_connections_limiter ≡ r.tcp_connections_limiter)
  unfolding release_handler
  released r r' h = ground arith

  worked :
      (i : ℕ) (email : EmailMessageWithByteArray) (r r' : Relay)
      → length r.mail_queue + length (packet_entries inb conf ids i (email ∷ []))
        ≤ max_mail_buffer_size
      → process inb conf ids i (email ∷ []) r ≡ (ok tt, r')
      → (r'.tcp_handlers_limiter ≡ r.tcp_handlers_limiter)
        × (r'.tcp_connections_limiter ≡ r.tcp_connections_limiter)
  worked i email r r' room h =
      let (s, run, p) = process_lem inb conf has_at ids i (email ∷ []) r room in
      let same : s ≡ r' = cc in
      ground (arith, same, p.tcp_handlers_limiter, p.tcp_connections_limiter)

  ServerStep-Placed : {s t : Server} → ServerStep inb conf codec ids s t → Placed s → Placed t
  ServerStep-Placed (connect free same) v = ground arith
  ServerStep-Placed {s} (begin n r waits run same) v = ground (arith, acquired s.relay r run)
  ServerStep-Placed {s} (answer n a r busy run same) v = ground (arith, answered a s.relay r run)
  ServerStep-Placed {s} (work n i email r busy room run same) v =
      ground (arith, worked i email s.relay r room run)
  ServerStep-Placed {s} (finish n r busy run same) v = ground (arith, released s.relay r run)
  ServerStep-Placed (elsewhere r handlers connections same) v = ground arith

  -- However connections are accepted, and handlers get places, answer, process their messages and
  -- end, the limiter of the connections counts the handlers that were started and have not
  -- answered, that of the handlers counts those that have a place, answered or not, and neither
  -- number is above its limit.
  pub Serving-Placed : (r : Relay) {s : Server} → Serving inb conf codec ids r s → Placed s
  unfolding open_server
  Serving-Placed r opened = ground arith
  Serving-Placed r (later run st) = ServerStep-Placed st (Serving-Placed r run)

  -- In every state that the server reaches, a handler that has a place and has not answered, and runs on
  -- from there alone, comes to its end with the response that its connection deserves, if the mail queue
  -- has room for what that carries: it does not wait for ever to give its places back.
  pub Serving-ends :
      (r : Relay) (s : Server) (conn : Conn)
      → Serving inb conf codec ids r s
      → 0 < s.busy
      → HasRoomFor conn s.relay
      → (r' : Relay) × (serve_conn inb conf codec ids conn s.relay
          ≡ (ok (carried codec conn).0, r'))
  Serving-ends r s conn run busy room =
      let v = Serving-Placed r run in
      let (r', ends, held, placed) =
        serve_conn_lem conn s.relay (omega (arith, v.handlers)) (omega (arith, v.connections))
          room in
      (r', ends)

  -- In every state in which `StopTCPListener` stops waiting, no handler has a place, neither one that has
  -- not answered nor one that still processes messages, and each connection that is still counted is
  -- one whose handler has not begun.
  pub handlers_gone_lem :
      (r : Relay) (s : Server)
      → Serving inb conf codec ids r s
      → handlers_gone s.relay ≡ true
      → (s.busy ≡ 0) × (s.working ≡ 0) × (s.relay.tcp_connections_limiter ≡ s.waiting)
  unfolding handlers_gone
  handlers_gone_lem r s run gone = ground (arith, Serving-Placed r run)
