-- ===== src/Listener/Tcp/Limits.antt =====
-- `tcpHandler` as a whole: the response, the mail, and the places in the two limiters.
use smtprelay.Base.{
  ℕ, ◌+◌, ◌-◌, ◌≤◌, ◌<◌, ◌≡◌, refl, Bool, true, Option, none, some, List, [], ◌∷◌, arith,
  append-nil, length, Bytes,
}
use smtprelay.Base.Outcome.{Outcome, ok, err, panicked, diverged, blocked, Returns}
use smtprelay.Message.Parsing.{ats}
use smtprelay.Config.{Conf}
use smtprelay.Packet.{EmailMessageWithByteArray}
use smtprelay.Queue.{Relay, Exec, max_mail_buffer_size}
use smtprelay.Listener.{Inbound}
use smtprelay.Listener.Tcp.{
  Response, no_response, error_response, ok_response, acquire_handler, release_handler, respond,
  unpack, handle_payload, with_payload, with_size, tcp_handler,
}
use smtprelay.Listener.Tcp.Wire.{
  Conn, Codec, ReadError, eof, unexpected_eof, broken, read_meta_data, read_payload, read_full,
  checked_size,
}
use smtprelay.Listener.Tcp.Routes.{Processed}
use smtprelay.Listener.Tcp.Emails.{packet_entries, packet_drops, process_lem}

-- The place in `TCPConnectionsLimiter` was given back.
abbrev freed : Relay → Relay
freed r = record r { tcp_connections_limiter = r.tcp_connections_limiter - 1 }

respond_lem :
    (a : Response) (r : Relay) → 0 < r.tcp_connections_limiter → respond a r ≡ (ok a, freed r)
unfolding respond
respond_lem a r h = ground arith

checked_size-Returns : (conn : Conn) (o : Option ℕ) → Returns (checked_size conn o)
checked_size-Returns conn none = tt
checked_size-Returns conn (some n) = ground arith

pub read_meta_data-Returns : (codec : Codec) (conn : Conn) → Returns (read_meta_data codec conn)
unfolding read_meta_data
read_meta_data-Returns codec conn = ground arith

read_full-Returns :
    (n : ℕ) (ps : List Bytes) (ending : ReadError) (b : Bool) → Returns (read_full n ps ending b)
unfolding read_full
read_full-Returns n [] ending b = ground arith
read_full-Returns n (p ∷ ps) ending b =
    ground (arith, read_full-Returns (n - length p) ps ending true)

-- What a connection carries, apart from any effect: the response that it deserves, and the messages.
module _ (codec : Codec) where
  abbrev messages : Option (List EmailMessageWithByteArray) → List EmailMessageWithByteArray
  messages none = []
  messages (some emails) = emails

  abbrev carried_payload : Option Bytes → Response × List EmailMessageWithByteArray
  carried_payload none = (error_response, [])
  carried_payload (some payload) = (ok_response, messages (codec.unmarshal payload))

  abbrev carried_read : Outcome ReadError Bytes → Response × List EmailMessageWithByteArray
  carried_read (ok compressed) = carried_payload (codec.gunzip compressed)
  carried_read _ = (error_response, [])

  abbrev carried_size : Outcome ReadError (ℕ × Conn) → Response × List EmailMessageWithByteArray
  carried_size (ok (size, conn)) = carried_read (read_payload size conn)
  carried_size (err eof) = (no_response, [])
  carried_size _ = (error_response, [])

  abbrev pub carried : Conn → Response × List EmailMessageWithByteArray
  carried conn = carried_size (read_meta_data codec conn)

module _ (inb : Inbound) (conf : Conf) (codec : Codec) (ids : ℕ → Bytes)
    (has_at : (raw name addr : Bytes)
      → inb.mail.read_address raw ≡ some (name, addr)
      → 1 ≤ ats addr) where
  -- The mail queue has room for the entries of these messages.
  abbrev pub HasRoom : List EmailMessageWithByteArray → Relay → Type 0
  HasRoom emails r =
      length r.mail_queue + length (packet_entries inb conf ids 0 emails) ≤ max_mail_buffer_size

  -- The end of a handler that answers `c.0` and processes `c.1`.
  abbrev Serves : Exec Response → Response × List EmailMessageWithByteArray → Relay → Type 0
  Serves m c r =
      (r' : Relay) × (m r ≡ (ok c.0, r'))
      × Processed (packet_entries inb conf ids 0 c.1) (packet_drops inb conf ids 0 c.1) (freed r) r'

  Processed-nil : (r : Relay) → Processed [] 0 r r
  Processed-nil r = ground (arith, append-nil r.mail_queue, append-nil r.stats.mail_dropped_channel)

  respond-Serves :
      (a : Response) (r : Relay) → 0 < r.tcp_connections_limiter → Serves (respond a) (a, []) r
  respond-Serves a r h = (freed r, respond_lem a r h, Processed-nil (freed r))

  unpack_lem :
      (payload : Bytes) (o : Option (List EmailMessageWithByteArray)) (r : Relay)
      → codec.unmarshal payload ≡ o
      → HasRoom (messages codec o) r
      → (r' : Relay) × (unpack inb conf codec ids payload r ≡ (ok tt, r'))
        × Processed
            (packet_entries inb conf ids 0 (messages codec o))
            (packet_drops inb conf ids 0 (messages codec o))
            r
            r'
  unfolding unpack
  unpack_lem payload none r e room = (r, rw (e, unpack) refl, Processed-nil r)
  unpack_lem payload (some emails) r e room =
      let (r', run, p) = process_lem inb conf has_at ids 0 emails r room in
      (r', rw (e, unpack) run, p)

  payload_lem :
      (compressed : Bytes) (o : Option Bytes) (r : Relay)
      → codec.gunzip compressed ≡ o
      → 0 < r.tcp_connections_limiter
      → HasRoom (carried_payload codec o).1 r
      → Serves (handle_payload inb conf codec ids compressed) (carried_payload codec o) r
  unfolding handle_payload
  payload_lem compressed none r e h room =
      rw (e, handle_payload) (respond-Serves error_response r h)
  payload_lem compressed (some payload) r e h room =
      let (r', run, p) = unpack_lem payload (codec.unmarshal payload) (freed r) refl room in
      (r', rw (e, handle_payload, respond_lem ok_response r h, run) refl, p)

  with_payload_lem :
      (o : Outcome ReadError Bytes) (r : Relay)
      → Returns o
      → 0 < r.tcp_connections_limiter
      → HasRoom (carried_read codec o).1 r
      → Serves (with_payload inb conf codec ids o) (carried_read codec o) r
  with_payload_lem (ok compressed) r w h room =
      payload_lem compressed (codec.gunzip compressed) r refl h room
  with_payload_lem (err e) r w h room = respond-Serves error_response r h
  with_payload_lem panicked r w h room = absurd w
  with_payload_lem diverged r w h room = absurd w
  with_payload_lem blocked r w h room = absurd w

  read_payload-Returns : (size : ℕ) (conn : Conn) → Returns (read_payload size conn)
  unfolding read_payload
  read_payload-Returns size conn = read_full-Returns size conn.pieces conn.ending _

  pub with_size_lem :
      (o : Outcome ReadError (ℕ × Conn)) (r : Relay)
      → Returns o
      → 0 < r.tcp_connections_limiter
      → HasRoom (carried_size codec o).1 r
      → Serves (with_size inb conf codec ids o) (carried_size codec o) r
  with_size_lem (ok (size, conn)) r w h room =
      with_payload_lem (read_payload size conn) r (read_payload-Returns size conn) h room
  with_size_lem (err eof) r w h room = respond-Serves no_response r h
  with_size_lem (err unexpected_eof) r w h room = respond-Serves error_response r h
  with_size_lem (err broken) r w h room = respond-Serves error_response r h
  with_size_lem panicked r w h room = absurd w
  with_size_lem diverged r w h room = absurd w
  with_size_lem blocked r w h room = absurd w

  abbrev entered : Relay → Relay
  entered r = record r { tcp_handlers_limiter = r.tcp_handlers_limiter + 1 }

  abbrev left : Relay → Relay
  left r = record r { tcp_handlers_limiter = r.tcp_handlers_limiter - 1 }

  handler_run :
      (conn : Conn) (a : Response) (r s : Relay)
      → r.tcp_handlers_limiter < conf.tcp_max_handlers
      → 0 < s.tcp_handlers_limiter
      → with_size inb conf codec ids (read_meta_data codec conn) (entered r) ≡ (ok a, s)
      → tcp_handler inb conf codec ids conn r ≡ (ok a, left s)
  unfolding tcp_handler acquire_handler release_handler
  handler_run conn a r s free held run = ground arith

  -- A handler that finds a free place, and room in the mail queue for what its connection carries, comes
  -- to its end: it gives the response that the connection deserves, processes the messages that it
  -- carries, if it answered with success, and no others, and gives back its place among the handlers and
  -- the place of the connection, on every path.
  pub tcp_handler_lem :
      (conn : Conn) (r : Relay)
      → r.tcp_handlers_limiter < conf.tcp_max_handlers
      → 0 < r.tcp_connections_limiter
      → HasRoom (carried codec conn).1 r
      → (r' : Relay) × (tcp_handler inb conf codec ids conn r ≡ (ok (carried codec conn).0, r'))
        × Processed
            (packet_entries inb conf ids 0 (carried codec conn).1)
            (packet_drops inb conf ids 0 (carried codec conn).1)
            (record r { tcp_connections_limiter = r.tcp_connections_limiter - 1 })
            r'
  tcp_handler_lem conn r free h room =
      let (s, run, p) =
        with_size_lem (read_meta_data codec conn) (entered r) (read_meta_data-Returns codec conn) h
          room in
      (
        left s,
        handler_run conn (carried codec conn).0 r s free (rw p.tcp_handlers_limiter (omega arith))
            run,
        left_Processed s p,
      )
    where
      left_Processed :
          (s : Relay)
          → Processed
              (packet_entries inb conf ids 0 (carried codec conn).1)
              (packet_drops inb conf ids 0 (carried codec conn).1)
              (freed (entered r))
              s
          → Processed
              (packet_entries inb conf ids 0 (carried codec conn).1)
              (packet_drops inb conf ids 0 (carried codec conn).1)
              (freed r)
              (left s)
      left_Processed s p = ground arith
