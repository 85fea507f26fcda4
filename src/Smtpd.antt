-- ===== src/Smtpd.antt =====
-- smtpd/smtpd.go: the SMTP server, its sessions and what a session answers.
pub mod Input
pub mod Command
pub mod Login
pub mod Proxy
pub mod Serve
pub mod Relay
pub mod Listening
use smtprelay.Base.{
  ℕ, ◌+◌, ◌-◌, ◌*◌, ◌/◌, ◌%◌, ◌==◌, ltb, Bool, true, false, not, ◌&&◌, ◌||◌, Option, none, some,
  List, [], ◌∷◌, ◌++◌, ℤ, pos, if◌then◌else◌, Bytes, codes, length,
}
use smtprelay.Status.{SmtpError}
use smtprelay.Listener.{Envelope}

-- `Protocol`; a new peer has none.
pub data Protocol : Type 0 where
  no_protocol smtp esmtp : Protocol

-- `net.Addr`: a TCP address, or one of another network.
pub data Addr : Type 0 where
  tcp_addr : Bytes → ℕ → Addr
  other_addr : Addr

-- `tls` tells whether `TLS` is set.
pub record Peer : Type 0 where
  pub helo_name : Bytes
  pub username : Bytes
  pub password : Bytes
  pub protocol : Protocol
  pub server_name : Bytes
  pub addr : Addr
  pub tls : Bool

-- An `error`: one of the type `Error`, or another one by its text.
pub data Failure : Type 0 where
  smtp_error : SmtpError → Failure
  plain_error : Bytes → Failure

-- The fields of `Server`. A check gives its error, or `none`. The handler acts on a world `W`, and
-- gives `none` beside it if it never comes back. Times are counted in nanoseconds.
pub record Server (W : Type 0) : Type 0 where
  pub hostname : Bytes
  pub welcome_message : Bytes
  pub read_timeout : ℕ
  pub write_timeout : ℕ
  pub data_timeout : ℕ
  pub max_connections : ℤ
  pub max_message_size : ℕ
  pub max_recipients : ℕ
  pub handler : Option (Peer → Envelope → W → Option (Option Failure) × W)
  pub connection_checker : Option (Peer → Option Failure)
  pub helo_checker : Option (Peer → Bytes → Option Failure)
  pub sender_checker : Option (Peer → Bytes → Option Failure)
  pub recipient_checker : Option (Peer → Bytes → Option Failure)
  pub authenticator : Option (Peer → Bytes → Bytes → Option Failure)
  pub enable_xclient : Bool
  pub has_tls_config : Bool
  pub force_tls : Bool

-- What a connection delivers, in lines without their line ends: those in the buffer of the scanner,
-- those in the buffer of the reader, and those of each read to come. `handshakes` are the TLS
-- handshakes to come: whether each succeeds, and the reads behind it.
pub record Wire : Type 0 where
  pub scanned : List Bytes
  pub buffered : List Bytes
  pub network : List (List Bytes)
  pub handshakes : List (Bool × List (List Bytes))

-- A line that is sent: `more` for a dash behind the code.
pub record ReplyLine : Type 0 where
  pub code : ℤ
  pub more : Bool
  pub message : Bytes

-- Whether the goroutine goes on, waits for ever in the handler, or has panicked.
pub data Course : Type 0 where
  going hung panicked : Course

-- `session`, with what was sent and the world of the handler.
pub record Session (W : Type 0) : Type 0 where
  pub peer : Peer
  pub envelope : Option Envelope
  pub tls : Bool
  pub wire : Wire
  pub is_closed : Bool
  pub sent : List ReplyLine
  pub course : Course
  pub world : W

-- `strconv` of a number, with fuel that is above the number.
decimal_from : ℕ → ℕ → Bytes
decimal_from ℕ.zero n = []
decimal_from (ℕ.suc fuel) n =
    let rest = decimal_from fuel (n / 10) in
    let digit = (b'0' + n % 10) ∷ [] in if ltb n 10 then digit else rest ++ digit

unfoldable pub decimal : ℕ → Bytes
unfolding decimal_from
decimal n = decimal_from (n + 1) n

-- `if checker != nil { … }`
abbrev pub checked : {A : Type 0} → Option A → (A → Option Failure) → Option Failure
checked none f = none
checked (some check) f = f check

abbrev pub is_some : {A : Type 0} → Option A → Bool
is_some none = false
is_some (some a) = true

abbrev pub if_set : Bool → Bytes → List Bytes
if_set set ext = if set then ext ∷ [] else []

module _ {W : Type 0} where
  -- What is written after the connection was closed is lost.
  abbrev pub send : ReplyLine → Session W → Session W
  send line s = record s { sent = if s.is_closed then s.sent else s.sent ++ line ∷ [] }

  unfoldable pub reply : ℕ → Bytes → Session W → Session W
  reply code message s = send (record { code = pos code; more = false; message = message }) s

  -- `session.error`
  unfoldable pub report : Failure → Session W → Session W
  unfolding reply
  report (smtp_error e) s = send (record { code = e.code; more = false; message = e.message }) s
  report (plain_error text) s = reply 502 text s

  unfoldable pub reset : Session W → Session W
  reset s = record s { envelope = none }

  -- What was read before stays to be handled.
  unfoldable pub close : Session W → Session W
  close s = record s {
    is_closed = true;
    wire = record {
      scanned = s.wire.scanned;
      buffered = s.wire.buffered;
      network = [];
      handshakes = [];
    };
  }

  -- `reject`
  unfoldable pub reject : Session W → Session W
  unfolding reply close
  reject s = close (reply 421 (codes "Too busy. Try again later.") s)

  module _ (server : Server W) where
    -- `newSession`
    unfoldable pub new_session : Addr → Wire → W → Session W
    new_session addr wire w = record {
      peer = record {
        helo_name = [];
        username = [];
        password = [];
        protocol = no_protocol;
        server_name = server.hostname;
        addr = addr;
        tls = false;
      };
      envelope = none;
      tls = false;
      wire = wire;
      is_closed = false;
      sent = [];
      course = going;
      world = w;
    }

    abbrev pub welcomed : Option Failure → Session W → Session W
    welcomed none s = reply 220 server.welcome_message s
    welcomed (some e) s = close (report e s)

    unfoldable pub welcome : Session W → Session W
    unfolding report close reply
    welcome s = welcomed (checked server.connection_checker (λ check. check s.peer)) s

    unfoldable pub extensions : Session W → List Bytes
    unfolding decimal
    extensions s =
        (codes "SIZE " ++ decimal server.max_message_size)
          ∷ codes "8BITMIME"
          ∷ codes "PIPELINING"
          ∷ if_set server.enable_xclient (codes "XCLIENT")
        ++ if_set (server.has_tls_config && not s.tls) (codes "STARTTLS")
        ++ if_set (is_some server.authenticator && s.tls) (codes "AUTH PLAIN LOGIN")
