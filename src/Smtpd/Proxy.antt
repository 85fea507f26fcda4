-- ===== src/Smtpd/Proxy.antt =====
-- `handleXCLIENT` of smtpd/protocol.go.
use smtprelay.Base.{
  ℕ, ◌==◌, ltb, Option, none, some, List, [], ◌∷◌, if◌then◌else◌, Bytes, codes, eqb, length, split,
}
use smtprelay.Status.{unsigned}
use smtprelay.Smtpd.{
  Protocol, no_protocol, smtp, esmtp, Addr, tcp_addr, other_addr, Peer, Server, Session, reply,
  welcome,
}
use smtprelay.Smtpd.Login.{Decoders}

-- What the items of the command have given so far.
pub record Items : Type 0 where
  pub helo_name : Bytes
  pub ip : Option Bytes
  pub port : ℕ
  pub username : Bytes
  pub protocol : Protocol

abbrev pub no_items : Items
no_items = record { helo_name = []; ip = none; port = 0; username = []; protocol = no_protocol }

-- `strconv.ParseUint(value, 10, 16)`
unfoldable pub parse_port : Bytes → Option ℕ
unfolding unsigned
parse_port value = elim (unsigned value) [
  | none ↦ none
  | some n ↦ if ltb n 65536 then some n else none
]

abbrev pub protocol_of : Bytes → Protocol → Protocol
protocol_of value old =
    if eqb value (codes "SMTP") then smtp else if eqb value (codes "ESMTP") then esmtp else old

abbrev pub with_port : Option ℕ → Items → Option Items
with_port none items = none
with_port (some n) items = some (record items { port = n })

module _ (decoders : Decoders) where
  -- `switch name { … }`; `none` is a command that cannot be decoded.
  unfoldable pub item : Bytes → Bytes → Items → Option Items
  unfolding parse_port
  item name value items =
      if eqb name (codes "NAME")
      then some items
      else if eqb name (codes "HELO")
      then some (record items { helo_name = value })
      else if eqb name (codes "ADDR")
      then some (record items { ip = decoders.parse_ip value })
      else if eqb name (codes "PORT")
      then with_port (parse_port value) items
      else if eqb name (codes "LOGIN")
      then some (record items { username = value })
      else if eqb name (codes "PROTO")
      then some (record items { protocol = protocol_of value items.protocol })
      else none

  -- `parts := strings.Split(item, "=")`
  abbrev pub item_parts : List Bytes → Items → Option Items
  item_parts (name ∷ value ∷ []) items = item name value items
  item_parts parts items = none

  abbrev pub and_then : Option Items → (Items → Option Items) → Option Items
  and_then none k = none
  and_then (some items) k = k items

  -- `for _, item := range cmd.fields[1:] { … }`
  unfoldable pub read_items : List Bytes → Items → Option Items
  unfolding item
  read_items [] items = some items
  read_items (word ∷ words) items = and_then (item_parts (split b'=' word) items) (read_items words)

-- `if new != "" { old = new }`
abbrev pub given : Bytes → Bytes → Bytes
given new old = if length new == 0 then old else new

abbrev pub given_protocol : Protocol → Protocol → Protocol
given_protocol no_protocol old = old
given_protocol smtp old = smtp
given_protocol esmtp old = esmtp

abbrev pub given_ip : Option Bytes → Bytes → Bytes
given_ip none old = old
given_ip (some ip) old = ip

unfoldable pub proxied : Items → Bytes → ℕ → Peer → Peer
proxied items ip port peer = record peer {
  helo_name = given items.helo_name peer.helo_name;
  username = given items.username peer.username;
  protocol = given_protocol items.protocol peer.protocol;
  addr = tcp_addr (given_ip items.ip ip) (if items.port == 0 then port else items.port);
}

module _ {W : Type 0} (decoders : Decoders) (server : Server W) where
  -- `session.peer.Addr.(*net.TCPAddr)` and what follows it
  abbrev pub apply_items : Addr → Items → Session W → Session W
  apply_items other_addr items s = reply 502 (codes "Unsupported network connection") s
  apply_items (tcp_addr ip port) items s =
      welcome server (record s { peer = proxied items ip port s.peer })

  abbrev pub apply_read : Option Items → Session W → Session W
  apply_read none s = reply 502 (codes "Couldn't decode the command.") s
  apply_read (some items) s = apply_items s.peer.addr items s

  -- `cmd.fields[1:]`, of words that hold the command
  abbrev pub words_behind : List Bytes → List Bytes
  words_behind [] = []
  words_behind (word ∷ words) = words

  unfoldable pub handle_xclient : List Bytes → Session W → Session W
  unfolding reply welcome read_items proxied
  handle_xclient words s =
      if server.enable_xclient
      then apply_read (read_items decoders (words_behind words) no_items) s
      else reply 550 (codes "XCLIENT not enabled") s
