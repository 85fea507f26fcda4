-- ===== src/Packet.antt =====
-- packet.pb.go: the messages of a packet, and the accessors that the TCP listener uses. An optional
-- field that is absent reads as the empty text.
use smtprelay.Base.{Option, none, some, List, [], Bytes}

pub record EmailMessageWithByteArray : Type 0 where
  pub sender : Option Bytes
  pub recipients : List Bytes
  pub eml_data : Bytes
  pub message_id : Option Bytes

-- `*m.Sender`, or the empty text.
abbrev pub text_or_empty : Option Bytes → Bytes
text_or_empty none = []
text_or_empty (some s) = s

unfoldable pub get_sender : EmailMessageWithByteArray → Bytes
get_sender m = text_or_empty m.sender

unfoldable pub get_recipients : EmailMessageWithByteArray → List Bytes
get_recipients m = m.recipients

unfoldable pub get_eml_data : EmailMessageWithByteArray → Bytes
get_eml_data m = m.eml_data
