-- ===== src/Primitives/UniformReliableBroadcast/UrbMessage.antt =====
-- include/primitives/uniform_reliable_broadcast.hpp: `URBMessage`.
pub mod RoundTrip
use broadcast_service.Base.{
  ℕ, ◌+◌, List, ◌∷◌, ◌++◌, Option, none, some, ◌>>=◌, length, drop, replicate, if◌then◌else◌, leb,
}
use broadcast_service.Transport.Bytes.{Bytes, marshal_primitive, unmarshal_primitive, store}

pub record UrbMessage : Type 0 where
  pub source : ℕ  -- PeerID, uint8_t
  pub urb_id : ℕ  -- MessageID, uint32_t
  pub message : Bytes

abbrev pub header_size : ℕ
header_size = 5

unfoldable pub size : UrbMessage → ℕ
size m = header_size + length m.message

unfoldable pub contents : UrbMessage → Bytes
contents m = marshal_primitive 1 m.source ++ (marshal_primitive 4 m.urb_id ++ m.message)

unfoldable pub marshal : UrbMessage → Bytes → Option Bytes
marshal m bytes = if leb (size m) (length bytes) then store (contents m) bytes else none

-- `Bytes buffer(urb_message.Size()); urb_message.Marshal(buffer);`
unfoldable pub to_bytes : UrbMessage → Option Bytes
unfolding marshal
to_bytes m = marshal m (replicate (size m) 0)

unmarshal_fields : Bytes → Option UrbMessage
unmarshal_fields bytes = do
  (source, after_source) ← unmarshal_primitive 1 bytes
  (urb_id, rest) ← unmarshal_primitive 4 after_source
  some (record { source = source; urb_id = urb_id; message = drop header_size bytes })

unfoldable pub unmarshal : Bytes → Option UrbMessage
unfolding unmarshal_fields
unmarshal bytes = if leb header_size (length bytes) then unmarshal_fields bytes else none
