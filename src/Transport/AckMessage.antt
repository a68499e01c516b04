-- ===== src/Transport/AckMessage.antt =====
-- include/io/transport/payload.hpp: `AckMessage`, the identifiers of packets that have arrived.
pub mod RoundTrip
use broadcast_service.Base.{
  ℕ, ◌+◌, ◌*◌, ◌%◌, List, ◌++◌, Option, none, some, ◌>>=◌, length, replicate, if◌then◌else◌, leb,
  ltb,
}
use broadcast_service.Transport.Bytes.{
  Bytes, marshal_primitive, unmarshal_primitive, marshal_array, unmarshal_array, store,
}

pub record AckMessage : Type 0 where
  pub acks : List ℕ  -- MessageID, uint32_t

abbrev pub header_size : ℕ
header_size = 1

-- `sizeof(acks.size())` is the size of a `size_t`, not of the byte that is stored.
unfoldable pub size : AckMessage → ℕ
size m = 8 + (length m.acks % 256) * 4

unfoldable pub contents : AckMessage → Bytes
contents m = marshal_primitive 1 (length m.acks % 256) ++ marshal_array 4 m.acks

unfoldable pub marshal : AckMessage → Bytes → Option Bytes
marshal m bytes = if ltb (length m.acks) 255 then store (contents m) bytes else none

-- `Bytes payload(ack_message.Size()); ack_message.MarshalExtract(payload);`
unfoldable pub to_bytes : AckMessage → Option Bytes
unfolding marshal
to_bytes m = marshal m (replicate (size m) 0)

unmarshal_fields : Bytes → Option AckMessage
unmarshal_fields bytes = do
  (num_elements, after_size) ← unmarshal_primitive 1 bytes
  (acks, rest) ← unmarshal_array 4 num_elements after_size
  some (record { acks = acks })

unfoldable pub unmarshal : Bytes → Option AckMessage
unfolding unmarshal_fields
unmarshal bytes = if leb header_size (length bytes) then unmarshal_fields bytes else none
