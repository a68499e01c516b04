-- ===== src/Transport/Packet.antt =====
-- include/io/transport/payload.hpp: `Packet`. The payload that `MarshalExtract` moves out of a packet
-- that is then dropped is copied here, as `Marshal` does.
pub mod RoundTrip
use broadcast_service.Base.{
  ℕ, ◌+◌, List, ◌∷◌, ◌++◌, Option, none, some, ◌>>=◌, length, drop, replicate, if◌then◌else◌, leb,
}
use broadcast_service.Transport.Bytes.{Bytes, marshal_primitive, unmarshal_primitive, store}

-- `PacketType`
abbrev pub ack_message : ℕ
ack_message = 0

abbrev pub payload_message : ℕ
payload_message = 1

pub record Packet : Type 0 where
  pub type : ℕ  -- PacketType, over uint8_t
  pub id : ℕ  -- MessageID, uint32_t
  pub source : ℕ  -- PeerID, uint8_t
  pub message : Bytes

-- What every packet begins with.
abbrev pub identifier : ℕ
identifier = 67

abbrev pub header_size : ℕ
header_size = 7

unfoldable pub size : Packet → ℕ
size p = header_size + length p.message

pub contents : Packet → Bytes
contents p =
    marshal_primitive 1 identifier
    ++ (marshal_primitive 1 p.type
        ++ (marshal_primitive 4 p.id ++ (marshal_primitive 1 p.source ++ p.message)))

unfoldable pub marshal : Packet → Bytes → Option Bytes
unfolding contents size
marshal p bytes = if leb (size p) (length bytes) then store (contents p) bytes else none

-- `Bytes buffer(packet.Size()); packet.Marshal(buffer);`
unfoldable pub to_bytes : Packet → Option Bytes
unfolding marshal
to_bytes p = marshal p (replicate (size p) 0)

unmarshal_fields : Bytes → Option Packet
unmarshal_fields bytes = do
  (type, after_type) ← unmarshal_primitive 1 (drop 1 bytes)
  (id, after_id) ← unmarshal_primitive 4 after_type
  (source, rest) ← unmarshal_primitive 1 after_id
  some (record { type = type; id = id; source = source; message = drop header_size bytes })

-- The identifier is skipped, and not checked.
unfoldable pub unmarshal : Bytes → Option Packet
unfolding unmarshal_fields
unmarshal bytes = if leb header_size (length bytes) then unmarshal_fields bytes else none
