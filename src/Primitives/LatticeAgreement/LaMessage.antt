-- ===== src/Primitives/LatticeAgreement/LaMessage.antt =====
-- include/primitives/lattice_agreement.hpp: `LAMessage`, the envelope of the protocol's messages.
pub mod RoundTrip
use broadcast_service.Base.{
  ℕ, ◌+◌, List, ◌∷◌, ◌++◌, Option, none, some, ◌>>=◌, length, drop, replicate, if◌then◌else◌, leb,
}
use broadcast_service.Transport.Bytes.{Bytes, marshal_primitive, unmarshal_primitive, store}

-- `LAMessageType`, an enumeration over uint8_t: every byte is a value of it.
abbrev pub proposal : ℕ
proposal = 0

abbrev pub accept : ℕ
accept = 1

abbrev pub decide : ℕ
decide = 2

pub record LaMessage : Type 0 where
  pub type : ℕ
  pub message : Bytes

abbrev pub header_size : ℕ
header_size = 1

unfoldable pub size : LaMessage → ℕ
size m = header_size + length m.message

unfoldable pub contents : LaMessage → Bytes
contents m = marshal_primitive 1 m.type ++ m.message

unfoldable pub marshal : LaMessage → Bytes → Option Bytes
marshal m bytes = if leb (size m) (length bytes) then store (contents m) bytes else none

-- `Bytes buffer(la_message.Size()); la_message.MarshalExtract(buffer);`
unfoldable pub to_bytes : LaMessage → Option Bytes
unfolding marshal
to_bytes m = marshal m (replicate (size m) 0)

unmarshal_fields : Bytes → Option LaMessage
unmarshal_fields bytes = do
  (type, rest) ← unmarshal_primitive 1 bytes
  some (record { type = type; message = drop header_size bytes })

unfoldable pub unmarshal : Bytes → Option LaMessage
unfolding unmarshal_fields
unmarshal bytes = if leb header_size (length bytes) then unmarshal_fields bytes else none
