-- ===== src/Primitives/LatticeAgreement/DecideMessage.antt =====
-- include/primitives/lattice_agreement.hpp: `DecideMessage`.
pub mod RoundTrip
use broadcast_service.Base.{ℕ, Option, none, some, ◌>>=◌, length, replicate, if◌then◌else◌, leb}
use broadcast_service.Transport.Bytes.{Bytes, marshal_primitive, unmarshal_primitive, store}

pub record DecideMessage : Type 0 where
  pub round_id : ℕ  -- RoundID, uint32_t

abbrev pub header_size : ℕ
header_size = 4

unfoldable pub size : DecideMessage → ℕ
size m = header_size

unfoldable pub contents : DecideMessage → Bytes
contents m = marshal_primitive 4 m.round_id

unfoldable pub marshal : DecideMessage → Bytes → Option Bytes
marshal m bytes = if leb (size m) (length bytes) then store (contents m) bytes else none

-- `message.resize(input_message->Size()); input_message->MarshalExtract(message);`
unfoldable pub to_bytes : DecideMessage → Option Bytes
unfolding marshal
to_bytes m = marshal m (replicate (size m) 0)

unmarshal_fields : Bytes → Option DecideMessage
unmarshal_fields bytes = do
  (round_id, rest) ← unmarshal_primitive 4 bytes
  some (record { round_id = round_id })

unfoldable pub unmarshal : Bytes → Option DecideMessage
unfolding unmarshal_fields
unmarshal bytes = if leb header_size (length bytes) then unmarshal_fields bytes else none
