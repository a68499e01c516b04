-- ===== src/Transport/Packet/RoundTrip.antt =====
-- include/io/transport/payload.hpp: lemmas on storing and reading `Packet`.
use broadcast_service.Base.{ℕ, ◌^◌, ◌<◌, ◌≡◌, some, length, arith, length-replicate}
use broadcast_service.Transport.Bytes.{Bytes, marshal_primitive, unmarshal_primitive}
use broadcast_service.Transport.Bytes.RoundTrip.{store_exact}
use broadcast_service.Transport.Packet.{Packet, size, contents, to_bytes, unmarshal}

-- The fields fit their types.
pub record Fits (p : Packet) : Type 0 where
  pub type : p.type < 256 ^ 1
  pub id : p.id < 256 ^ 4
  pub source : p.source < 256 ^ 1

length-contents : (p : Packet) → length (contents p) ≡ size p
unfolding contents size marshal_primitive
length-contents p = omega arith

pub to_bytes_lem : (p : Packet) → to_bytes p ≡ some (contents p)
unfolding to_bytes
to_bytes_lem p = ground (
  arith,
  length-contents p,
  length-replicate {A = ℕ} (size p) 0,
  store_exact (contents p) (size p),
)

unmarshal-contents : (p : Packet) → Fits p → unmarshal (contents p) ≡ some p
unfolding unmarshal contents marshal_primitive unmarshal_primitive
unmarshal-contents p f = ground arith

-- The buffer has exactly the size of the packet, and gives the packet back.
pub packet_round_trip :
    (p : Packet)
    → Fits p
    → (buffer : Bytes) × (to_bytes p ≡ some buffer)
      × (length buffer ≡ size p)
      × (unmarshal buffer ≡ some p)
packet_round_trip p f = (contents p, to_bytes_lem p, length-contents p, unmarshal-contents p f)
