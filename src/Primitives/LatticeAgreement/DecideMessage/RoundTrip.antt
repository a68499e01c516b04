-- ===== src/Primitives/LatticeAgreement/DecideMessage/RoundTrip.antt =====
-- include/primitives/lattice_agreement.hpp: lemmas on storing and reading `DecideMessage`.
use broadcast_service.Base.{ℕ, ◌^◌, ◌<◌, ◌≡◌, some, length, arith, length-replicate}
use broadcast_service.Transport.Bytes.{Bytes, marshal_primitive, unmarshal_primitive}
use broadcast_service.Transport.Bytes.RoundTrip.{store_exact}
use broadcast_service.Primitives.LatticeAgreement.DecideMessage.{
  DecideMessage, size, contents, to_bytes, unmarshal,
}

length-contents : (m : DecideMessage) → length (contents m) ≡ size m
unfolding contents size marshal_primitive
length-contents m = omega arith

pub to_bytes_lem : (m : DecideMessage) → to_bytes m ≡ some (contents m)
unfolding to_bytes
to_bytes_lem m = ground (
  arith,
  length-contents m,
  length-replicate {A = ℕ} (size m) 0,
  store_exact (contents m) (size m),
)

pub unmarshal-contents :
    (m : DecideMessage) → m.round_id < 256 ^ 4 → unmarshal (contents m) ≡ some m
unfolding unmarshal contents marshal_primitive unmarshal_primitive
unmarshal-contents m h = ground arith

-- A decision whose round fits four bytes is stored in a buffer of its size, and read back from it.
pub decide_message_round_trip :
    (m : DecideMessage)
    → m.round_id < 256 ^ 4
    → (buffer : Bytes) × (to_bytes m ≡ some buffer)
      × (length buffer ≡ size m)
      × (unmarshal buffer ≡ some m)
decide_message_round_trip m h =
    (contents m, to_bytes_lem m, length-contents m, unmarshal-contents m h)
