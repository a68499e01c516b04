-- ===== src/Primitives/LatticeAgreement/LaMessage/RoundTrip.antt =====
-- include/primitives/lattice_agreement.hpp: lemmas on storing and reading `LAMessage`.
use broadcast_service.Base.{ℕ, ◌<◌, ◌≡◌, some, length, arith, length-replicate}
use broadcast_service.Transport.Bytes.{Bytes, marshal_primitive, unmarshal_primitive}
use broadcast_service.Transport.Bytes.RoundTrip.{store_exact}
use broadcast_service.Primitives.LatticeAgreement.LaMessage.{
  LaMessage, size, contents, to_bytes, unmarshal,
}

length-contents : (m : LaMessage) → length (contents m) ≡ size m
unfolding contents size marshal_primitive
length-contents m = omega arith

pub to_bytes_lem : (m : LaMessage) → to_bytes m ≡ some (contents m)
unfolding to_bytes
to_bytes_lem m = ground (
  arith,
  length-contents m,
  length-replicate {A = ℕ} (size m) 0,
  store_exact (contents m) (size m),
)

pub unmarshal-contents : (m : LaMessage) → m.type < 256 → unmarshal (contents m) ≡ some m
unfolding unmarshal contents marshal_primitive unmarshal_primitive
unmarshal-contents m h = ground arith

-- An envelope whose type fits a byte is stored in a buffer of its size, and read back from it.
pub la_message_round_trip :
    (m : LaMessage)
    → m.type < 256
    → (buffer : Bytes) × (to_bytes m ≡ some buffer)
      × (length buffer ≡ size m)
      × (unmarshal buffer ≡ some m)
la_message_round_trip m h = (contents m, to_bytes_lem m, length-contents m, unmarshal-contents m h)
