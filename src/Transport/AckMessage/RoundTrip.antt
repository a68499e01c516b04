-- ===== src/Transport/AckMessage/RoundTrip.antt =====
-- include/io/transport/payload.hpp: lemmas on storing and reading `AckMessage`.
use broadcast_service.Base.{
  ℕ, ◌+◌, ◌*◌, ◌<◌, ◌≡◌, ◌++◌, some, length, drop-replicate, replicate, ◌-◌, arith,
  length-replicate,
}
use broadcast_service.Transport.Bytes.{Bytes, marshal_primitive, unmarshal_primitive, store}
use broadcast_service.Transport.Bytes.RoundTrip.{
  FitIn, length-marshal_array, unmarshal-marshal_array,
}
use broadcast_service.Transport.AckMessage.{AckMessage, size, contents, to_bytes, unmarshal}

pub record Fits (m : AckMessage) : Type 0 where
  pub few : length m.acks < 255
  pub acks : FitIn 4 m.acks

abbrev pub slack : Bytes
slack = replicate 7 0

length-contents : (m : AckMessage) → length m.acks < 255 → length (contents m) + 7 ≡ size m
unfolding contents size marshal_primitive
length-contents m h = omega (arith, length-marshal_array 4 m.acks)

pub to_bytes_lem : (m : AckMessage) → length m.acks < 255 → to_bytes m ≡ some (contents m ++ slack)
unfolding to_bytes store
to_bytes_lem m h = ground (
  arith,
  length-contents m h,
  length-replicate {A = ℕ} (size m) 0,
  drop-replicate {A = ℕ} (length (contents m)) (size m) 0,
  left,
)
  where
    left : replicate {A = ℕ} (size m - length (contents m)) 0 ≡ slack
    left = let e : size m - length (contents m) ≡ 7 = omega (arith, length-contents m h) in rw e

unmarshal-contents :
    (m : AckMessage) (rest : Bytes) → Fits m → unmarshal (contents m ++ rest) ≡ some m
unfolding unmarshal contents marshal_primitive unmarshal_primitive
unmarshal-contents m rest f = ground (arith, unmarshal-marshal_array 4 m.acks rest f.acks)

-- An acknowledgement of fewer than 255 packets is stored, with seven zero bytes behind it, and read
-- back.
pub acknowledgement_round_trip :
    (m : AckMessage)
    → Fits m
    → (buffer : Bytes) × (to_bytes m ≡ some (buffer ++ slack))
      × (length buffer ≡ 1 + 4 * length m.acks)
      × (unmarshal (buffer ++ slack) ≡ some m)
unfolding contents marshal_primitive
acknowledgement_round_trip m f = (
  contents m,
  to_bytes_lem m f.few,
  omega (arith, length-marshal_array 4 m.acks),
  unmarshal-contents m slack f,
)
