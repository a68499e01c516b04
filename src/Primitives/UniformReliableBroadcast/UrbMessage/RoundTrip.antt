-- ===== src/Primitives/UniformReliableBroadcast/UrbMessage/RoundTrip.antt =====
-- include/primitives/uniform_reliable_broadcast.hpp: lemmas on storing and reading `URBMessage`.
use broadcast_service.Base.{ℕ, ◌^◌, ◌<◌, ◌≡◌, some, length, arith, length-replicate}
use broadcast_service.Transport.Bytes.{Bytes, marshal_primitive, unmarshal_primitive}
use broadcast_service.Transport.Bytes.RoundTrip.{store_exact}
use broadcast_service.Primitives.UniformReliableBroadcast.UrbMessage.{
  UrbMessage, size, contents, to_bytes, unmarshal,
}

length-contents : (m : UrbMessage) → length (contents m) ≡ size m
unfolding contents size marshal_primitive
length-contents m = omega arith

pub to_bytes_lem : (m : UrbMessage) → to_bytes m ≡ some (contents m)
unfolding to_bytes
to_bytes_lem m = ground (
  arith,
  length-contents m,
  length-replicate {A = ℕ} (size m) 0,
  store_exact (contents m) (size m),
)

pub unmarshal-contents :
    (m : UrbMessage) → m.source < 256 → m.urb_id < 256 ^ 4 → unmarshal (contents m) ≡ some m
unfolding unmarshal contents marshal_primitive unmarshal_primitive
unmarshal-contents m hs hi = ground arith

-- A broadcast message whose source fits a byte and whose identifier fits four is stored in a buffer of
-- its size, and read back from it.
pub urb_message_round_trip :
    (m : UrbMessage)
    → m.source < 256
    → m.urb_id < 256 ^ 4
    → (buffer : Bytes) × (to_bytes m ≡ some buffer)
      × (length buffer ≡ size m)
      × (unmarshal buffer ≡ some m)
urb_message_round_trip m hs hi =
    (contents m, to_bytes_lem m, length-contents m, unmarshal-contents m hs hi)
