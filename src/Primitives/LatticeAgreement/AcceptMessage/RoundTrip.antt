-- ===== src/Primitives/LatticeAgreement/AcceptMessage/RoundTrip.antt =====
-- include/primitives/lattice_agreement.hpp: lemmas on storing and reading `AcceptMessage`.
use broadcast_service.Base.{
  ℕ, ◌^◌, ◌<◌, ◌≡◌, ◌≢◌, refl, List, [], ◌∷◌, ◌++◌, some, length, All, arith, length-replicate,
  append-nil, length-append,
}
use broadcast_service.Transport.Bytes.{Bytes, marshal_primitive, unmarshal_primitive, marshal_all}
use broadcast_service.Transport.Bytes.RoundTrip.{
  FitIn, store_exact, length-marshal_array, unmarshal-marshal_array, unmarshal-marshal_all,
}
use broadcast_service.Primitives.LatticeAgreement.AcceptMessage.{
  nack, Accept, AcceptMessage, accept_size, sum_sizes, size, marshal_value, marshal_accept,
  contents, to_bytes, unmarshal_value, unmarshal_accept, unmarshal,
}

-- Only a `nack` has a value.
pub record AcceptFits (a : Accept) : Type 0 where
  pub status : a.status < 256
  pub few : length a.accepted_value < 2 ^ 32
  pub values : FitIn 4 a.accepted_value
  pub number : a.proposal_number < 256 ^ 4
  pub no_value : a.status ≢ nack → a.accepted_value ≡ []

pub record Fits (m : AcceptMessage) : Type 0 where
  pub round : m.first_round_id < 256 ^ 4
  pub few : length m.accepts < 256
  pub accepts : All AcceptFits m.accepts

length-marshal_accept : (a : Accept) → length (marshal_accept a) ≡ accept_size a
unfolding marshal_accept accept_size marshal_primitive marshal_value
length-marshal_accept a = ground (arith, length-marshal_array 4 a.accepted_value)

length-marshal_accepts : (xs : List Accept) → length (marshal_all marshal_accept xs) ≡ sum_sizes xs
unfolding marshal_all sum_sizes
length-marshal_accepts [] = refl
length-marshal_accepts (a ∷ xs) = omega (
  arith,
  length-append (marshal_accept a) (marshal_all marshal_accept xs),
  length-marshal_accept a,
  length-marshal_accepts xs,
)

length-contents : (m : AcceptMessage) → length (contents m) ≡ size m
unfolding contents size marshal_primitive
length-contents m = omega (arith, length-marshal_accepts m.accepts)

pub to_bytes_lem : (m : AcceptMessage) → to_bytes m ≡ some (contents m)
unfolding to_bytes
to_bytes_lem m = ground (
  arith,
  length-contents m,
  length-replicate {A = ℕ} (size m) 0,
  store_exact (contents m) (size m),
)

unmarshal-marshal_value :
    (a : Accept) (rest : Bytes)
    → AcceptFits a
    → unmarshal_value a.status (marshal_value a ++ rest) ≡ some (a.accepted_value, rest)
unfolding unmarshal_value marshal_value marshal_primitive unmarshal_primitive
unmarshal-marshal_value a rest f =
    ground (arith, unmarshal-marshal_array 4 a.accepted_value rest f.values)

unmarshal-marshal_accept :
    (a : Accept) (rest : Bytes)
    → AcceptFits a
    → unmarshal_accept (marshal_accept a ++ rest) ≡ some (a, rest)
unfolding unmarshal_accept marshal_accept marshal_primitive unmarshal_primitive
unmarshal-marshal_accept a rest f = ground (arith, unmarshal-marshal_value a rest f)

pub unmarshal-contents : (m : AcceptMessage) → Fits m → unmarshal (contents m) ≡ some m
unfolding unmarshal contents marshal_primitive unmarshal_primitive
unmarshal-contents m f = ground (
  arith,
  append-nil (marshal_all marshal_accept m.accepts),
  unmarshal-marshal_all marshal_accept unmarshal_accept AcceptFits unmarshal-marshal_accept
      m.accepts [] f.accepts,
)

-- A message of fewer than 256 answers, whose numbers fit their types and of which only a nack has a
-- value, is stored in a buffer of its size, and read back from it.
pub accept_message_round_trip :
    (m : AcceptMessage)
    → Fits m
    → (buffer : Bytes) × (to_bytes m ≡ some buffer)
      × (length buffer ≡ size m)
      × (unmarshal buffer ≡ some m)
accept_message_round_trip m f =
    (contents m, to_bytes_lem m, length-contents m, unmarshal-contents m f)
