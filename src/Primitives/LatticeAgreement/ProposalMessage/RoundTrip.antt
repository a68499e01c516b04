-- ===== src/Primitives/LatticeAgreement/ProposalMessage/RoundTrip.antt =====
-- include/primitives/lattice_agreement.hpp: lemmas on storing and reading `ProposalMessage`.
use broadcast_service.Base.{
  ℕ, ◌^◌, ◌<◌, ◌≡◌, refl, List, [], ◌∷◌, ◌++◌, some, length, All, arith, length-replicate,
  append-nil, append_assoc, length-append,
}
use broadcast_service.Transport.Bytes.{
  Bytes, marshal_primitive, unmarshal_primitive, marshal_array, marshal_all,
}
use broadcast_service.Transport.Bytes.RoundTrip.{
  FitIn, store_exact, length-marshal_array, unmarshal-marshal_array, unmarshal-marshal_all,
}
use broadcast_service.Primitives.LatticeAgreement.ProposalMessage.{
  Proposal, ProposalMessage, proposal_size, sum_sizes, size, marshal_proposal, contents, to_bytes,
  unmarshal_proposal, unmarshal,
}

pub record ProposalFits (p : Proposal) : Type 0 where
  pub few : length p.proposed_value < 2 ^ 32
  pub values : FitIn 4 p.proposed_value
  pub number : p.active_proposal_number < 256 ^ 4

pub record Fits (m : ProposalMessage) : Type 0 where
  pub round : m.first_round_id < 256 ^ 4
  pub few : length m.proposals < 256
  pub proposals : All ProposalFits m.proposals

length-marshal_proposal : (p : Proposal) → length (marshal_proposal p) ≡ proposal_size p
unfolding marshal_proposal proposal_size marshal_primitive
length-marshal_proposal p = omega (
  arith,
  length-append (marshal_array 4 p.proposed_value) (marshal_primitive 4 p.active_proposal_number),
  length-marshal_array 4 p.proposed_value,
)

length-marshal_proposals :
    (ps : List Proposal) → length (marshal_all marshal_proposal ps) ≡ sum_sizes ps
unfolding marshal_all sum_sizes
length-marshal_proposals [] = refl
length-marshal_proposals (p ∷ ps) = omega (
  arith,
  length-append (marshal_proposal p) (marshal_all marshal_proposal ps),
  length-marshal_proposal p,
  length-marshal_proposals ps,
)

length-contents : (m : ProposalMessage) → length (contents m) ≡ size m
unfolding contents size marshal_primitive
length-contents m = omega (arith, length-marshal_proposals m.proposals)

pub to_bytes_lem : (m : ProposalMessage) → to_bytes m ≡ some (contents m)
unfolding to_bytes
to_bytes_lem m = ground (
  arith,
  length-contents m,
  length-replicate {A = ℕ} (size m) 0,
  store_exact (contents m) (size m),
)

unmarshal-marshal_proposal :
    (p : Proposal) (rest : Bytes)
    → ProposalFits p
    → unmarshal_proposal (marshal_proposal p ++ rest) ≡ some (p, rest)
unfolding unmarshal_proposal marshal_proposal marshal_primitive unmarshal_primitive
unmarshal-marshal_proposal p rest f = ground (
  arith,
  append_assoc (marshal_array 4 p.proposed_value) (marshal_primitive 4 p.active_proposal_number)
      rest,
  unmarshal-marshal_array 4 p.proposed_value (marshal_primitive 4 p.active_proposal_number ++ rest)
      f.values,
)

pub unmarshal-contents : (m : ProposalMessage) → Fits m → unmarshal (contents m) ≡ some m
unfolding unmarshal contents marshal_primitive unmarshal_primitive
unmarshal-contents m f = ground (
  arith,
  append-nil (marshal_all marshal_proposal m.proposals),
  unmarshal-marshal_all marshal_proposal unmarshal_proposal ProposalFits unmarshal-marshal_proposal
      m.proposals [] f.proposals,
)

-- A message of fewer than 256 proposals, whose numbers fit their types, is stored in a buffer of its
-- size, and read back from it.
pub proposal_message_round_trip :
    (m : ProposalMessage)
    → Fits m
    → (buffer : Bytes) × (to_bytes m ≡ some buffer)
      × (length buffer ≡ size m)
      × (unmarshal buffer ≡ some m)
proposal_message_round_trip m f =
    (contents m, to_bytes_lem m, length-contents m, unmarshal-contents m f)
