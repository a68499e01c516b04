-- ===== src/Primitives/LatticeAgreement/ProposalMessage.antt =====
-- include/primitives/lattice_agreement.hpp: `Proposal` and `ProposalMessage`, the proposals of
-- consecutive rounds.
pub mod RoundTrip
use broadcast_service.Base.{
  ℕ, zero, suc, ◌+◌, ◌*◌, ◌%◌, ◌^◌, List, [], ◌∷◌, ◌++◌, Option, none, some, ◌>>=◌, length,
  replicate, if◌then◌else◌, leb,
}
use broadcast_service.Transport.Bytes.{
  Bytes, marshal_primitive, unmarshal_primitive, marshal_array, unmarshal_array, marshal_all,
  unmarshal_all, store,
}

pub record Proposal : Type 0 where
  pub proposed_value : List ℕ  -- ProposeValueT, uint32_t
  pub active_proposal_number : ℕ  -- uint32_t

pub record ProposalMessage : Type 0 where
  pub first_round_id : ℕ  -- RoundID, uint32_t
  pub proposals : List Proposal

abbrev pub header_size : ℕ
header_size = 5

unfoldable pub proposal_size : Proposal → ℕ
proposal_size p = 4 + 4 * length p.proposed_value + 4

sum_sizes : List Proposal → ℕ
sum_sizes [] = 0
sum_sizes (p ∷ ps) = proposal_size p + sum_sizes ps

unfoldable pub size : ProposalMessage → ℕ
unfolding sum_sizes
size m = header_size + sum_sizes m.proposals

unfoldable pub marshal_proposal : Proposal → Bytes
marshal_proposal p =
    marshal_primitive 4 (length p.proposed_value % 2 ^ 32)
    ++ (marshal_array 4 p.proposed_value ++ marshal_primitive 4 p.active_proposal_number)

unfoldable pub contents : ProposalMessage → Bytes
contents m =
    marshal_primitive 4 m.first_round_id
    ++ (marshal_primitive 1 (length m.proposals % 256) ++ marshal_all marshal_proposal m.proposals)

unfoldable pub marshal : ProposalMessage → Bytes → Option Bytes
marshal m bytes = if leb (size m) (length bytes) then store (contents m) bytes else none

-- `message.resize(input_message.Size()); input_message.MarshalExtract(message);`
unfoldable pub to_bytes : ProposalMessage → Option Bytes
unfolding marshal
to_bytes m = marshal m (replicate (size m) 0)

unfoldable pub unmarshal_proposal : Bytes → Option (Proposal × Bytes)
unmarshal_proposal bytes = do
  (num_elements, after_size) ← unmarshal_primitive 4 bytes
  (value, after_value) ← unmarshal_array 4 num_elements after_size
  (number, rest) ← unmarshal_primitive 4 after_value
  some (record { proposed_value = value; active_proposal_number = number }, rest)

unmarshal_fields : Bytes → Option ProposalMessage
unmarshal_fields bytes = do
  (first_round_id, after_id) ← unmarshal_primitive 4 bytes
  (num_proposals, after_size) ← unmarshal_primitive 1 after_id
  (proposals, rest) ← unmarshal_all unmarshal_proposal num_proposals after_size
  some (record { first_round_id = first_round_id; proposals = proposals })

unfoldable pub unmarshal : Bytes → Option ProposalMessage
unfolding unmarshal_fields
unmarshal bytes = if leb header_size (length bytes) then unmarshal_fields bytes else none
