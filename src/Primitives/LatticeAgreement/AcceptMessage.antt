-- ===== src/Primitives/LatticeAgreement/AcceptMessage.antt =====
-- include/primitives/lattice_agreement.hpp: `Accept` and `AcceptMessage`, the answers to the proposals
-- of consecutive rounds.
pub mod RoundTrip
use broadcast_service.Base.{
  ℕ, ◌+◌, ◌*◌, ◌%◌, ◌^◌, List, [], ◌∷◌, ◌++◌, Option, none, some, ◌>>=◌, length, replicate,
  if◌then◌else◌, leb, eqb,
}
use broadcast_service.Transport.Bytes.{
  Bytes, marshal_primitive, unmarshal_primitive, marshal_array, unmarshal_array, marshal_all,
  unmarshal_all, store,
}

-- `AcceptStatus`, an enumeration over uint8_t: every byte is a value of it.
abbrev pub ack : ℕ
ack = 0

abbrev pub nack : ℕ
nack = 1

pub record Accept : Type 0 where
  pub status : ℕ
  pub proposal_number : ℕ  -- uint32_t
  pub accepted_value : List ℕ  -- sent with `nack` only

pub record AcceptMessage : Type 0 where
  pub first_round_id : ℕ  -- RoundID, uint32_t
  pub accepts : List Accept

abbrev pub header_size : ℕ
header_size = 5

unfoldable pub accept_size : Accept → ℕ
accept_size a = 5 + (if eqb a.status nack then 4 + 4 * length a.accepted_value else 0)

sum_sizes : List Accept → ℕ
sum_sizes [] = 0
sum_sizes (a ∷ as') = accept_size a + sum_sizes as'

unfoldable pub size : AcceptMessage → ℕ
unfolding sum_sizes
size m = header_size + sum_sizes m.accepts

unfoldable pub marshal_value : Accept → Bytes
marshal_value a =
    if eqb a.status nack
    then marshal_primitive 4 (length a.accepted_value % 2 ^ 32) ++ marshal_array 4 a.accepted_value
    else []

unfoldable pub marshal_accept : Accept → Bytes
marshal_accept a =
    marshal_primitive 1 a.status ++ (marshal_primitive 4 a.proposal_number ++ marshal_value a)

unfoldable pub contents : AcceptMessage → Bytes
contents m =
    marshal_primitive 4 m.first_round_id
    ++ (marshal_primitive 1 (length m.accepts % 256) ++ marshal_all marshal_accept m.accepts)

unfoldable pub marshal : AcceptMessage → Bytes → Option Bytes
marshal m bytes = if leb (size m) (length bytes) then store (contents m) bytes else none

-- `message.resize(input_message.Size()); input_message.MarshalExtract(message);`
unfoldable pub to_bytes : AcceptMessage → Option Bytes
unfolding marshal
to_bytes m = marshal m (replicate (size m) 0)

unfoldable pub unmarshal_value : ℕ → Bytes → Option (List ℕ × Bytes)
unmarshal_value status bytes =
    if eqb status nack
    then (do
      (value_size, after_size) ← unmarshal_primitive 4 bytes
      unmarshal_array 4 value_size after_size)
    else some ([], bytes)

unfoldable pub unmarshal_accept : Bytes → Option (Accept × Bytes)
unmarshal_accept bytes = do
  (status, after_status) ← unmarshal_primitive 1 bytes
  (number, after_number) ← unmarshal_primitive 4 after_status
  (value, rest) ← unmarshal_value status after_number
  some (record { status = status; proposal_number = number; accepted_value = value }, rest)

unmarshal_fields : Bytes → Option AcceptMessage
unmarshal_fields bytes = do
  (first_round_id, after_id) ← unmarshal_primitive 4 bytes
  (num_accepts, after_size) ← unmarshal_primitive 1 after_id
  (accepts, rest) ← unmarshal_all unmarshal_accept num_accepts after_size
  some (record { first_round_id = first_round_id; accepts = accepts })

unfoldable pub unmarshal : Bytes → Option AcceptMessage
unfolding unmarshal_fields
unmarshal bytes = if leb header_size (length bytes) then unmarshal_fields bytes else none
