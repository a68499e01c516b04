-- ===== src/Primitives/LatticeAgreement/Acceptor/Answers.antt =====
-- include/primitives/lattice_agreement.hpp: a specification of the body of `HandlePropose`.
use broadcast_service.Base.{
  ℕ, ◌≡◌, ◌≢◌, ◌↔◌, ◌||◌, List, [], length, Distinct, Subset, contains, arith, nat_eq,
}
use broadcast_service.Util.SetOperation.{vector_set_union}
use broadcast_service.Util.SetOperation.Union.{
  contains-union, Distinct-union, Subset_of_union_length, union_length_of_Subset,
}
use broadcast_service.Primitives.LatticeAgreement.ProposalMessage.{Proposal}
use broadcast_service.Primitives.LatticeAgreement.AcceptMessage.{Accept, ack, nack}
use broadcast_service.Primitives.LatticeAgreement.State.{RoundState}
use broadcast_service.Primitives.LatticeAgreement.Acceptor.{answer}

-- What `HandlePropose` promises for a state, a proposal, the new state and the answer.
pub record Answers (state : RoundState) (p : Proposal) (state' : RoundState) (accept : Accept)
    : Type 0 where
  pub agrees : (accept.status ≡ ack) ↔ Subset state.accepted_value p.proposed_value
  pub refuses :
      accept.status ≢ ack → (accept.status ≡ nack) × (accept.accepted_value ≡ state'.accepted_value)
  pub without_value : accept.status ≡ ack → accept.accepted_value ≡ []
  pub joins :
      (a : ℕ)
      → contains a state'.accepted_value
        ≡ (contains a state.accepted_value || contains a p.proposed_value)
  pub proper : Distinct state'.accepted_value
  pub number : accept.proposal_number ≡ p.active_proposal_number
  pub kept : state' ≡ record state { accepted_value = state'.accepted_value }

-- For an accepted and a proposed value without repetitions: the answer is an ack exactly if the
-- proposed value contains the accepted one, and else a nack with the new accepted value; that value is
-- the union of the two, still without repetitions; the answer carries the proposal's number, and
-- nothing else of the state changes.
pub answer-Answers :
    (state : RoundState) (p : Proposal)
    → Distinct state.accepted_value
    → Distinct p.proposed_value
    → Answers state p (answer state p).0 (answer state p).1
unfolding answer
answer-Answers state p ds dp = record {
  agrees = (
    λ e. Subset_of_union_length old new dp (ground arith),
    λ sub. ground (arith, union_length_of_Subset old new ds dp sub),
  );
  refuses = ground arith;
  without_value = ground arith;
  joins = λ a. ground (
    arith,
    contains-union a old new,
    λ (same : length (vector_set_union old new) ≡ length new).
        Subset_of_union_length old new dp same a,
  );
  proper = ground (arith, Distinct-union old new ds dp);
  number = ground arith;
  kept = ground arith;
}
  where
    old : List ℕ
    old = state.accepted_value

    new : List ℕ
    new = p.proposed_value
