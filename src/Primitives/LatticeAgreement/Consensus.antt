-- ===== src/Primitives/LatticeAgreement/Consensus.antt =====
-- include/primitives/lattice_agreement.hpp: one round of `LatticeAgreement` at all processes of a
-- network, over links that deliver each message at most once, in any order. The processes run the
-- bodies of the handlers, `answer` and `react`, on their states of the round.
pub mod Invariant
pub mod Carry
pub mod Beginning
pub mod Answering
pub mod Handling
pub mod Counting
pub mod Reacting
pub mod Agreement
mod Tests
use broadcast_service.Base.{
  ℕ, ◌+◌, ◌-◌, ◌/◌, ◌^◌, List, [], ◌∷◌, Bool, true, false, ◌&&◌, Option, none, some, is_some,
  length, if◌then◌else◌, eqb, ltb, contains, not, nat_eq,
}
use broadcast_service.Primitives.LatticeAgreement.ProposalMessage.{Proposal, ProposalMessage}
use broadcast_service.Primitives.LatticeAgreement.AcceptMessage.{Accept, ack}
use broadcast_service.Primitives.LatticeAgreement.State.{RoundState, new_round}
use broadcast_service.Primitives.LatticeAgreement.Acceptor.{answer}
use broadcast_service.Primitives.LatticeAgreement.Proposer.React.{Reaction, react}

-- The round at every process, and what was sent: `offers p k` is the proposal of `p` with number `k`,
-- and `replies a p k` the answer of `a` to it, which `p` has handled if `handled a p k`.
pub record Network : Type 0 where
  pub states : ℕ → RoundState
  pub inputs : ℕ → Option (List ℕ)
  pub offers : ℕ → ℕ → Option Proposal
  pub replies : ℕ → ℕ → ℕ → Option Accept
  pub handled : ℕ → ℕ → ℕ → Bool
  pub decisions : ℕ → Option (List ℕ)

abbrev pub start : Network
start = record {
  states = λ p. new_round [] none;
  inputs = λ p. none;
  offers = λ p k. none;
  replies = λ a p k. none;
  handled = λ a p k. false;
  decisions = λ p. none;
}

abbrev pub update {ℓ} : {A : Type ℓ} → ℕ → A → (ℕ → A) → ℕ → A
update p x f q = if eqb p q then x else f q

abbrev pub offer : ℕ → Proposal → Network → Network
offer p proposal net = record net {
  offers =
      update p (update proposal.active_proposal_number (some proposal) (net.offers p)) net.offers;
}

-- What a process does next: it proposes a value, answers a proposal, or handles an answer.
pub data Move : Type 0 where
  proposes : ℕ → List ℕ → Move
  answers : ℕ → ℕ → ℕ → Move
  handles : ℕ → ℕ → ℕ → Move

abbrev pub begin : ℕ → List ℕ → Network → Network
begin p value net =
    record (offer p (record { proposed_value = value; active_proposal_number = 0 }) net) {
      states = update p (record (net.states p) { proposed_value = value }) net.states;
      inputs = update p (some value) net.inputs;
    }

abbrev pub reply : ℕ → ℕ → ℕ → Proposal → Network → Network
reply a p k proposal net = record net {
  states = update a (answer (net.states a) proposal).0 net.states;
  replies =
      update a
        (update p (update k (some (answer (net.states a) proposal).1) (net.replies a p))
          (net.replies a))
        net.replies;
}

-- The new proposal is the one of the message that is broadcast.
abbrev pub send_offer : ℕ → Option ProposalMessage → Network → Network
send_offer p none net = net
send_offer p (some m) net = elim m.proposals [ [] ↦ net | proposal ∷ rest ↦ offer p proposal net ]

abbrev pub conclude_round : ℕ → Reaction → Network → Network
conclude_round p r net = send_offer p r.offer (record net {
  states = update p r.state net.states;
  decisions = if is_some r.decision then update p r.decision net.decisions else net.decisions;
})

abbrev pub majority_of : List ℕ → ℕ
majority_of members = length members / 2 + 1

abbrev pub mark : ℕ → ℕ → ℕ → Network → Network
mark a p k net = record net {
  handled = update a (update p (update k true (net.handled a p)) (net.handled a)) net.handled;
}

-- A move that is not possible changes nothing: a process proposes once, answers a proposal once, and
-- handles an answer once. A process that has used all numbers of proposals handles no more answers.
unfoldable pub move : List ℕ → ℕ → Move → Network → Network
move members round (proposes p value) net =
    if contains p members && not (is_some (net.inputs p)) then begin p value net else net
move members round (answers a p k) net = elim (net.offers p k) [
  | none ↦ net
  | some proposal ↦
      if contains a members && not (is_some (net.replies a p k))
      then reply a p k proposal net
      else net
]
move members round (handles a p k) net = elim (net.replies a p k) [
  | none ↦ net
  | some accept ↦
      if not (net.handled a p k) && ltb (net.states p).active_proposal_number (2 ^ 32 - 1)
      then conclude_round p (react (majority_of members) round (net.states p) accept)
          (mark a p k net)
      else net
]

unfoldable pub moves : List ℕ → ℕ → List Move → Network → Network
moves members round [] net = net
moves members round (m ∷ ms) net = moves members round ms (move members round m net)
