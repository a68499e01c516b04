-- ===== src/Primitives/LatticeAgreement/Consensus/Handling.antt =====
-- Lemmas on the network after a proposer has handled an answer.
use broadcast_service.Base.{
  ℕ, ◌+◌, ◌≡◌, ◌≢◌, refl, sym, inl, inr, List, Bool, true, ◌&&◌, Option, none, is_some, eqb,
  Distinct, nat_eq, arith, if◌then◌else◌, Bool-cases,
}
use native.Mathlib.Decide.{ℕ_discrete}
use broadcast_service.Primitives.LatticeAgreement.ProposalMessage.{Proposal}
use broadcast_service.Primitives.LatticeAgreement.AcceptMessage.{}
use broadcast_service.Primitives.LatticeAgreement.State.{RoundState}
use broadcast_service.Primitives.LatticeAgreement.Consensus.{Network, update, offer, mark}
use broadcast_service.Primitives.LatticeAgreement.Consensus.Carry.{
  Grows, SameProposer, Proposing-same, advance-Invariant,
}
use broadcast_service.Primitives.LatticeAgreement.Consensus.Invariant.{
  Allowed, Proposing, Offered, Invariant,
}

-- `p` has the new state `s` and no new proposal.
abbrev pub settled : ℕ → ℕ → ℕ → RoundState → Option (List ℕ) → Network → Network
settled a p k s d net = record (mark a p k net) {
  states = update p s net.states;
  decisions = if is_some d then update p d net.decisions else net.decisions;
}

abbrev pub proposal_in : RoundState → Proposal
proposal_in s = record {
  proposed_value = s.proposed_value;
  active_proposal_number = s.active_proposal_number;
}

-- `p` has the new state `s`, and has sent the proposal in it.
abbrev pub moved : ℕ → ℕ → ℕ → RoundState → Network → Network
moved a p k s net = offer p (proposal_in s) (settled a p k s none net)

module _ (members : List ℕ) (allowed : ℕ → Bool) (net : Network)
    (inv : Invariant members allowed net) (a p k : ℕ) (there : is_some (net.replies a p k) ≡ true)
    (s : RoundState) (accepted : s.accepted_value ≡ (net.states p).accepted_value) where
  asked_mark :
      (b q l : ℕ) → (mark a p k net).handled b q l ≡ true → is_some (net.replies b q l) ≡ true
  asked_mark b q l h = ground (arith, inv.asked_first b q l, there)

  module _ (d : Option (List ℕ)) where
    pub settled-Grows : Grows members net (settled a p k s d net)
    settled-Grows = record { votes = λ b q l h. ground arith; offers = λ q l u e. e }

    settled-SameProposer : (q : ℕ) → p ≢ q → SameProposer net (settled a p k s d net) q
    settled-SameProposer q other = record {
      proposed_value = ground arith;
      number = ground arith;
      acks = ground arith;
      nacks = ground arith;
      completed = ground arith;
      inputs = refl;
      decisions = ground arith;
    }

    pub settled-Invariant :
        s.active_proposal_number ≡ (net.states p).active_proposal_number
        → Proposing members allowed (settled a p k s d net) p
        → Invariant members allowed (settled a p k s d net)
    settled-Invariant number own =
        advance-Invariant members allowed net (settled a p k s d net) inv settled-Grows
          (record {
            replies = λ b q l. refl;
            inputs = λ q. refl;
            accepted = λ b. ground arith;
            numbers = λ q. ground arith;
          })
          (λ q. elim (ℕ_discrete p q) [
            | yes here ↦ rw (sym here) own
            | no other ↦
                Proposing-same members allowed net (settled a p k s d net) settled-Grows q
                  (settled-SameProposer q other) (inv.proposing q)
          ])
          (λ q l u e. inl e) asked_mark

  module _ (number : s.active_proposal_number ≡ (net.states p).active_proposal_number + 1) where
    pub moved-Grows : Grows members net (moved a p k s net)
    moved-Grows = record {
      votes = λ b q l h. ground arith;
      offers = λ q l u e. ground (arith, (inv.offered q l u e).latest);
    }

    moved-SameProposer : (q : ℕ) → p ≢ q → SameProposer net (moved a p k s net) q
    moved-SameProposer q other = record {
      proposed_value = ground arith;
      number = ground arith;
      acks = ground arith;
      nacks = ground arith;
      completed = ground arith;
      inputs = refl;
      decisions = refl;
    }

    new-Offered :
        is_some (net.inputs p) ≡ true
        → Distinct s.proposed_value
        → Allowed allowed s.proposed_value
        → Offered allowed (moved a p k s net) p s.active_proposal_number (proposal_in s)
    new-Offered begun proper permitted = record {
      number = refl;
      proper = proper;
      permitted = permitted;
      latest = ground arith;
      begun = begun;
    }

    pub moved-Invariant :
        is_some (net.inputs p) ≡ true
        → Distinct s.proposed_value
        → Allowed allowed s.proposed_value
        → Proposing members allowed (moved a p k s net) p
        → Invariant members allowed (moved a p k s net)
    moved-Invariant begun proper permitted own =
        advance-Invariant members allowed net (moved a p k s net) inv moved-Grows
          (record {
            replies = λ b q l. refl;
            inputs = λ q. refl;
            accepted = λ b. ground arith;
            numbers = λ q. ground arith;
          })
          (λ q. elim (ℕ_discrete p q) [
            | yes here ↦ rw (sym here) own
            | no other ↦
                Proposing-same members allowed net (moved a p k s net) moved-Grows q
                  (moved-SameProposer q other) (inv.proposing q)
          ])
          (λ q l u e. elim (Bool-cases (eqb p q && eqb s.active_proposal_number l)) [
            | inl now ↦
                let proposer : q ≡ p = ground arith in
                let index : l ≡ s.active_proposal_number = ground arith in
                let same : u ≡ proposal_in s = ground arith in
                inr (rw (proposer, index, same) (new-Offered begun proper permitted))
            | inr before ↦ inl (ground arith)
          ])
          asked_mark
