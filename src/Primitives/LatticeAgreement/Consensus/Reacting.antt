-- ===== src/Primitives/LatticeAgreement/Consensus/Reacting.antt =====
-- Lemmas on what a proposer does about an answer.
use broadcast_service.Base.{
  ℕ, ◌+◌, ◌-◌, ◌%◌, ◌<◌, ◌^◌, ◌≡◌, refl, ◌⊎◌, inl, inr, List, Bool, true, false, ◌&&◌, ◌||◌, not,
  none, some, is_some, length, eqb, ltb, leb, nat_eq, arith, Bool-cases,
}
use broadcast_service.Util.SetOperation.{}
use broadcast_service.Util.SetOperation.Union.{left-Subset-union}
use broadcast_service.Primitives.LatticeAgreement.ProposalMessage.{}
use broadcast_service.Primitives.LatticeAgreement.AcceptMessage.{Accept, ack, nack}
use broadcast_service.Primitives.LatticeAgreement.State.{RoundState}
use broadcast_service.Primitives.LatticeAgreement.Proposer.{count_ack, count_nack}
use broadcast_service.Primitives.LatticeAgreement.Proposer.React.{
  Reaction, ignore, conclude, counted, react,
}
use broadcast_service.Primitives.LatticeAgreement.Consensus.{
  Network, mark, majority_of, conclude_round,
}
use broadcast_service.Primitives.LatticeAgreement.Consensus.Carry.{Proposing-same}
use broadcast_service.Primitives.LatticeAgreement.Consensus.Handling.{
  settled, settled-Grows, settled-Invariant,
}
use broadcast_service.Primitives.LatticeAgreement.Consensus.Counting.{
  counted-ack, decided-ack, moved-next, counted-nack, nack-Distinct, nack-Allowed,
}
use broadcast_service.Primitives.LatticeAgreement.Consensus.Invariant.{Invariant}

-- An answer is dropped, or counted as an ack or a nack.
react_cases :
    (majority round : ℕ) (s : RoundState) (accept : Accept)
    → (react majority round s accept ≡ ignore s)
      ⊎ (((s.completed ≡ false)
            × (s.active_proposal_number ≡ accept.proposal_number)
            × (accept.status ≡ ack)
            × (react majority round s accept ≡ conclude majority round (count_ack s)))
          ⊎ ((s.completed ≡ false)
              × (s.active_proposal_number ≡ accept.proposal_number)
              × (accept.status ≡ nack)
              × (react majority round s accept
                  ≡ conclude majority round (count_nack s accept.accepted_value))))
unfolding react counted
react_cases majority round s accept =
    elim (Bool-cases (
      (eqb accept.status ack || eqb accept.status nack)
      && (not s.completed && eqb s.active_proposal_number accept.proposal_number))) [
        | inl counts ↦ elim (Bool-cases (eqb accept.status ack)) [
          | inl is_ack ↦ inr (inl (ground arith, ground arith, ground arith, ground arith))
          | inr is_nack ↦ inr (inr (ground arith, ground arith, ground arith, ground arith))
        ]
        | inr dropped ↦ inl (ground arith)
      ]

module _ (members : List ℕ) (allowed : ℕ → Bool) (round : ℕ) (net : Network)
    (inv : Invariant members allowed net) (bounded : length members < 2 ^ 32) (a p k : ℕ)
    (accept : Accept) (here : net.replies a p k ≡ some accept) (new : net.handled a p k ≡ false)
    (room : (net.states p).active_proposal_number < 2 ^ 32 - 1) where
  abbrev After : Reaction → Type 0
  After r = Invariant members allowed (conclude_round p r (mark a p k net))

  -- An answer that is dropped.
  ignored : Invariant members allowed (settled a p k (net.states p) none net)
  ignored =
      let there : is_some (net.replies a p k) ≡ true = ground arith in
      let s = net.states p in
      settled-Invariant members allowed net inv a p k there s refl none refl (
        Proposing-same members allowed net (settled a p k s none net)
          (settled-Grows members allowed net inv a p k there s refl none) p
          (record {
            proposed_value = ground arith;
            number = ground arith;
            acks = ground arith;
            nacks = ground arith;
            completed = ground arith;
            inputs = refl;
            decisions = refl;
          })
          (inv.proposing p))

  module _ (running : (net.states p).completed ≡ false)
      (current : k ≡ (net.states p).active_proposal_number) where
    few : (net.states p).acks + (net.states p).nacks < majority_of members
    few = (inv.proposing p).few running

    ack-After :
        accept.status ≡ ack
        → After (conclude (majority_of members) round (count_ack (net.states p)))
    unfolding conclude
    ack-After is_ack =
        let s = count_ack (net.states p) in
        elim (Bool-cases (leb (majority_of members) s.acks)) [
          | inl enough ↦ rw enough (
              decided-ack members allowed net inv bounded a p k accept here new running current
                is_ack enough)
          | inr open_ ↦
              elim (Bool-cases
                (ltb 0 s.nacks && leb (majority_of members) ((s.acks + s.nacks) % 2 ^ 32))) [
                  | inl again ↦
                      rw (open_, again)
                        (moved-next members allowed net inv bounded a p k accept here new running
                          current s refl refl refl room (inv.proposing p).proper
                          (inv.proposing p).permitted (λ x h. h))
                  | inr stay ↦
                      rw (open_, stay)
                        (counted-ack members allowed net inv bounded a p k accept here new running
                          current is_ack open_ (ground (arith, few)))
                ]
        ]

    nack-After :
        accept.status ≡ nack
        → After
            (conclude (majority_of members) round (count_nack (net.states p) accept.accepted_value))
    unfolding conclude
    nack-After is_nack =
        let s = count_nack (net.states p) accept.accepted_value in
        let unfinished : leb (majority_of members) s.acks ≡ false = ground (arith, few) in
        elim (Bool-cases
          (ltb 0 s.nacks && leb (majority_of members) ((s.acks + s.nacks) % 2 ^ 32))) [
            | inl again ↦
                rw (unfinished, again)
                  (moved-next members allowed net inv bounded a p k accept here new running current
                    s refl refl refl room
                    (nack-Distinct members allowed net inv bounded a p k accept here new running
                      current is_nack)
                    (nack-Allowed members allowed net inv bounded a p k accept here new running
                      current is_nack)
                    (left-Subset-union (net.states p).proposed_value accept.accepted_value))
            | inr stay ↦
                rw (unfinished, stay)
                  (counted-nack members allowed net inv bounded a p k accept here new running
                    current is_nack (ground (arith, few)))
          ]

  pub react-After : After (react (majority_of members) round (net.states p) accept)
  react-After =
      let s = net.states p in
      let number : accept.proposal_number ≡ k = (inv.replied a p k accept here).number in
      elim (react_cases (majority_of members) round s accept) [
        | inl dropped ↦ rw dropped ignored
        | inr (inl (running, same, is_ack, e)) ↦
            rw e (ack-After running (ground (arith, number)) is_ack)
        | inr (inr (running, same, is_nack, e)) ↦
            rw e (nack-After running (ground (arith, number)) is_nack)
      ]
