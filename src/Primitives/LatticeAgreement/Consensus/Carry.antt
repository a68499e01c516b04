-- ===== src/Primitives/LatticeAgreement/Consensus/Carry.antt =====
-- Lemmas on what a move at one process leaves of the others.
use broadcast_service.Base.{
  ℕ, ◌≤◌, ◌≡◌, ◌⊎◌, inl, inr, List, Bool, true, some, is_some, nat_eq, arith, Option-cases,
}
use broadcast_service.Primitives.LatticeAgreement.ProposalMessage.{Proposal}
use broadcast_service.Primitives.LatticeAgreement.AcceptMessage.{Accept}
use broadcast_service.Primitives.LatticeAgreement.State.{}
use broadcast_service.Primitives.LatticeAgreement.Consensus.{Network}
use broadcast_service.Primitives.LatticeAgreement.Consensus.Invariant.{
  acked, voted, Voters, Chosen, Proposing, Offered, Replied, Accepting, Invariant,
}

-- What was counted stays counted, and proposals stay.
pub record Grows (members : List ℕ) (net net' : Network) : Type 0 where
  pub votes : (a p k : ℕ) → voted members net a p k ≡ true → voted members net' a p k ≡ true
  pub offers :
      (p k : ℕ) (proposal : Proposal)
      → net.offers p k ≡ some proposal
      → net'.offers p k ≡ some proposal

-- `p` is the same proposer before and after.
pub record SameProposer (net net' : Network) (p : ℕ) : Type 0 where
  pub proposed_value : (net'.states p).proposed_value ≡ (net.states p).proposed_value
  pub number : (net'.states p).active_proposal_number ≡ (net.states p).active_proposal_number
  pub acks : (net'.states p).acks ≡ (net.states p).acks
  pub nacks : (net'.states p).nacks ≡ (net.states p).nacks
  pub completed : (net'.states p).completed ≡ (net.states p).completed
  pub inputs : net'.inputs p ≡ net.inputs p
  pub decisions : net'.decisions p ≡ net.decisions p

module _ (members : List ℕ) (allowed : ℕ → Bool) (net net' : Network)
    (g : Grows members net net') where
  pub Voters-grow :
      (p k : ℕ) (voters : List ℕ) → Voters members net p k voters → Voters members net' p k voters
  Voters-grow p k voters v = record {
    distinct = v.distinct;
    all = λ a h. g.votes a p k (v.all a h);
  }

  pub Chosen-grow :
      (p : ℕ) (value : List ℕ) → Chosen members net p value → Chosen members net' p value
  Chosen-grow p value c = record {
    number = c.number;
    voters = c.voters;
    agreed = Voters-grow p c.number c.voters c.agreed;
    enough = c.enough;
    offered = g.offers p c.number _ c.offered;
  }

  pub Proposing-same :
      (p : ℕ)
      → SameProposer net net' p
      → Proposing members allowed net p
      → Proposing members allowed net' p
  Proposing-same p s old = record {
    proper = rw s.proposed_value old.proper;
    permitted = rw s.proposed_value old.permitted;
    voters = old.voters;
    agreed =
        rw s.number (Voters-grow p (net.states p).active_proposal_number old.voters old.agreed);
    tally = ground (arith, s.acks, old.tally);
    few = λ running. ground (arith, s.acks, s.nacks, s.completed, old.few);
    unchanged = λ running none_refused begun.
        rw (s.number, s.proposed_value)
          (g.offers p (net.states p).active_proposal_number _ (
            old.unchanged (ground (arith, s.completed)) (ground (arith, s.nacks))
              (ground (arith, s.inputs))));
    waiting = λ idle. ground (arith, s.number, s.inputs, old.waiting);
    room = ground (arith, s.number, old.room);
    included = λ value e. rw s.proposed_value (old.included value (ground (arith, s.inputs)));
    decided = λ value e.
        let (completed, same, chosen) = old.decided value (ground (arith, s.decisions)) in
        (ground (arith, s.completed), ground (arith, s.proposed_value), Chosen-grow p value chosen);
  }

-- No acceptor has moved, and no proposer went back.
pub record Advances (net net' : Network) : Type 0 where
  pub replies : (a p k : ℕ) → net'.replies a p k ≡ net.replies a p k
  pub inputs : (p : ℕ) → net'.inputs p ≡ net.inputs p
  pub accepted : (a : ℕ) → (net'.states a).accepted_value ≡ (net.states a).accepted_value
  pub numbers :
      (p : ℕ) → (net.states p).active_proposal_number ≤ (net'.states p).active_proposal_number

module _ (members : List ℕ) (allowed : ℕ → Bool) (net net' : Network)
    (inv : Invariant members allowed net) (g : Grows members net net') (f : Advances net net') where
  offered_before :
      (p k : ℕ) (u : Proposal)
      → is_some (net.offers p k) ≡ true
      → net'.offers p k ≡ some u
      → net.offers p k ≡ some u
  offered_before p k u there e = elim (Option-cases (net.offers p k)) [
    | inl nothing ↦ ground arith
    | inr (v, here) ↦ ground (arith, g.offers p k v here)
  ]

  acked_before :
      (a p k : ℕ) (u : Proposal)
      → acked (net.replies a p k) ≡ true
      → net'.offers p k ≡ some u
      → net.offers p k ≡ some u
  acked_before a p k u h e = elim (Option-cases (net.replies a p k)) [
    | inl nothing ↦ ground arith
    | inr (accept, here) ↦ offered_before p k u (inv.replied a p k accept here).asked e
  ]

  Replied-advance :
      (a p k : ℕ) (accept : Accept)
      → net.replies a p k ≡ some accept
      → Replied members allowed net' a p k accept
  Replied-advance a p k accept e =
      let r = inv.replied a p k accept e in
      record {
        number = r.number;
        proper = r.proper;
        permitted = r.permitted;
        asked = elim (Option-cases (net.offers p k)) [
          | inl nothing ↦ ground (arith, r.asked)
          | inr (u, here) ↦ ground (arith, g.offers p k u here)
        ];
        member = r.member;
        held = λ u is_ack offered.
            rw (f.accepted a) (r.held u is_ack (offered_before p k u r.asked offered));
      }

  Accepting-advance : (a : ℕ) → Accepting allowed net' a
  Accepting-advance a =
      let old = inv.accepting a in
      record {
        proper = rw (f.accepted a) old.proper;
        permitted = rw (f.accepted a) old.permitted;
        chain = λ p k q l u v first second hu hv.
            let first' : acked (net.replies a p k) ≡ true = rw (f.replies a p k) at first in
            let second' : acked (net.replies a q l) ≡ true = rw (f.replies a q l) at second in
            old.chain p k q l u v first' second' (acked_before a p k u first' hu)
              (acked_before a q l v second' hv);
      }

  Offered-advance : (p k : ℕ) (u : Proposal) → net.offers p k ≡ some u → Offered allowed net' p k u
  Offered-advance p k u e =
      let o = inv.offered p k u e in
      record {
        number = o.number;
        proper = o.proper;
        permitted = o.permitted;
        latest = omega (arith, f.numbers p, o.latest);
        begun = rw (f.inputs p) o.begun;
      }

  pub advance-Invariant :
      ((p : ℕ) → Proposing members allowed net' p)
      → ((p k : ℕ) (u : Proposal)
          → net'.offers p k ≡ some u
          → (net.offers p k ≡ some u) ⊎ Offered allowed net' p k u)
      → ((a p k : ℕ) → net'.handled a p k ≡ true → is_some (net.replies a p k) ≡ true)
      → Invariant members allowed net'
  advance-Invariant proposing offered asked = record {
    proposing = proposing;
    offered = λ p k u e. elim (offered p k u e) [
      | inl before ↦ Offered-advance p k u before
      | inr now ↦ now
    ];
    replied = λ a p k accept e. Replied-advance a p k accept (rw (f.replies a p k) at e);
    asked_first = λ a p k h. rw (f.replies a p k) (asked a p k h);
    accepting = Accepting-advance;
  }
