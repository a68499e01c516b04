-- ===== src/Primitives/LatticeAgreement/Consensus/Beginning.antt =====
-- Lemmas on a process that proposes its value.
use broadcast_service.Base.{
  ℕ, ◌≡◌, ◌≢◌, refl, sym, inl, inr, List, Bool, true, false, ◌&&◌, some, is_some, eqb, Distinct,
  nat_eq, arith, Bool-cases, Option-cases,
}
use native.Mathlib.Decide.{ℕ_discrete}
use broadcast_service.Primitives.LatticeAgreement.ProposalMessage.{Proposal}
use broadcast_service.Primitives.LatticeAgreement.AcceptMessage.{Accept}
use broadcast_service.Primitives.LatticeAgreement.State.{}
use broadcast_service.Primitives.LatticeAgreement.Acceptor.{}
use broadcast_service.Primitives.LatticeAgreement.Acceptor.Answers.{}
use broadcast_service.Primitives.LatticeAgreement.Consensus.{Network, begin}
use broadcast_service.Primitives.LatticeAgreement.Consensus.Carry.{
  Grows, SameProposer, Proposing-same, Voters-grow,
}
use broadcast_service.Primitives.LatticeAgreement.Consensus.Invariant.{
  Allowed, acked, Proposing, Offered, Replied, Invariant,
}

module _ (members : List ℕ) (allowed : ℕ → Bool) (net : Network)
    (inv : Invariant members allowed net) (p : ℕ) (value : List ℕ)
    (idle : is_some (net.inputs p) ≡ false) (proper : Distinct value)
    (permitted : Allowed allowed value) where
  -- A process that has proposed nothing has no proposals.
  no_offer : (l : ℕ) → is_some (net.offers p l) ≡ false
  no_offer l = elim (Option-cases (net.offers p l)) [
    | inl nothing ↦ ground arith
    | inr (u, here) ↦ ground (arith, (inv.offered p l u here).begun)
  ]

  begin-Grows : Grows members net (begin p value net)
  begin-Grows = record { votes = λ b q l h. h; offers = λ q l u e. ground (arith, no_offer l) }

  Proposing-begin : Proposing members allowed (begin p value net) p
  Proposing-begin =
      let old = inv.proposing p in
      let same : ((begin p value net).states p).proposed_value ≡ value = ground arith in
      let number : ((begin p value net).states p).active_proposal_number
          ≡ (net.states p).active_proposal_number =
        ground arith in
      record {
        proper = rw same proper;
        permitted = rw same permitted;
        voters = old.voters;
        agreed = rw number (
            Voters-grow members allowed net (begin p value net) begin-Grows p
              (net.states p).active_proposal_number old.voters old.agreed);
        tally = ground (arith, old.tally);
        few = ground (arith, old.few);
        unchanged = λ running none_refused begun. ground (arith, old.waiting idle);
        waiting = λ begun. ground arith;
        room = ground (arith, old.room);
        included = λ input e. ground arith;
        decided = λ decision e.
            let chosen = (old.decided decision e).2 in
            ground (arith, no_offer chosen.number, chosen.offered);
      }

  begin-SameProposer : (q : ℕ) → p ≢ q → SameProposer net (begin p value net) q
  begin-SameProposer q other = record {
    proposed_value = ground arith;
    number = ground arith;
    acks = ground arith;
    nacks = ground arith;
    completed = ground arith;
    inputs = ground arith;
    decisions = refl;
  }

  begin_accepted :
      (b : ℕ) → ((begin p value net).states b).accepted_value ≡ (net.states b).accepted_value
  begin_accepted b = ground arith

  begin-Offered :
      (q l : ℕ) (u : Proposal)
      → (begin p value net).offers q l ≡ some u
      → Offered allowed (begin p value net) q l u
  begin-Offered q l u e = elim (Bool-cases (eqb p q && eqb 0 l)) [
    | inl now ↦
        let same : u ≡ record { proposed_value = value; active_proposal_number = 0 } =
          ground arith in
        rw same (record {
          number = ground arith;
          proper = proper;
          permitted = permitted;
          latest = ground arith;
          begun = ground arith;
        })
    | inr before ↦
        let o = inv.offered q l u (ground arith) in
        record {
          number = o.number;
          proper = o.proper;
          permitted = o.permitted;
          latest = ground (arith, o.latest);
          begun = ground (arith, o.begun);
        }
  ]

  begin-Replied :
      (b q l : ℕ) (accept : Accept)
      → net.replies b q l ≡ some accept
      → Replied members allowed (begin p value net) b q l accept
  begin-Replied b q l accept e =
      let r = inv.replied b q l accept e in
      record {
        number = r.number;
        proper = r.proper;
        permitted = r.permitted;
        asked = ground (arith, r.asked);
        member = r.member;
        held = λ u is_ack offered.
            rw (begin_accepted b) (r.held u is_ack (ground (arith, r.asked, no_offer l)));
      }

  -- An acked proposal was there before.
  acked_before :
      (b q l : ℕ) (u : Proposal)
      → acked (net.replies b q l) ≡ true
      → (begin p value net).offers q l ≡ some u
      → net.offers q l ≡ some u
  acked_before b q l u h e = elim (Option-cases (net.replies b q l)) [
    | inl nothing ↦ ground arith
    | inr (accept, here) ↦ ground (arith, (inv.replied b q l accept here).asked, no_offer l)
  ]

  pub begin-Invariant : Invariant members allowed (begin p value net)
  begin-Invariant = record {
    proposing = λ q. elim (ℕ_discrete p q) [
      | yes here ↦ rw (sym here) Proposing-begin
      | no other ↦
          Proposing-same members allowed net (begin p value net) begin-Grows q
            (begin-SameProposer q other) (inv.proposing q)
    ];
    offered = begin-Offered;
    replied = begin-Replied;
    asked_first = inv.asked_first;
    accepting = λ b. record {
      proper = rw (begin_accepted b) (inv.accepting b).proper;
      permitted = rw (begin_accepted b) (inv.accepting b).permitted;
      chain = λ q l r m u v first second hu hv.
          (inv.accepting b).chain q l r m u v first second (acked_before b q l u first hu)
            (acked_before b r m v second hv);
    };
  }
