-- ===== src/Primitives/LatticeAgreement/Consensus/Counting.antt =====
-- Lemmas on a proposer that counts an answer, decides, or makes a new proposal.
use broadcast_service.Base.{
  ℕ, suc, ◌+◌, ◌-◌, ◌<◌, ◌^◌, ◌≡◌, refl, sym, inl, inr, List, [], ◌∷◌, Bool, true, false, ◌&&◌,
  Option, none, some, is_some, length, eqb, ltb, leb, contains, Distinct, Subset, Subset-trans,
  nat_eq, arith, Bool-cases, Option-cases,
}
use broadcast_service.Util.SetOperation.{vector_set_union}
use broadcast_service.Util.SetOperation.Union.{contains-union, Distinct-union, left-Subset-union}
use broadcast_service.Primitives.LatticeAgreement.ProposalMessage.{}
use broadcast_service.Primitives.LatticeAgreement.AcceptMessage.{Accept, ack, nack}
use broadcast_service.Primitives.LatticeAgreement.State.{RoundState}
use broadcast_service.Primitives.LatticeAgreement.Proposer.{count_ack, count_nack, next_proposal}
use broadcast_service.Primitives.LatticeAgreement.Consensus.{Network, majority_of}
use broadcast_service.Primitives.LatticeAgreement.Consensus.Carry.{Voters-grow}
use broadcast_service.Primitives.LatticeAgreement.Consensus.Handling.{
  settled, moved, settled-Grows, settled-Invariant, moved-Invariant,
}
use broadcast_service.Primitives.LatticeAgreement.Consensus.Invariant.{
  Allowed, Voters, Replied, Invariant,
}

abbrev pub decide_state : RoundState → RoundState
decide_state s = record s { completed = true; fulfilled = true }

module _ (members : List ℕ) (allowed : ℕ → Bool) (net : Network)
    (inv : Invariant members allowed net) (bounded : length members < 2 ^ 32) (a p k : ℕ)
    (accept : Accept) (here : net.replies a p k ≡ some accept) (new : net.handled a p k ≡ false)
    (running : (net.states p).completed ≡ false)
    (current : k ≡ (net.states p).active_proposal_number) where
  there : is_some (net.replies a p k) ≡ true
  there = ground arith

  begun : is_some (net.inputs p) ≡ true
  begun = elim (Option-cases (net.offers p k)) [
    | inl nothing ↦ ground (arith, (inv.replied a p k accept here).asked)
    | inr (u, offered) ↦ (inv.offered p k u offered).begun
  ]

  -- Nothing was decided by a proposer that is running.
  undecided : net.decisions p ≡ none
  undecided = elim (Option-cases (net.decisions p)) [
    | inl nothing ↦ nothing
    | inr (value, decided) ↦ ground (arith, ((inv.proposing p).decided value decided).0)
  ]

  not_voter : contains a (inv.proposing p).voters ≡ false
  not_voter = ground (arith, (inv.proposing p).agreed.all a)

  module _ (is_ack : accept.status ≡ ack) where
    -- The acceptor joins the voters.
    more_voters :
        (s : RoundState) (d : Option (List ℕ))
        → s.accepted_value ≡ (net.states p).accepted_value
        → Voters members
            (settled a p k s d net)
            p
            (net.states p).active_proposal_number
            (a ∷ (inv.proposing p).voters)
    unfolding contains
    more_voters s d same =
        let old = (inv.proposing p).agreed in
        record {
          distinct = (not_voter, old.distinct);
          all = λ b h. elim (Bool-cases (eqb a b)) [
            | inl now ↦ ground (arith, (inv.replied a p k accept here).member)
            | inr other ↦
                (settled-Grows members allowed net inv a p k there s same d).votes b p
                  (net.states p).active_proposal_number (old.all b (ground arith))
          ];
        }

    acks_next : (count_ack (net.states p)).acks ≡ suc (length (inv.proposing p).voters)
    acks_next = omega (arith, (inv.proposing p).tally, (inv.proposing p).few running)

    pub counted-ack :
        leb (majority_of members) (count_ack (net.states p)).acks ≡ false
        → (ltb 0 (net.states p).nacks
            && leb (majority_of members) ((net.states p).acks + 1 + (net.states p).nacks))
          ≡ false
        → Invariant members allowed (settled a p k (count_ack (net.states p)) none net)
    counted-ack unfinished stay =
        let s = count_ack (net.states p) in
        let old = inv.proposing p in
        let at_p : (settled a p k s none net).states p ≡ s = ground arith in
        settled-Invariant members allowed net inv a p k there s refl none refl (record {
          proper = rw at_p old.proper;
          permitted = rw at_p old.permitted;
          voters = a ∷ old.voters;
          agreed = rw at_p (more_voters s none refl);
          tally = rw at_p acks_next;
          few = λ _. ground (arith, acks_next, at_p, old.tally, old.few running);
          unchanged =
              λ _ none_refused _. rw at_p (old.unchanged running (ground (arith, at_p)) begun);
          waiting = λ idle. ground (arith, begun);
          room = rw at_p old.room;
          included = λ value e. rw at_p (old.included value e);
          decided = λ value e. ground (arith, undecided);
        })

    -- With enough acks nobody has refused, and the value is the one that the voters agreed to.
    pub decided-ack :
        leb (majority_of members) (count_ack (net.states p)).acks ≡ true
        → Invariant members allowed (
            settled a p k
              (decide_state (count_ack (net.states p)))
              (some (net.states p).proposed_value)
              net)
    decided-ack enough =
        let value = (net.states p).proposed_value in
        let s = decide_state (count_ack (net.states p)) in
        let old = inv.proposing p in
        let at_p : (settled a p k s (some value) net).states p ≡ s = ground arith in
        let agreed = more_voters s (some value) refl in
        settled-Invariant members allowed net inv a p k there s refl (some value) refl (record {
          proper = rw at_p old.proper;
          permitted = rw at_p old.permitted;
          voters = a ∷ old.voters;
          agreed = rw at_p agreed;
          tally = rw at_p acks_next;
          few = λ going. ground (arith, at_p);
          unchanged = λ going none_refused _. ground (arith, at_p);
          waiting = λ idle. ground (arith, begun);
          room = rw at_p old.room;
          included = λ input e. rw at_p (old.included input e);
          decided = λ decision e.
              let same : value ≡ decision = ground arith in
              (
                ground (arith, at_p),
                ground (arith, at_p),
                record {
                  number = (net.states p).active_proposal_number;
                  voters = a ∷ old.voters;
                  agreed = agreed;
                  enough = ground (arith, acks_next);
                  offered = rw (sym same) (
                      old.unchanged running (ground (arith, acks_next, old.tally, old.few running))
                        begun);
                },
              );
        })

  -- A new proposal: the numbers of acks and nacks start again.
  pub moved-next :
      (s : RoundState)
      → s.accepted_value ≡ (net.states p).accepted_value
      → s.active_proposal_number ≡ (net.states p).active_proposal_number
      → s.completed ≡ (net.states p).completed
      → (net.states p).active_proposal_number < 2 ^ 32 - 1
      → Distinct s.proposed_value
      → Allowed allowed s.proposed_value
      → Subset (net.states p).proposed_value s.proposed_value
      → Invariant members allowed (moved a p k (next_proposal s) net)
  unfolding contains
  moved-next s accepted number completed room proper permitted larger =
      let n = next_proposal s in
      let old = inv.proposing p in
      let at_p : (moved a p k n net).states p ≡ n = ground arith in
      let step : n.active_proposal_number ≡ (net.states p).active_proposal_number + 1 =
        omega arith in
      moved-Invariant members allowed net inv a p k there n accepted step begun proper permitted
        (record {
          proper = rw at_p proper;
          permitted = rw at_p permitted;
          voters = [];
          agreed = record { distinct = tt; all = λ b h. ground arith };
          tally = rw at_p refl;
          few = λ going. rw at_p (omega arith);
          unchanged = λ going none_refused _. ground (arith, at_p);
          waiting = λ idle. ground (arith, begun);
          room = ground (arith, at_p, step);
          included = λ value e. rw at_p (
              Subset-trans value (net.states p).proposed_value s.proposed_value
                (old.included value e) larger);
          decided = λ value e. ground (arith, undecided);
        })

  module _ (is_nack : accept.status ≡ nack) where
    reply_is : Replied members allowed net a p k accept
    reply_is = inv.replied a p k accept here

    pub nack-Distinct :
        Distinct (vector_set_union (net.states p).proposed_value accept.accepted_value)
    nack-Distinct =
        Distinct-union (net.states p).proposed_value accept.accepted_value (inv.proposing p).proper
          reply_is.proper

    pub nack-Allowed :
        Allowed allowed (vector_set_union (net.states p).proposed_value accept.accepted_value)
    nack-Allowed x h = ground (
      arith,
      contains-union x (net.states p).proposed_value accept.accepted_value,
      (inv.proposing p).permitted x,
      reply_is.permitted x,
    )

    pub counted-nack :
        ((net.states p).acks + ((net.states p).nacks + 1)) < majority_of members
        → Invariant members allowed
            (settled a p k (count_nack (net.states p) accept.accepted_value) none net)
    counted-nack few =
        let s = count_nack (net.states p) accept.accepted_value in
        let old = inv.proposing p in
        let at_p : (settled a p k s none net).states p ≡ s = ground arith in
        settled-Invariant members allowed net inv a p k there s refl none refl (record {
          proper = rw at_p nack-Distinct;
          permitted = rw at_p nack-Allowed;
          voters = old.voters;
          agreed = rw at_p (
              Voters-grow members allowed net (settled a p k s none net)
                (settled-Grows members allowed net inv a p k there s refl none) p
                (net.states p).active_proposal_number old.voters old.agreed);
          tally = rw at_p old.tally;
          few = λ going. ground (arith, at_p);
          unchanged = λ going none_refused _. ground (arith, at_p);
          waiting = λ idle. ground (arith, begun);
          room = rw at_p old.room;
          included = λ value e. rw at_p (
              Subset-trans value (net.states p).proposed_value s.proposed_value
                (old.included value e)
                (left-Subset-union (net.states p).proposed_value accept.accepted_value));
          decided = λ value e. ground (arith, undecided);
        })
