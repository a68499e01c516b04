-- ===== src/Primitives/LatticeAgreement/Consensus/Answering.antt =====
-- Lemmas on a process that answers a proposal.
use broadcast_service.Base.{
  ℕ, ◌≡◌, refl, sym, inl, inr, List, Bool, true, false, ◌&&◌, some, is_some, eqb, contains,
  Distinct, Subset, nat_eq, arith, Bool-cases, Option-cases,
}
use native.Mathlib.Decide.{ℕ_discrete}
use broadcast_service.Primitives.LatticeAgreement.ProposalMessage.{Proposal}
use broadcast_service.Primitives.LatticeAgreement.AcceptMessage.{Accept, ack}
use broadcast_service.Primitives.LatticeAgreement.State.{}
use broadcast_service.Primitives.LatticeAgreement.Acceptor.{answer}
use broadcast_service.Primitives.LatticeAgreement.Acceptor.Answers.{Answers, answer-Answers}
use broadcast_service.Primitives.LatticeAgreement.Consensus.{Network, reply}
use broadcast_service.Primitives.LatticeAgreement.Consensus.Carry.{
  Grows, SameProposer, Proposing-same,
}
use broadcast_service.Primitives.LatticeAgreement.Consensus.Invariant.{
  Allowed, acked, Replied, Chain, Accepting, Invariant,
}

module _ (members : List ℕ) (allowed : ℕ → Bool) (net : Network)
    (inv : Invariant members allowed net) (a p k : ℕ) (proposal : Proposal)
    (there : net.offers p k ≡ some proposal) (new : is_some (net.replies a p k) ≡ false)
    (member : contains a members ≡ true) where
  answered :
      Answers
        (net.states a)
        proposal
        (answer (net.states a) proposal).0
        (answer (net.states a) proposal).1
  answered =
      answer-Answers (net.states a) proposal (inv.accepting a).proper
        (inv.offered p k proposal there).proper

  reply-Grows : Grows members net (reply a p k proposal net)
  reply-Grows = record { votes = λ b q l h. ground (arith, new); offers = λ q l u e. e }

  reply-SameProposer : (q : ℕ) → SameProposer net (reply a p k proposal net) q
  reply-SameProposer q = record {
    proposed_value = ground (arith, answered.kept);
    number = ground (arith, answered.kept);
    acks = ground (arith, answered.kept);
    nacks = ground (arith, answered.kept);
    completed = ground (arith, answered.kept);
    inputs = refl;
    decisions = refl;
  }

  -- Nothing that was accepted is lost.
  grown :
      (b : ℕ)
      → Subset (net.states b).accepted_value ((reply a p k proposal net).states b).accepted_value
  grown b x h = ground (arith, answered.joins x)

  new_value-Allowed : Allowed allowed (answer (net.states a) proposal).0.accepted_value
  new_value-Allowed x h = ground (
    arith,
    answered.joins x,
    (inv.accepting a).permitted x,
    (inv.offered p k proposal there).permitted x,
  )

  reply_value :
      (x : ℕ)
      → contains x (answer (net.states a) proposal).1.accepted_value ≡ true
      → contains x (answer (net.states a) proposal).0.accepted_value ≡ true
  unfolding contains
  reply_value x h = elim (Bool-cases (eqb (answer (net.states a) proposal).1.status ack)) [
    | inl is_ack ↦ ground (arith, answered.without_value)
    | inr refused ↦ ground (arith, answered.refuses)
  ]

  reply-Distinct : Distinct (answer (net.states a) proposal).1.accepted_value
  unfolding contains
  reply-Distinct = elim (Bool-cases (eqb (answer (net.states a) proposal).1.status ack)) [
    | inl is_ack ↦ rw (answered.without_value (ground arith)) tt
    | inr refused ↦ rw (answered.refuses (ground arith)).1 answered.proper
  ]

  new-Replied :
      Replied members allowed (reply a p k proposal net) a p k (answer (net.states a) proposal).1
  new-Replied = record {
    number = ground (arith, answered.number, (inv.offered p k proposal there).number);
    proper = reply-Distinct;
    permitted = λ x h. new_value-Allowed x (reply_value x h);
    asked = ground arith;
    member = member;
    held = λ u is_ack e x h. ground (arith, answered.joins x);
  }

  old-Replied :
      (b q l : ℕ) (accept : Accept)
      → net.replies b q l ≡ some accept
      → Replied members allowed (reply a p k proposal net) b q l accept
  old-Replied b q l accept e =
      let r = inv.replied b q l accept e in
      record {
        number = r.number;
        proper = r.proper;
        permitted = r.permitted;
        asked = r.asked;
        member = r.member;
        held = λ u is_ack offered x h. grown b x (r.held u is_ack offered x h);
      }

  -- An acceptor that agrees has accepted nothing else.
  agreed-Subset :
      (q l : ℕ) (v : Proposal)
      → (answer (net.states a) proposal).1.status ≡ ack
      → acked (net.replies a q l) ≡ true
      → net.offers q l ≡ some v
      → Subset v.proposed_value proposal.proposed_value
  agreed-Subset q l v is_ack old offered x h = elim (Option-cases (net.replies a q l)) [
    | inl nothing ↦ ground arith
    | inr (accept, here) ↦
        answered.agrees.0 is_ack x
          ((inv.replied a q l accept here).held v (ground arith) offered x h)
  ]

  Chain-reply : Chain (reply a p k proposal net) a
  Chain-reply q l r m u v first second hu hv = elim (Bool-cases (eqb p q && eqb k l)) [
    | inl new_first ↦
        let status : (answer (net.states a) proposal).1.status ≡ ack = ground arith in
        let same : u ≡ proposal = ground arith in
        elim (Bool-cases (eqb p r && eqb k m)) [
          | inl new_second ↦ let same' : v ≡ u = ground arith in rw same' (inl (λ x h. h))
          | inr old_second ↦ rw same (inr (agreed-Subset r m v status (ground arith) hv))
        ]
    | inr old_first ↦ elim (Bool-cases (eqb p r && eqb k m)) [
      | inl new_second ↦
          let status : (answer (net.states a) proposal).1.status ≡ ack = ground arith in
          let same : v ≡ proposal = ground arith in
          rw same (inl (agreed-Subset q l u status (ground arith) hu))
      | inr old_second ↦ (inv.accepting a).chain q l r m u v (ground arith) (ground arith) hu hv
    ]
  ]

  Accepting-reply : (b : ℕ) → Accepting allowed (reply a p k proposal net) b
  Accepting-reply b = elim (ℕ_discrete a b) [
    | yes here ↦
        let same : ((reply a p k proposal net).states a).accepted_value
            ≡ (answer (net.states a) proposal).0.accepted_value =
          ground arith in
        rw (sym here) (record {
          proper = rw same answered.proper;
          permitted = rw same new_value-Allowed;
          chain = Chain-reply;
        })
    | no other ↦
        let same : ((reply a p k proposal net).states b).accepted_value
            ≡ (net.states b).accepted_value =
          ground arith in
        record {
          proper = rw same (inv.accepting b).proper;
          permitted = rw same (inv.accepting b).permitted;
          chain = λ q l r m u v first second hu hv.
              (inv.accepting b).chain q l r m u v (ground arith) (ground arith) hu hv;
        }
  ]

  pub reply-Invariant : Invariant members allowed (reply a p k proposal net)
  reply-Invariant = record {
    proposing = λ q.
        Proposing-same members allowed net (reply a p k proposal net) reply-Grows q
          (reply-SameProposer q) (inv.proposing q);
    offered = λ q l u e.
        let o = inv.offered q l u e in
        record {
          number = o.number;
          proper = o.proper;
          permitted = o.permitted;
          latest = ground (arith, (reply-SameProposer q).number, o.latest);
          begun = o.begun;
        };
    replied = λ b q l accept e. elim (Bool-cases (eqb a b && (eqb p q && eqb k l))) [
      | inl now ↦
          let acceptor : b ≡ a = ground arith in
          let proposer : q ≡ p = ground arith in
          let number : l ≡ k = ground arith in
          let answer_is : accept ≡ (answer (net.states a) proposal).1 = ground arith in
          rw (acceptor, proposer, number, answer_is) new-Replied
      | inr before ↦ old-Replied b q l accept (ground arith)
    ];
    asked_first = λ b q l h. ground (arith, inv.asked_first b q l);
    accepting = Accepting-reply;
  }
