-- ===== src/Primitives/LatticeAgreement/Consensus/Invariant.antt =====
-- The invariant of one round of `LatticeAgreement`, include/primitives/lattice_agreement.hpp.
use broadcast_service.Base.{
  ℕ, ◌+◌, ◌<◌, ◌≤◌, ◌^◌, ◌≡◌, refl, ◌⊎◌, List, [], Bool, true, false, ◌&&◌, Option, none, some,
  is_some, length, eqb, contains, Distinct, Subset, nat_eq, arith,
}
use broadcast_service.Primitives.LatticeAgreement.ProposalMessage.{Proposal}
use broadcast_service.Primitives.LatticeAgreement.AcceptMessage.{Accept, ack}
use broadcast_service.Primitives.LatticeAgreement.State.{}
use broadcast_service.Primitives.LatticeAgreement.Consensus.{Network, start, majority_of}

-- All elements of a value are allowed.
abbrev pub Allowed : (ℕ → Bool) → List ℕ → Type 0
Allowed allowed value = (x : ℕ) → contains x value ≡ true → allowed x ≡ true

abbrev pub acked : Option Accept → Bool
acked none = false
acked (some accept) = eqb accept.status ack

-- A member whose ack was counted.
abbrev pub voted : List ℕ → Network → ℕ → ℕ → ℕ → Bool
voted members net a p k = acked (net.replies a p k) && net.handled a p k && contains a members

-- Distinct members have agreed to a proposal.
pub record Voters (members : List ℕ) (net : Network) (p k : ℕ) (voters : List ℕ) : Type 0 where
  pub distinct : Distinct voters
  pub all : (a : ℕ) → contains a voters ≡ true → voted members net a p k ≡ true

-- A value, decided by `p`, that a majority agreed to.
pub record Chosen (members : List ℕ) (net : Network) (p : ℕ) (value : List ℕ) : Type 0 where
  pub number : ℕ
  pub voters : List ℕ
  pub agreed : Voters members net p number voters
  pub enough : majority_of members ≤ length voters
  pub offered :
      net.offers p number
      ≡ some (record { proposed_value = value; active_proposal_number = number })

-- A proposer `p`.
pub record Proposing (members : List ℕ) (allowed : ℕ → Bool) (net : Network) (p : ℕ) : Type 0 where
  pub proper : Distinct (net.states p).proposed_value
  pub permitted : Allowed allowed (net.states p).proposed_value
  pub voters : List ℕ
  pub agreed : Voters members net p (net.states p).active_proposal_number voters
  pub tally : (net.states p).acks ≡ length voters
  -- an open round has not enough answers
  pub few :
      (net.states p).completed ≡ false
      → (net.states p).acks + (net.states p).nacks < majority_of members
  -- as long as nobody refuses, the value is the one that was proposed
  pub unchanged :
      (net.states p).completed ≡ false
      → (net.states p).nacks ≡ 0
      → is_some (net.inputs p) ≡ true
      → net.offers p (net.states p).active_proposal_number
        ≡ some (record {
          proposed_value = (net.states p).proposed_value;
          active_proposal_number = (net.states p).active_proposal_number;
        })
  pub waiting : is_some (net.inputs p) ≡ false → (net.states p).active_proposal_number ≡ 0
  pub room : (net.states p).active_proposal_number < 2 ^ 32
  pub included :
      (value : List ℕ) → net.inputs p ≡ some value → Subset value (net.states p).proposed_value
  pub decided :
      (value : List ℕ)
      → net.decisions p ≡ some value
      → ((net.states p).completed ≡ true)
        × ((net.states p).proposed_value ≡ value)
        × Chosen members net p value

-- The proposal of `p` with number `k`.
pub record Offered (allowed : ℕ → Bool) (net : Network) (p k : ℕ) (proposal : Proposal)
    : Type 0 where
  pub number : proposal.active_proposal_number ≡ k
  pub proper : Distinct proposal.proposed_value
  pub permitted : Allowed allowed proposal.proposed_value
  pub latest : k ≤ (net.states p).active_proposal_number
  pub begun : is_some (net.inputs p) ≡ true

-- The answer of `a` to it.
pub record Replied (members : List ℕ) (allowed : ℕ → Bool) (net : Network) (a p k : ℕ)
    (accept : Accept) : Type 0 where
  pub number : accept.proposal_number ≡ k
  pub proper : Distinct accept.accepted_value
  pub permitted : Allowed allowed accept.accepted_value
  pub asked : is_some (net.offers p k) ≡ true
  pub member : contains a members ≡ true
  -- an acceptor keeps all that it agreed to
  pub held :
      (proposal : Proposal)
      → eqb accept.status ack ≡ true
      → net.offers p k ≡ some proposal
      → Subset proposal.proposed_value (net.states a).accepted_value

-- Two proposals that one acceptor agreed to.
abbrev pub Chain : Network → ℕ → Type 0
Chain net a =
    (p k q l : ℕ) (u v : Proposal)
    → acked (net.replies a p k) ≡ true
    → acked (net.replies a q l) ≡ true
    → net.offers p k ≡ some u
    → net.offers q l ≡ some v
    → Subset u.proposed_value v.proposed_value ⊎ Subset v.proposed_value u.proposed_value

pub record Accepting (allowed : ℕ → Bool) (net : Network) (a : ℕ) : Type 0 where
  pub proper : Distinct (net.states a).accepted_value
  pub permitted : Allowed allowed (net.states a).accepted_value
  pub chain : Chain net a

pub record Invariant (members : List ℕ) (allowed : ℕ → Bool) (net : Network) : Type 0 where
  pub proposing : (p : ℕ) → Proposing members allowed net p
  pub offered :
      (p k : ℕ) (proposal : Proposal)
      → net.offers p k ≡ some proposal
      → Offered allowed net p k proposal
  pub replied :
      (a p k : ℕ) (accept : Accept)
      → net.replies a p k ≡ some accept
      → Replied members allowed net a p k accept
  pub asked_first : (a p k : ℕ) → net.handled a p k ≡ true → is_some (net.replies a p k) ≡ true
  pub accepting : (a : ℕ) → Accepting allowed net a

pub start-Invariant : (members : List ℕ) (allowed : ℕ → Bool) → Invariant members allowed start
unfolding contains
start-Invariant members allowed = record {
  proposing = λ p. record {
    proper = tt;
    permitted = λ x h. cc;
    voters = [];
    agreed = record { distinct = tt; all = λ a h. cc };
    tally = refl;
    few = λ running. omega arith;
    unchanged = λ running none_refused begun. cc;
    waiting = λ idle. refl;
    room = omega arith;
    included = λ value e. cc;
    decided = λ value e. cc;
  };
  offered = λ p k proposal e. cc;
  replied = λ a p k accept e. cc;
  asked_first = λ a p k e. cc;
  accepting = λ a. record { proper = tt; permitted = λ x h. cc; chain = λ p k q l u v h. cc };
}
