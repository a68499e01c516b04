-- ===== src/Primitives/LatticeAgreement/Consensus/Tests.antt =====
-- A round of three processes, of which two propose different values.
use broadcast_service.Base.{ℕ, ◌≡◌, refl, ◌⊎◌, List, [], ◌∷◌, some, contains, Subset, nat_eq, arith}
use broadcast_service.Util.SetOperation.{vector_set_union, push_missing}
use broadcast_service.Primitives.LatticeAgreement.Acceptor.{answer}
use broadcast_service.Primitives.LatticeAgreement.Proposer.React.{react, conclude, counted}
use broadcast_service.Primitives.LatticeAgreement.Consensus.{
  Network, Move, proposes, answers, handles, start, move, moves,
}
use broadcast_service.Primitives.LatticeAgreement.Consensus.Invariant.{Allowed, Chosen}
use broadcast_service.Primitives.LatticeAgreement.Consensus.Agreement.{
  WithoutRepetitions, proposed_in, decisions_comparable, decision_valid, decision_by_majority,
}

abbrev members : List ℕ
members = 1 ∷ 2 ∷ 3 ∷ []

-- Process 1 decides 5. The acceptor 2 then refuses 6, and process 2 proposes 6 and 5.
abbrev schedule : List Move
schedule =
    proposes 1 (5 ∷ [])
    ∷ proposes 2 (6 ∷ [])
    ∷ answers 1 1 0
    ∷ answers 2 1 0
    ∷ handles 1 1 0
    ∷ handles 2 1 0
    ∷ answers 2 2 0
    ∷ answers 3 2 0
    ∷ handles 2 2 0
    ∷ handles 3 2 0
    ∷ answers 3 2 1
    ∷ answers 2 2 1
    ∷ handles 3 2 1
    ∷ handles 2 2 1
    ∷ []

without_repetitions : WithoutRepetitions schedule
unfolding contains
without_repetitions = ((refl, tt), ((refl, tt), tt))

abbrev after : Network
after = moves members 0 schedule start

first_decides : after.decisions 1 ≡ some (5 ∷ [])
unfolding moves move answer react conclude counted vector_set_union push_missing contains
first_decides = refl

second_decides : after.decisions 2 ≡ some (6 ∷ 5 ∷ [])
unfolding moves move answer react conclude counted vector_set_union push_missing contains
second_decides = refl

second_proposed : after.inputs 2 ≡ some (6 ∷ [])
unfolding moves move answer react conclude counted vector_set_union push_missing contains
second_proposed = refl

abbrev five : List ℕ
five = 5 ∷ []

abbrev six : List ℕ
six = 6 ∷ []

abbrev both : List ℕ
both = 6 ∷ 5 ∷ []

decisions_comparable_example : Subset five both ⊎ Subset both five
decisions_comparable_example =
    decisions_comparable members 0 schedule (omega arith) without_repetitions 1 2 five both
      first_decides second_decides

decision_valid_example : Subset six both × Allowed (proposed_in schedule) both
decision_valid_example =
    decision_valid members 0 schedule (omega arith) without_repetitions 2 six both second_proposed
      second_decides

decision_by_majority_example : Chosen members after 2 both
decision_by_majority_example =
    decision_by_majority members 0 schedule (omega arith) without_repetitions 2 both second_decides
