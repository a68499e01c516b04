-- ===== src/Primitives/LatticeAgreement/Consensus/Agreement.antt =====
-- Runs of one round of `LatticeAgreement`, include/primitives/lattice_agreement.hpp, and what its
-- processes decide.
use broadcast_service.Base.{
  ℕ, ◌-◌, ◌<◌, ◌≤◌, ◌^◌, ◌≡◌, ◌⊎◌, inl, inr, List, [], ◌∷◌, ◌++◌, Bool, true, false, ◌&&◌, ◌||◌,
  not, some, is_some, length, ltb, contains, contains-append, length-append, length-le-Subset,
  Distinct, Subset, nat_eq, arith, Bool-cases, Option-cases,
}
use broadcast_service.Util.SetOperation.Union.{Distinct-append}
use broadcast_service.Primitives.LatticeAgreement.ProposalMessage.{}
use broadcast_service.Primitives.LatticeAgreement.AcceptMessage.{}
use broadcast_service.Primitives.LatticeAgreement.Consensus.{
  Network, Move, proposes, answers, handles, start, majority_of, move, moves,
}
use broadcast_service.Primitives.LatticeAgreement.Consensus.Answering.{reply-Invariant}
use broadcast_service.Primitives.LatticeAgreement.Consensus.Beginning.{begin-Invariant}
use broadcast_service.Primitives.LatticeAgreement.Consensus.Reacting.{react-After}
use broadcast_service.Primitives.LatticeAgreement.Consensus.Invariant.{
  Allowed, Chosen, Invariant, start-Invariant,
}

-- The values that are proposed have no repetitions and are allowed.
abbrev Proper : (ℕ → Bool) → List Move → Type 0
Proper allowed [] = Unit {0}
Proper allowed (proposes p value ∷ ms) = Distinct value × Allowed allowed value × Proper allowed ms
Proper allowed (answers a p k ∷ ms) = Proper allowed ms
Proper allowed (handles a p k ∷ ms) = Proper allowed ms

-- The values that are proposed have no repetitions.
abbrev pub WithoutRepetitions : List Move → Type 0
WithoutRepetitions [] = Unit {0}
WithoutRepetitions (proposes p value ∷ ms) = Distinct value × WithoutRepetitions ms
WithoutRepetitions (answers a p k ∷ ms) = WithoutRepetitions ms
WithoutRepetitions (handles a p k ∷ ms) = WithoutRepetitions ms

-- Whether somebody proposes a value with `x`.
abbrev pub proposed_in : List Move → ℕ → Bool
proposed_in [] x = false
proposed_in (proposes p value ∷ ms) x = contains x value || proposed_in ms x
proposed_in (answers a p k ∷ ms) x = proposed_in ms x
proposed_in (handles a p k ∷ ms) x = proposed_in ms x

Proper-moves :
    (allowed : ℕ → Bool) (ms : List Move)
    → ((x : ℕ) → proposed_in ms x ≡ true → allowed x ≡ true)
    → WithoutRepetitions ms
    → Proper allowed ms
Proper-moves allowed [] all h = tt
Proper-moves allowed (proposes p value ∷ ms) all h = (
  h.0,
  (λ x e. ground (arith, all x)),
  Proper-moves allowed ms (λ x e. ground (arith, all x)) h.1,
)
Proper-moves allowed (answers a p k ∷ ms) all h = Proper-moves allowed ms all h
Proper-moves allowed (handles a p k ∷ ms) all h = Proper-moves allowed ms all h

module _ (members : List ℕ) (allowed : ℕ → Bool) (round : ℕ)
    (bounded : length members < 2 ^ 32) where
  proposes-Invariant :
      (p : ℕ) (value : List ℕ) (net : Network)
      → Distinct value
      → Allowed allowed value
      → Invariant members allowed net
      → Invariant members allowed (move members round (proposes p value) net)
  unfolding move
  proposes-Invariant p value net proper permitted inv =
      elim (Bool-cases (contains p members && not (is_some (net.inputs p)))) [
        | inl can ↦
            rw can (begin-Invariant members allowed net inv p value (ground arith) proper permitted)
        | inr cannot ↦ rw cannot inv
      ]

  answers-Invariant :
      (a p k : ℕ) (net : Network)
      → Invariant members allowed net
      → Invariant members allowed (move members round (answers a p k) net)
  unfolding move
  answers-Invariant a p k net inv = elim (Option-cases (net.offers p k)) [
    | inl nothing ↦ rw (nothing, move) inv
    | inr (proposal, there) ↦
        elim (Bool-cases (contains a members && not (is_some (net.replies a p k)))) [
          | inl can ↦
              rw (there, can, move)
                (reply-Invariant members allowed net inv a p k proposal there (ground arith)
                  (ground arith))
          | inr cannot ↦ rw (there, cannot, move) inv
        ]
  ]

  handles-Invariant :
      (a p k : ℕ) (net : Network)
      → Invariant members allowed net
      → Invariant members allowed (move members round (handles a p k) net)
  unfolding move
  handles-Invariant a p k net inv = elim (Option-cases (net.replies a p k)) [
    | inl nothing ↦ rw (nothing, move) inv
    | inr (accept, here) ↦
        elim (Bool-cases
          (not (net.handled a p k) && ltb (net.states p).active_proposal_number (2 ^ 32 - 1))) [
            | inl can ↦
                rw (here, can, move)
                  (react-After members allowed round net inv bounded a p k accept here
                    (ground arith) (ground arith))
            | inr cannot ↦ rw (here, cannot, move) inv
          ]
  ]

  moves-Invariant :
      (ms : List Move) (net : Network)
      → Proper allowed ms
      → Invariant members allowed net
      → Invariant members allowed (moves members round ms net)
  unfolding moves
  moves-Invariant [] net proper inv = inv
  moves-Invariant (proposes p value ∷ ms) net proper inv =
      moves-Invariant ms (move members round (proposes p value) net) proper.2
        (proposes-Invariant p value net proper.0 proper.1 inv)
  moves-Invariant (answers a p k ∷ ms) net proper inv =
      moves-Invariant ms (move members round (answers a p k) net) proper
        (answers-Invariant a p k net inv)
  moves-Invariant (handles a p k ∷ ms) net proper inv =
      moves-Invariant ms (move members round (handles a p k) net) proper
        (handles-Invariant a p k net inv)

-- Two lists share an element, or are apart.
common :
    (xs ys : List ℕ)
    → ((a : ℕ) × (contains a xs ≡ true) × (contains a ys ≡ true))
      ⊎ ((a : ℕ) → contains a xs ≡ true → contains a ys ≡ false)
unfolding contains
common [] ys = inr (λ a h. cc)
common (x ∷ xs) ys = elim (Bool-cases (contains x ys)) [
  | inl here ↦ inl (x, ground arith, here)
  | inr apart ↦ elim (common xs ys) [
    | inl (a, left, right) ↦ inl (a, ground arith, right)
    | inr none_common ↦ inr (λ a h. ground (arith, none_common a))
  ]
]

-- Two majorities share a member.
majorities_meet :
    (members xs ys : List ℕ)
    → Distinct xs
    → Distinct ys
    → Subset xs members
    → Subset ys members
    → majority_of members ≤ length xs
    → majority_of members ≤ length ys
    → (a : ℕ) × (contains a xs ≡ true) × (contains a ys ≡ true)
majorities_meet members xs ys dx dy sx sy many_xs many_ys = elim (common xs ys) [
  | inl shared ↦ shared
  | inr apart ↦ absurd (
      omega (
        arith,
        length-append xs ys,
        length-le-Subset (xs ++ ys) members
            (Distinct-append xs ys dx dy (λ a h. ground (arith, apart a)))
            (λ a h. ground (arith, contains-append a xs ys, sx a, sy a)),
      ))
]

module _ (members : List ℕ) (allowed : ℕ → Bool) (net : Network)
    (inv : Invariant members allowed net) where
  Chosen-comparable :
      (p q : ℕ) (u v : List ℕ)
      → Chosen members net p u
      → Chosen members net q v
      → Subset u v ⊎ Subset v u
  Chosen-comparable p q u v first second =
      let (a, in_first, in_second) =
        majorities_meet members first.voters second.voters first.agreed.distinct
          second.agreed.distinct (λ b h. ground (arith, first.agreed.all b h))
          (λ b h. ground (arith, second.agreed.all b h)) first.enough second.enough in
      (inv.accepting a).chain p first.number q second.number _ _
        (ground (arith, first.agreed.all a in_first))
        (ground (arith, second.agreed.all a in_second)) first.offered second.offered

module _ (members : List ℕ) (round : ℕ) (ms : List Move) (bounded : length members < 2 ^ 32)
    (without_repetitions : WithoutRepetitions ms) where
  all_moves : Invariant members (proposed_in ms) (moves members round ms start)
  all_moves =
      moves-Invariant members (proposed_in ms) round bounded ms start
        (Proper-moves (proposed_in ms) ms (λ x h. h) without_repetitions)
        (start-Invariant members (proposed_in ms))

  -- Consistency: for any sequence of moves of fewer than 2^32 members, whose proposed values have no
  -- repetitions, of two values that are decided one contains the other.
  pub decisions_comparable :
      (p q : ℕ) (u v : List ℕ)
      → (moves members round ms start).decisions p ≡ some u
      → (moves members round ms start).decisions q ≡ some v
      → Subset u v ⊎ Subset v u
  decisions_comparable p q u v first second =
      Chosen-comparable members (proposed_in ms) (moves members round ms start) all_moves p q u v
        ((all_moves.proposing p).decided u first).2 ((all_moves.proposing q).decided v second).2

  -- Validity: in such a sequence a process decides a value that contains what it proposed, and each
  -- element of it stands in a value that some process proposes.
  pub decision_valid :
      (p : ℕ) (value decision : List ℕ)
      → (moves members round ms start).inputs p ≡ some value
      → (moves members round ms start).decisions p ≡ some decision
      → Subset value decision × Allowed (proposed_in ms) decision
  decision_valid p value decision input decided =
      let proposing = all_moves.proposing p in
      let same = (proposing.decided decision decided).1 in
      (
        λ x h. ground (arith, same, proposing.included value input x),
        λ x h. ground (arith, same, proposing.permitted x),
      )

  -- Quorum: in such a sequence a value is decided only if more than half of the members have agreed to
  -- exactly this value as a proposal of the process that decides.
  pub decision_by_majority :
      (p : ℕ) (decision : List ℕ)
      → (moves members round ms start).decisions p ≡ some decision
      → Chosen members (moves members round ms start) p decision
  decision_by_majority p decision decided = ((all_moves.proposing p).decided decision decided).2
