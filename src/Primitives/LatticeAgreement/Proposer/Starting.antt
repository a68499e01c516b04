-- ===== src/Primitives/LatticeAgreement/Proposer/Starting.antt =====
-- A round that is proposed has a first future.
use broadcast_service.Base.{
  ℕ, suc, ◌<◌, ◌≤◌, ◌≡◌, ap, inl, inr, true, Option, none, some, List, [], ◌∷◌, ◌++◌, arith, length,
  length-append, length-set, set, get_elem?, get_elem?_total, get_elem?_beyond, get_elem?-set_ne,
  is_some, Option-cases,
}
use native.Mathlib.Decide.{dec_lt, ℕ_discrete}
use broadcast_service.Transport.Bytes.{Bytes}
use broadcast_service.Primitives.LatticeAgreement.State.{
  Future, RoundState, LatticeAgreement, new_round, initialize_next_round_state,
}
use broadcast_service.Primitives.LatticeAgreement.State.Rounds.{round_of, Effect}

-- The rounds before `round` have states, and those from it on have their first futures.
pub record Ready (round : ℕ) (states : List RoundState) : Type 0 where
  pub room : round ≤ length states
  pub fresh : (j : ℕ) → round ≤ j → is_some (round_of states j).preliminary_future ≡ true

-- What keeps the future of the one round that it changes keeps them.
pub Ready-Effect :
    {la la' : LatticeAgreement} {decisions : List (ℕ × List ℕ)} {packets : List (ℕ × Bytes)}
    (round k : ℕ) (state : RoundState)
    → Effect la k state decisions packets la'
    → is_some state.preliminary_future ≡ is_some (round_of la.round_states k).preliminary_future
    → Ready round la.round_states
    → Ready round la'.round_states
Ready-Effect {la} {la'} round k state e same i = record {
  room = omega (arith, i.room, e.grown);
  fresh = λ j le. elim (ℕ_discrete k j) [
    | yes here ↦ ground (arith, e.rounds j, i.fresh j le, same, ap (round_of la.round_states) here)
    | no other ↦ ground (arith, e.rounds j, i.fresh j le)
  ];
}

-- What a round that is started gives.
pub record Started (round : ℕ) (r : Option (Future × List RoundState)) : Type 0 where
  pub future : Future
  pub states : List RoundState
  pub done : r ≡ some (future, states)
  pub ready : Ready (suc round) states

initialize_found :
    (round : ℕ) (value : List ℕ) (states : List RoundState) (state : RoundState) (future : Future)
    → get_elem? states round ≡ some state
    → state.preliminary_future ≡ some future
    → initialize_next_round_state round value states
      ≡ some (
        future,
        set states round (record state { proposed_value = value; preliminary_future = some none }),
      )
unfolding initialize_next_round_state
initialize_found round value states state future e f = ground (arith, e, f)

initialize_new :
    (round : ℕ) (value : List ℕ) (states : List RoundState)
    → round ≡ length states
    → initialize_next_round_state round value states
      ≡ some (some round, states ++ new_round value none ∷ [])
unfolding initialize_next_round_state
initialize_new round value states e =
    let missing : get_elem? states round ≡ none = get_elem?_beyond states round (omega arith) in
    ground (arith, missing, e)

-- Without a state, the round is the next one.
is_next :
    (round : ℕ) (states : List RoundState)
    → round ≤ length states
    → get_elem? states round ≡ none
    → round ≡ length states
is_next round states room missing = elim (dec_lt round (length states)) [
  | yes below ↦
      let there = get_elem?_total states round below in absurd (ground (arith, missing, there.1))
  | no not_below ↦ omega arith
]

Ready-new :
    (round : ℕ) (value : List ℕ) (states : List RoundState)
    → round ≡ length states
    → Ready (suc round) (states ++ new_round value none ∷ [])
Ready-new round value states e =
    let l = length-append states (new_round value none ∷ []) in
    record {
      room = omega (arith, l);
      fresh = λ j le.
          ground
            (arith, get_elem?_beyond (states ++ new_round value none ∷ []) j (omega (arith, l)));
    }

Ready-taken :
    (round : ℕ) (states : List RoundState) (state : RoundState)
    → round < length states
    → Ready round states
    → Ready (suc round) (set states round state)
Ready-taken round states state below i = record {
  room = omega (arith, length-set states round state);
  fresh = λ j le. ground (
    arith,
    get_elem?-set_ne states round j state (λ e. omega (arith, e)),
    i.fresh j (omega arith),
  );
}

future_of :
    (round : ℕ) (states : List RoundState) (state : RoundState)
    → get_elem? states round ≡ some state
    → Ready round states
    → (future : Future) × (state.preliminary_future ≡ some future)
future_of round states state found i =
    let fresh : is_some state.preliminary_future ≡ true =
      ground (arith, found, i.fresh round (omega arith)) in
    elim (Option-cases state.preliminary_future) [
      | inl missing ↦ absurd (ground (arith, missing, fresh))
      | inr there ↦ there
    ]

below_length :
    (round : ℕ) (states : List RoundState) (state : RoundState)
    → get_elem? states round ≡ some state
    → round < length states
below_length round states state found = elim (dec_lt round (length states)) [
  | yes below ↦ below
  | no not_below ↦ absurd (ground (arith, found, get_elem?_beyond states round (omega arith)))
]

pub Started-initialize :
    (round : ℕ) (value : List ℕ) (states : List RoundState)
    → Ready round states
    → Started round (initialize_next_round_state round value states)
Started-initialize round value states i = elim (Option-cases (get_elem? states round)) [
  | inl missing ↦
      let e = is_next round states i.room missing in
      record {
        future = some round;
        states = states ++ new_round value none ∷ [];
        done = initialize_new round value states e;
        ready = Ready-new round value states e;
      }
  | inr (state, found) ↦
      let taken = future_of round states state found i in
      let next : RoundState = record state {
        proposed_value = value;
        preliminary_future = some none;
      } in
      record {
        future = taken.0;
        states = set states round next;
        done = initialize_found round value states state taken.0 found taken.1;
        ready = Ready-taken round states next (below_length round states state found) i;
      }
]
