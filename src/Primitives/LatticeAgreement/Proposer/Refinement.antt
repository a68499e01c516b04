-- ===== src/Primitives/LatticeAgreement/Proposer/Refinement.antt =====
-- include/primitives/lattice_agreement.hpp: `HandleAck` and `HandleNack`, against `react`.
use broadcast_service.Base.{
  length-set, ◌≤◌, ℕ, ◌<◌, ◌≡◌, refl, sym, subst, List, ◌++◌, some, length, if◌then◌else◌, eqb,
  arith, append-nil, Bool-cases, inl, inr, ◌>>=◌,
}
use broadcast_service.Primitives.LatticeAgreement.ProposalMessage
use broadcast_service.Primitives.LatticeAgreement.ProposalMessage.{ProposalMessage}
use broadcast_service.Primitives.LatticeAgreement.ProposalMessage.RoundTrip as ProposalRoundTrip
use broadcast_service.Primitives.LatticeAgreement.AcceptMessage.{Accept, ack, nack}
use broadcast_service.Primitives.LatticeAgreement.LaMessage
use broadcast_service.Primitives.LatticeAgreement.LaMessage.RoundTrip as LaRoundTrip
use broadcast_service.Primitives.LatticeAgreement.State.{
  RoundState, LatticeAgreement, put, majority, get_round_state, best_effort_broadcast,
}
use broadcast_service.Primitives.LatticeAgreement.State.Rounds.{
  round_of, round_of-set, get_round_state_total, Effect,
}
use broadcast_service.Primitives.LatticeAgreement.Proposer.{
  count_ack, count_nack, next_proposal, proposal_of, broadcast_proposals, decide,
  check_ack_nack_conditions, move_to_next_proposal_number, handle_accept, handle_ack, handle_nack,
  wrap_proposal_message, answered,
}
use broadcast_service.Primitives.LatticeAgreement.Proposer.React.{
  Reaction, ignore, conclude, react, broadcast_of, proposal_bytes, decision_of, offer_of,
}

pub broadcast_proposals_lem :
    (m : ProposalMessage) (la : LatticeAgreement)
    → broadcast_proposals m la
      ≡ some (record la { sent = la.sent ++ broadcast_of la (proposal_bytes m) })
unfolding broadcast_proposals wrap_proposal_message best_effort_broadcast
broadcast_proposals_lem m la = ground (
  arith,
  ProposalRoundTrip.to_bytes_lem m,
  LaRoundTrip.to_bytes_lem
      (record { type = LaMessage.proposal; message = ProposalMessage.contents m }),
)

-- A reaction `r` to an answer for `round` takes `la` to `la'`.
abbrev pub Reacts : LatticeAgreement → ℕ → Reaction → LatticeAgreement → Type 0
Reacts la round r la' =
    Effect la round r.state (decision_of round r.decision) (offer_of la r.offer) la'

-- The state after a reaction.
after : LatticeAgreement → ℕ → Reaction → LatticeAgreement
after la round r =
    put
      (record la {
        decided = la.decided ++ decision_of round r.decision;
        sent = la.sent ++ offer_of la r.offer;
      })
      round r.state

after-Reacts :
    (la : LatticeAgreement) (round : ℕ) (r : Reaction)
    → round < length la.round_states
    → Reacts la round r (after la round r)
unfolding after
after-Reacts la round r h = record {
  rounds = λ j. round_of-set la.round_states round j r.state h;
  grown = omega (arith, length-set la.round_states round r.state);
  decided = refl;
  sent = refl;
  local_id = refl;
  peers = refl;
  network_size = refl;
}

check_lem :
    (round : ℕ) (s : RoundState) (la : LatticeAgreement)
    → check_ack_nack_conditions round s la ≡ some (after la round (conclude (majority la) round s))
unfolding check_ack_nack_conditions conclude after decide move_to_next_proposal_number
check_lem round s la = ground (
  arith,
  append-nil la.sent,
  append-nil la.decided,
  broadcast_proposals_lem (proposal_of round (next_proposal s)) (put la round (next_proposal s)),
)

as-Reacts :
    {la : LatticeAgreement} {round : ℕ} {r r' : Reaction} (la' : LatticeAgreement)
    → r ≡ r'
    → Reacts la round r' la'
    → Reacts la round r la'
as-Reacts {la} {round} la' e h = subst (λ r. Reacts la round r la') (sym e) h

-- A round that exists may also have its state put back.
ignore-Reacts :
    (la : LatticeAgreement) (round : ℕ) (s : RoundState)
    → s ≡ round_of la.round_states round
    → Reacts la round (ignore s) la
ignore-Reacts la round s here = record {
  rounds = λ j. ground arith;
  grown = omega arith;
  decided = sym (append-nil la.decided);
  sent = sym (append-nil la.sent);
  local_id = refl;
  peers = refl;
  network_size = refl;
}

-- The reaction to an answer `a`, which makes `s'` of the state `s` where it counts.
abbrev reaction : ℕ → ℕ → RoundState → Accept → RoundState → Reaction
reaction majority round s a s' =
    if s.completed
    then ignore s
    else if eqb s.active_proposal_number a.proposal_number
    then conclude majority round s'
    else ignore s

answered-Reacts :
    (round : ℕ) (s : RoundState) (a : Accept) (s' : RoundState) (la : LatticeAgreement)
    → round < length la.round_states
    → s ≡ round_of la.round_states round
    → (la' : LatticeAgreement) × (answered round s a s' la ≡ some la')
      × Reacts la round (reaction (majority la) round s a s') la'
unfolding answered
answered-Reacts round s a s' la room here = elim (Bool-cases s.completed) [
  | inl done ↦
      (la, rw done, as-Reacts {r' = ignore s} la (ground arith) (ignore-Reacts la round s here))
  | inr undone ↦ elim (Bool-cases (eqb s.active_proposal_number a.proposal_number)) [
    | inl current ↦ (
      after la round (conclude (majority la) round s'),
      rw (undone, current) (check_lem round s' la),
      as-Reacts _ (ground arith) (after-Reacts la round (conclude (majority la) round s') room),
    )
    | inr stale ↦ (
      la,
      rw (undone, stale),
      as-Reacts {r' = ignore s} la (ground arith) (ignore-Reacts la round s here),
    )
  ]
]

-- Creating rounds first changes nothing of this.
Reacts-same :
    (la : LatticeAgreement) (all : List RoundState) (round : ℕ) (r : Reaction)
    (la' : LatticeAgreement)
    → ((j : ℕ) → round_of all j ≡ round_of la.round_states j)
    → length la.round_states ≤ length all
    → Reacts (record la { round_states = all }) round r la'
    → Reacts la round r la'
Reacts-same la all round r la' same grown e = record {
  rounds = λ j. ground (arith, e.rounds j, same j);
  grown = omega (arith, e.grown, grown);
  decided = e.decided;
  sent = ground (arith, e.sent);
  local_id = e.local_id;
  peers = e.peers;
  network_size = e.network_size;
}

-- The handlers of both kinds of answer: find the round, then count the answer.
located-Reacts :
    (count : RoundState → RoundState) (round : ℕ) (a : Accept) (la : LatticeAgreement)
    → let s = round_of la.round_states round in
      (la' : LatticeAgreement) × ((get_round_state round la.round_states >>= λ (s, all).
      answered round s a (count s) (record la { round_states = all }))
        ≡ some la')
      × Reacts la round (reaction (majority la) round s a (count s)) la'
unfolding majority
located-Reacts count round a la =
    let f = get_round_state_total round la.round_states in
    let s = round_of la.round_states round in
    let (la', done, r) =
      answered-Reacts round s a (count s) (record la { round_states = f.all }) f.room
        (sym (f.same round)) in
    (la', rw f.found done, Reacts-same la f.all round _ la' f.same f.grown r)

-- Whatever the answer and the state, the handler of an answer returns, and what it did is the reaction
-- of the round's state to it: no other round changes, the round has the new state, the decision was
-- handed to the callback, and the new proposal was sent to every peer and to this process.
pub handle_accept-Reacts :
    (round : ℕ) (a : Accept) (la : LatticeAgreement)
    → (la' : LatticeAgreement) × (handle_accept round a la ≡ some la')
      × Reacts la round (react (majority la) round (round_of la.round_states round) a) la'
unfolding handle_accept handle_ack handle_nack react
handle_accept-Reacts round a la = elim (Bool-cases (eqb a.status ack)) [
  | inl is_ack ↦
      let (la', done, r) = located-Reacts count_ack round a la in
      (la', rw is_ack done, as-Reacts la' (ground arith) r)
  | inr not_ack ↦ elim (Bool-cases (eqb a.status nack)) [
    | inl is_nack ↦
        let (la', done, r) = located-Reacts (λ s. count_nack s a.accepted_value) round a la in
        (la', rw (not_ack, is_nack) done, as-Reacts la' (ground arith) r)
    | inr neither ↦ (
      la,
      rw (not_ack, neither),
      as-Reacts {r' = ignore (round_of la.round_states round)} la (ground arith)
          (ignore-Reacts la round (round_of la.round_states round) refl),
    )
  ]
]
