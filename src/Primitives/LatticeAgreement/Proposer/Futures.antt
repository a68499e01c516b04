-- ===== src/Primitives/LatticeAgreement/Proposer/Futures.antt =====
-- `Propose` gives a future for each proposal.
use broadcast_service.Base.{
  ℕ, suc, ◌+◌, ◌%◌, ◌^◌, ◌<◌, ◌≡◌, refl, sym, ap, ◌∙◌, subst, Option, some, List, [], ◌∷◌, ◌++◌,
  arith, length, append-nil,
}
use broadcast_service.Transport.Bytes.{Bytes}
use broadcast_service.Primitives.LatticeAgreement.ProposalMessage.{Proposal, ProposalMessage}
use broadcast_service.Primitives.LatticeAgreement.State.{
  Future, RoundState, LatticeAgreement, initialize_next_round_state,
}
use broadcast_service.Primitives.LatticeAgreement.Proposer.{initialize_rounds, propose}
use broadcast_service.Primitives.LatticeAgreement.Proposer.React.{broadcast_of, proposal_bytes}
use broadcast_service.Primitives.LatticeAgreement.Proposer.Refinement.{broadcast_proposals_lem}
use broadcast_service.Primitives.LatticeAgreement.Proposer.Starting.{Ready, Started-initialize}

-- What the proposals of a message give, whose last round is `last`.
pub record Proposed (last count : ℕ) (la : LatticeAgreement) (sent : List (ℕ × Bytes))
    (r : Option (List Future × LatticeAgreement)) : Type 0 where
  pub futures : List Future
  pub next : LatticeAgreement
  pub done : r ≡ some (futures, next)
  pub number : length futures ≡ count
  pub ready : Ready last next.round_states
  pub messages : next.sent ≡ la.sent ++ sent
  pub same : (next.peers ≡ la.peers) × (next.local_id ≡ la.local_id)

initialize_more :
    (round : ℕ) (proposal : Proposal) (proposals : List Proposal) (la next : LatticeAgreement)
    (future : Future) (states : List RoundState) (futures : List Future)
    → initialize_next_round_state round proposal.proposed_value la.round_states
      ≡ some (future, states)
    → initialize_rounds ((round + 1) % 2 ^ 32) proposals (record la { round_states = states })
      ≡ some (futures, next)
    → initialize_rounds round (proposal ∷ proposals) la ≡ some (future ∷ futures, next)
unfolding initialize_rounds
initialize_more round proposal proposals la next future states futures e f = rw (e, f) refl

Proposed-initialize_rounds :
    (round : ℕ) (proposals : List Proposal) (la : LatticeAgreement)
    → round + length proposals < 2 ^ 32
    → Ready round la.round_states
    → Proposed
        (round + length proposals)
        (length proposals)
        la
        []
        (initialize_rounds round proposals la)
unfolding initialize_rounds
Proposed-initialize_rounds round [] la fits i =
    let e : round ≡ round + 0 = omega arith in
    record {
      futures = [];
      next = la;
      done = refl;
      number = refl;
      ready = subst (λ k. Ready k la.round_states) e i;
      messages = sym (append-nil la.sent);
      same = (refl, refl);
    }
Proposed-initialize_rounds round (proposal ∷ proposals) la fits i =
    let first = Started-initialize round proposal.proposed_value la.round_states i in
    let started : LatticeAgreement = record la { round_states = first.states } in
    let e : suc round ≡ (round + 1) % 2 ^ 32 = omega arith in
    let rest =
      Proposed-initialize_rounds ((round + 1) % 2 ^ 32) proposals started (omega arith)
        (subst (λ k. Ready k first.states) e first.ready) in
    let last : (round + 1) % 2 ^ 32 + length proposals ≡ round + suc (length proposals) =
      omega arith in
    record {
      futures = first.future ∷ rest.futures;
      next = rest.next;
      done =
          initialize_more round proposal proposals la rest.next first.future first.states
            rest.futures first.done rest.done;
      number = ap suc rest.number;
      ready = subst (λ k. Ready k rest.next.round_states) last rest.ready;
      messages = rest.messages;
      same = rest.same;
    }

propose_all_rounds :
    (m : ProposalMessage) (la next : LatticeAgreement) (futures : List Future)
    → initialize_rounds m.first_round_id m.proposals la ≡ some (futures, next)
    → propose m la
      ≡ some (futures, record next { sent = next.sent ++ broadcast_of next (proposal_bytes m) })
unfolding propose
propose_all_rounds m la next futures e = rw (e, broadcast_proposals_lem m next) refl

broadcast_same :
    (la la' : LatticeAgreement) (message : Bytes)
    → (la'.peers ≡ la.peers) × (la'.local_id ≡ la.local_id)
    → broadcast_of la' message ≡ broadcast_of la message
broadcast_same la la' message e = rw (e.0, e.1) refl

-- In a state whose next rounds have their first futures, `Propose` fails no assertion, and gives as many
-- futures as the message has proposals; the rounds behind them have theirs, and the message is
-- sent to every process.
pub Proposed-propose :
    (m : ProposalMessage) (la : LatticeAgreement)
    → m.first_round_id + length m.proposals < 2 ^ 32
    → Ready m.first_round_id la.round_states
    → Proposed
        (m.first_round_id + length m.proposals)
        (length m.proposals)
        la
        (broadcast_of la (proposal_bytes m))
        (propose m la)
Proposed-propose m la fits i =
    let r = Proposed-initialize_rounds m.first_round_id m.proposals la fits i in
    record {
      futures = r.futures;
      next = record r.next { sent = r.next.sent ++ broadcast_of r.next (proposal_bytes m) };
      done = propose_all_rounds m la r.next r.futures r.done;
      number = r.number;
      ready = r.ready;
      messages =
          ap (λ xs. xs ++ broadcast_of r.next (proposal_bytes m)) (r.messages ∙ append-nil la.sent)
          ∙ ap (λ xs. la.sent ++ xs) (broadcast_same la r.next (proposal_bytes m) r.same);
      same = r.same;
    }
