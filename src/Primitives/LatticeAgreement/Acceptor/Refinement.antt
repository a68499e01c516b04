-- ===== src/Primitives/LatticeAgreement/Acceptor/Refinement.antt =====
-- include/primitives/lattice_agreement.hpp: `HandlePropose`, against `answer`.
use broadcast_service.Base.{length-set, ℕ, ◌≡◌, refl, sym, [], some, arith, append-nil}
use broadcast_service.Primitives.LatticeAgreement.ProposalMessage.{Proposal}
use broadcast_service.Primitives.LatticeAgreement.State.{LatticeAgreement, put}
use broadcast_service.Primitives.LatticeAgreement.State.Rounds.{
  round_of, round_of-set, get_round_state_total, Effect,
}
use broadcast_service.Primitives.LatticeAgreement.Acceptor.{answer, handle_propose}

-- The handler of a proposal returns the answer of the round's state to it, and changes that round only,
-- to the state that goes with the answer; it decides nothing and sends nothing itself.
pub handle_propose-Effect :
    (round : ℕ) (p : Proposal) (la : LatticeAgreement)
    → let (s', accept) = answer (round_of la.round_states round) p in
      (la' : LatticeAgreement) × (handle_propose round p la ≡ some (accept, la'))
      × Effect la round s' [] [] la'
unfolding handle_propose
handle_propose-Effect round p la =
    let f = get_round_state_total round la.round_states in
    let s' = (answer (round_of la.round_states round) p).0 in
    (
      put (record la { round_states = f.all }) round s',
      rw f.found,
      record {
        rounds = λ j. ground (arith, round_of-set f.all round j s' f.room, f.same j);
        grown = omega (arith, f.grown, length-set f.all round s');
        decided = sym (append-nil la.decided);
        sent = sym (append-nil la.sent);
        local_id = refl;
        peers = refl;
        network_size = refl;
      },
    )
