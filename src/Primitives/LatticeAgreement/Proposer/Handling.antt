-- ===== src/Primitives/LatticeAgreement/Proposer/Handling.antt =====
-- The handlers of proposals and answers leave the futures of rounds alone.
use broadcast_service.Base.{
  ℕ, ◌≡◌, sym, ap, subst, Option, none, some, List, [], ◌∷◌, arith, is_some,
}
use broadcast_service.Primitives.LatticeAgreement.ProposalMessage.{Proposal}
use broadcast_service.Primitives.LatticeAgreement.AcceptMessage.{Accept}
use broadcast_service.Primitives.LatticeAgreement.State.{RoundState, LatticeAgreement, majority}
use broadcast_service.Primitives.LatticeAgreement.State.Rounds.{round_of}
use broadcast_service.Primitives.LatticeAgreement.Acceptor.{answer, handle_propose}
use broadcast_service.Primitives.LatticeAgreement.Acceptor.Refinement.{handle_propose-Effect}
use broadcast_service.Primitives.LatticeAgreement.Proposer.{handle_accept}
use broadcast_service.Primitives.LatticeAgreement.Proposer.React.{conclude, counted, react}
use broadcast_service.Primitives.LatticeAgreement.Proposer.Refinement.{handle_accept-Reacts}
use broadcast_service.Primitives.LatticeAgreement.Proposer.Starting.{Ready, Ready-Effect}

-- A proposal or an answer for a round.
pub data Arrival : Type 0 where
  proposes : ℕ → Proposal → Arrival
  accepts : ℕ → Accept → Arrival

abbrev or_else : {A : Type 0} → Option A → A → A
or_else none a = a
or_else (some b) a = b

abbrev after_propose : Option (Accept × LatticeAgreement) → LatticeAgreement → LatticeAgreement
after_propose none la = la
after_propose (some (accept, la')) la = la'

unfoldable pub handle : Arrival → LatticeAgreement → LatticeAgreement
handle (proposes round proposal) la = after_propose (handle_propose round proposal la) la
handle (accepts round accept) la = or_else (handle_accept round accept la) la

unfoldable pub handle_all : List Arrival → LatticeAgreement → LatticeAgreement
handle_all [] la = la
handle_all (arrival ∷ arrivals) la = handle_all arrivals (handle arrival la)

future-answer :
    (s : RoundState) (p : Proposal) → (answer s p).0.preliminary_future ≡ s.preliminary_future
unfolding answer
future-answer s p = ground arith

future-react :
    (quorum round : ℕ) (s : RoundState) (a : Accept)
    → (react quorum round s a).state.preliminary_future ≡ s.preliminary_future
unfolding react conclude counted
future-react quorum round s a = ground arith

Ready-handle :
    (round : ℕ) (arrival : Arrival) (la : LatticeAgreement)
    → Ready round la.round_states
    → Ready round (handle arrival la).round_states
unfolding handle
Ready-handle round (proposes k p) la i =
    let (la', done, e) = handle_propose-Effect k p la in
    let s = answer (round_of la.round_states k) p in
    let same : la' ≡ after_propose (handle_propose k p la) la =
      sym (ap (λ r. after_propose r la) done) in
    subst (λ l. Ready round l.round_states) same
      (Ready-Effect round k s.0 e (ap is_some (future-answer (round_of la.round_states k) p)) i)
Ready-handle round (accepts k a) la i =
    let (la', done, e) = handle_accept-Reacts k a la in
    let s = round_of la.round_states k in
    let same : la' ≡ or_else (handle_accept k a la) la = sym (ap (λ r. or_else r la) done) in
    subst (λ l. Ready round l.round_states) same
      (Ready-Effect round k (react (majority la) k s a).state e
        (ap is_some (future-react (majority la) k s a)) i)

-- However many proposals and answers are handled, the rounds whose futures are there keep them.
pub Ready-handle_all :
    (round : ℕ) (arrivals : List Arrival) (la : LatticeAgreement)
    → Ready round la.round_states
    → Ready round (handle_all arrivals la).round_states
unfolding handle_all
Ready-handle_all round [] la i = i
Ready-handle_all round (arrival ∷ arrivals) la i =
    Ready-handle_all round arrivals (handle arrival la) (Ready-handle round arrival la i)
