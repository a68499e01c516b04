-- ===== src/Applications/Proposing.antt =====
-- include/applications/lattice_agreement.hpp: what `RunAsProposerAndAcceptor` proposes. The lines of the
-- input are given as the numbers that they hold; behind the last line an empty one is read.
pub mod Rounds
pub mod Complete
mod Tests
use broadcast_service.Base.{
  ℕ, zero, suc, ◌+◌, ◌%◌, ◌^◌, Bool, true, false, Option, some, ◌>>=◌, List, [], ◌∷◌, ◌++◌,
  if◌then◌else◌, ltb, length,
}
use broadcast_service.Util.RateLimit.{RateLimiter}
use broadcast_service.Primitives.LatticeAgreement.ProposalMessage.{Proposal, ProposalMessage}
use broadcast_service.Util.Result.{Result}
use broadcast_service.Primitives.LatticeAgreement.State.{LatticeAgreement}
use broadcast_service.Primitives.LatticeAgreement.Proposer.{propose}
use broadcast_service.Primitives.LatticeAgreement.Proposer.Handling.{Arrival, handle_all}
use broadcast_service.Applications.Waiting.{Outcome}
use broadcast_service.Applications.Batching

abbrev pub max_num_proposals_in_message : ℕ
max_num_proposals_in_message = 8

-- `sent` is the messages that have been proposed, and `la` the lattice agreement.
pub record Proposer : Type 0 where
  pub current_round : ℕ
  pub input : List (List ℕ)
  pub sent : List ProposalMessage
  pub la : LatticeAgreement

unfoldable pub init : List (List ℕ) → LatticeAgreement → Proposer
init input la = record { current_round = 0; input = input; sent = []; la = la }

unfoldable pub read_proposal_from_input : List (List ℕ) → List ℕ × List (List ℕ)
read_proposal_from_input [] = ([], [])
read_proposal_from_input (line ∷ input) = (line, input)

-- The loop that fills a message, with what is left of the input.
unfoldable pub fill : ℕ → ℕ → ℕ → ℕ → List (List ℕ) → List Proposal × List (List ℕ)
fill zero proposal_idx current num input = ([], input)
fill (suc left) proposal_idx current num input =
    let line = read_proposal_from_input input in
    let proposal : Proposal = record { proposed_value = line.0; active_proposal_number = 0 } in
    let rest = fill left (proposal_idx + 1) current num line.1 in
    if ltb ((current + proposal_idx) % 2 ^ 32) num then (proposal ∷ rest.0, rest.1) else ([], input)

unfoldable pub more : ℕ → Proposer → Bool
more num p = ltb p.current_round num

-- The message of the current round.
unfoldable pub filled : ℕ → Proposer → List Proposal × List (List ℕ)
filled num p = fill max_num_proposals_in_message 0 p.current_round num p.input

unfoldable pub message : ℕ → Proposer → ProposalMessage
message num p = record { first_round_id = p.current_round; proposals = (filled num p).0 }

-- One message, with the number of its futures. `arrivals` is the proposals and answers that have been
-- handled before the message of a round, and after the one before it.
unfoldable pub send : (ℕ → List Arrival) → ℕ → Proposer → Option (ℕ × Proposer)
send arrivals num p = do
  (futures, la) ← propose (message num p) (handle_all (arrivals p.current_round) p.la)
  some (
    length futures,
    record {
      current_round = (p.current_round + length futures) % 2 ^ 32;
      input = (filled num p).1;
      sent = p.sent ++ message num p ∷ [];
      la = la;
    },
  )

-- The loops, which need a round for each message and one for the last test; `results` is what the
-- futures come to.
unfoldable pub propose_all :
    (ℕ → List Arrival)
    → (ℕ → Proposer → List (Result Unit))
    → ℕ
    → RateLimiter × Proposer
    → Outcome (RateLimiter × Proposer)
propose_all arrivals results num s =
    Batching.run (more num) (send arrivals num) results (num + 1) (num + 1) s
