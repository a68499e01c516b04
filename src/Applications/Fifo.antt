-- ===== src/Applications/Fifo.antt =====
-- include/applications/fifo.hpp: the loops of `RunAsBroadcaster` and the callback that logs what is
-- delivered.
pub mod Filling
pub mod Sending
pub mod Complete
use broadcast_service.Base.{
  ℕ, zero, suc, ◌+◌, ◌%◌, ◌^◌, Bool, true, false, Option, none, some, List, [], ◌∷◌, ◌++◌, nat_eq,
  ◌==◌, if◌then◌else◌, leb, replicate, ◌>>=◌, map,
}
use broadcast_service.Util.RateLimit.{RateLimiter}
use broadcast_service.Util.Result.{Result}
use broadcast_service.Applications.Waiting.{Outcome}
use broadcast_service.Applications.Batching
use broadcast_service.Applications.Message.{num_messages}

-- The loop that fills the other numbers of a message, from the offset `payload_idx` on: those of the
-- message, which are 0 at first, and those that are logged.
unfoldable pub fill : ℕ → ℕ → ℕ → ℕ → List ℕ × List ℕ
fill zero payload_idx current limit = ([], [])
fill (suc left) payload_idx current limit =
    let number : ℕ = (current + payload_idx) % 2 ^ 32 in
    let rest = fill left (payload_idx + 1) current limit in
    if leb number limit then (number ∷ rest.0, number ∷ rest.1) else (replicate (suc left) 0, [])

-- What the broadcaster has sent and logged.
pub record Broadcaster : Type 0 where
  pub current_payload : ℕ
  pub sent : List (List ℕ)
  pub output : List ℕ

unfoldable pub init : Broadcaster
init = record { current_payload = 1; sent = []; output = [] }

unfoldable pub more : ℕ → Broadcaster → Bool
more limit b = leb b.current_payload limit

-- One message.
unfoldable pub send : ℕ → Broadcaster → Broadcaster
send limit b =
    let filled = fill num_messages 0 b.current_payload limit in
    record {
      current_payload = (b.current_payload + num_messages) % 2 ^ 32;
      sent = b.sent ++ filled.0 ∷ [];
      output = b.output ++ filled.1;
    }

-- A broadcast gives one future.
unfoldable pub broadcast : ℕ → Broadcaster → Option (ℕ × Broadcaster)
broadcast limit b = some (1, send limit b)

-- The loops, which need a round for each message and one for the last test; `results` is what the
-- futures come to.
unfoldable pub broadcast_all :
    ℕ
    → (ℕ → Broadcaster → List (Result Unit))
    → RateLimiter × Broadcaster
    → Outcome (RateLimiter × Broadcaster)
broadcast_all limit results s =
    Batching.run (more limit) (broadcast limit) results (limit + 1) (limit + 1) s

-- The numbers of a message that the callback logs, each with the peer.
unfoldable pub numbers : List ℕ → List ℕ
numbers [] = []
numbers (m ∷ messages) = let rest = numbers messages in if m == 0 then rest else m ∷ rest

unfoldable pub deliver : ℕ → List ℕ → List (ℕ × ℕ)
deliver peer messages = map (λ m. (peer, m)) (numbers messages)

-- The messages of one peer, in the order in which they come.
unfoldable pub deliver_all : ℕ → List (List ℕ) → List (ℕ × ℕ)
deliver_all peer [] = []
deliver_all peer (messages ∷ rest) = deliver peer messages ++ deliver_all peer rest
