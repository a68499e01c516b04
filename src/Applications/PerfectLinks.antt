-- ===== src/Applications/PerfectLinks.antt =====
-- include/applications/perfect_links.hpp: the loops of `RunAsSender`, and the callback of
-- `RunAsReceiver`. After a batch the sender waits until all of its messages are acknowledged.
pub mod Log
use broadcast_service.Base.{
  ℕ, zero, suc, ◌+◌, ◌%◌, ◌^◌, Bool, true, false, List, [], ◌∷◌, ◌++◌, if◌then◌else◌, leb, map,
}
use broadcast_service.Util.Result.{Result}
use broadcast_service.Applications.Waiting.{Outcome, finished, and_then, settle}
use broadcast_service.Applications.Message.{num_messages}

-- What the sender has sent and logged.
pub record Sender : Type 0 where
  pub current_payload : ℕ
  pub sent : List (List ℕ)
  pub output : List ℕ

unfoldable pub init : Sender
init = record { current_payload = 1; sent = []; output = [] }

-- The loop over the other numbers of a message.
unfoldable pub payload : ℕ → ℕ → ℕ → List ℕ
payload zero payload_idx current = []
payload (suc left) payload_idx current =
    (current + payload_idx) % 2 ^ 32 ∷ payload left (payload_idx + 1) current

unfoldable pub send : Sender → Sender
send s = record {
  current_payload = (s.current_payload + 8) % 2 ^ 32;
  sent = s.sent ++ payload num_messages 0 s.current_payload ∷ [];
  output = s.output ++ payload num_messages 0 s.current_payload;
}

-- The inner loop, with what is left of the batch and the number of the futures.
unfoldable pub batch : ℕ → ℕ → ℕ → Sender → ℕ × Sender
batch zero limit acks s = (acks, s)
batch (suc left) limit acks s =
    let rest = batch left limit (acks + 1) (send s) in
    if leb s.current_payload limit then rest else (acks, s)

-- `All(std::move(acks))`, and the wait for it.
unfoldable pub wait : (ℕ → Sender → List (Result Unit)) → ℕ × Sender → Outcome Sender
wait results (acks, s) = settle acks (results acks s) s

-- The outer loop, over batches of `batch_size` messages; `results` is what the futures come to.
unfoldable pub send_all : ℕ → (ℕ → Sender → List (Result Unit)) → ℕ → ℕ → Sender → Outcome Sender
send_all batch_size results zero limit s = finished s
send_all batch_size results (suc fuel) limit s =
    let rest =
      and_then (send_all batch_size results fuel limit)
        (wait results (batch batch_size limit 0 s)) in
    if leb s.current_payload limit then rest else finished s

-- The receiver's callback.
unfoldable pub receive : ℕ → List ℕ → List (ℕ × ℕ)
receive source messages = map (λ m. (source, m)) messages

unfoldable pub receive_all : ℕ → List (List ℕ) → List (ℕ × ℕ)
receive_all source [] = []
receive_all source (messages ∷ rest) = receive source messages ++ receive_all source rest
