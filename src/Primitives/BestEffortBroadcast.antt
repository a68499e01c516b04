-- ===== src/Primitives/BestEffortBroadcast.antt =====
-- include/primitives/best_effort_broadcast.hpp: `BestEffortBroadcast`. Its callback is called with every
-- message that the transport delivers, unchanged.
use broadcast_service.Base.{ℕ, List, [], ◌∷◌, ◌++◌, map}
use broadcast_service.Transport.Bytes.{Bytes}

-- The calls `Send(peer, message)` of one `Broadcast`: to every peer, and to this process last.
unfoldable pub broadcast : List ℕ → ℕ → Bytes → List (ℕ × Bytes)
broadcast peers local_id message = map (λ peer. (peer, message)) peers ++ (local_id, message) ∷ []
