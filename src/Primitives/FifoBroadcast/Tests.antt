-- ===== src/Primitives/FifoBroadcast/Tests.antt =====
-- Runs of the FIFO broadcast at process 1 of a network of three.
use broadcast_service.Base.{ℕ, ◌<◌, ◌/◌, ◌≡◌, refl, List, [], ◌∷◌, false, some, arith, contains}
use broadcast_service.Transport.Bytes
use broadcast_service.Util.Dict
use broadcast_service.Util.HashSet
use broadcast_service.Concurrency.MrmwMap
use broadcast_service.Primitives.BestEffortBroadcast
use broadcast_service.Primitives.UniformReliableBroadcast.State as Urb_state
use broadcast_service.Primitives.UniformReliableBroadcast.Handler as Urb_handler
use broadcast_service.Primitives.FifoBroadcast as Fifo_broadcast
use broadcast_service.Primitives.UniformReliableBroadcast.UrbMessage
use broadcast_service.Primitives.UniformReliableBroadcast.UrbMessage.{UrbMessage}
use broadcast_service.Primitives.UniformReliableBroadcast.UrbMessage.RoundTrip.{unmarshal-contents}
use broadcast_service.Primitives.UniformReliableBroadcast.State.{UrbIdentifier, Urb, was_delivered}
use broadcast_service.Primitives.UniformReliableBroadcast.Handler.{identifier_of}
use broadcast_service.Primitives.FifoBroadcast.{
  Delivered, Fifo, Event, arrives, sends, next_of, run, init, on_message,
}
use broadcast_service.Primitives.FifoBroadcast.Pending.{}
use broadcast_service.Primitives.FifoBroadcast.Peers.{ids_of, upto}
use broadcast_service.Primitives.FifoBroadcast.Stack.{count, Next, on_message-Stack}
use broadcast_service.Primitives.FifoBroadcast.Runs.{
  Readable, seen_after, init-Stack, run_in_order, run_by_majority, run_complete,
}

abbrev second : UrbMessage
second = record { source = 2; urb_id = 1; message = 9 ∷ [] }

abbrev first : UrbMessage
first = record { source = 2; urb_id = 0; message = 7 ∷ 8 ∷ [] }

-- The second message of peer 2 comes before its first, and each comes twice.
abbrev messages : List UrbMessage
messages = second ∷ second ∷ first ∷ first ∷ []

abbrev events : List Event
events =
    arrives (UrbMessage.contents second)
    ∷ arrives (UrbMessage.contents second)
    ∷ sends (5 ∷ [])
    ∷ arrives (UrbMessage.contents first)
    ∷ arrives (UrbMessage.contents first)
    ∷ []

second_read : UrbMessage.unmarshal (UrbMessage.contents second) ≡ some second
second_read = unmarshal-contents second (omega arith) (omega arith)

first_read : UrbMessage.unmarshal (UrbMessage.contents first) ≡ some first
first_read = unmarshal-contents first (omega arith) (omega arith)

readable : Readable events messages
readable = (
  second_read,
  omega arith,
  (second_read, omega arith, (first_read, omega arith, (first_read, omega arith, tt))),
)

abbrev delivered : List Delivered
delivered =
    record { peer = 2; id = 0; message = 7 ∷ 8 ∷ [] }
    ∷ record { peer = 2; id = 1; message = 9 ∷ [] }
    ∷ []

run_in_order_example :
    (fifo' : Fifo) × (run 0 events (init 1 (2 ∷ 3 ∷ [])) ≡ some fifo')
    × ((peer : ℕ) → ids_of peer fifo'.log ≡ upto (next_of peer fifo'))
run_in_order_example = run_in_order 0 1 (2 ∷ 3 ∷ []) events messages refl readable

-- The reliable broadcast after the run: what it relayed, and what it sent itself.
abbrev urb_after : Urb
urb_after = record {
  local_id = 1;
  network_size = 3;
  peers = 2 ∷ 3 ∷ [];
  next_id = 1;
  pending = (record { peer = 1; urb_id = 0 }, 5 ∷ []) ∷ [];
  delivered = record { peer = 2; urb_id = 0 } ∷ record { peer = 2; urb_id = 1 } ∷ [];
  acks = [];
  cleaned = [];
  to_clean = (2, 1) ∷ [];
  sent =
      (2, 2 ∷ 1 ∷ 0 ∷ 0 ∷ 0 ∷ 9 ∷ [])
      ∷ (3, 2 ∷ 1 ∷ 0 ∷ 0 ∷ 0 ∷ 9 ∷ [])
      ∷ (1, 2 ∷ 1 ∷ 0 ∷ 0 ∷ 0 ∷ 9 ∷ [])
      ∷ (2, 1 ∷ 0 ∷ 0 ∷ 0 ∷ 0 ∷ 5 ∷ [])
      ∷ (3, 1 ∷ 0 ∷ 0 ∷ 0 ∷ 0 ∷ 5 ∷ [])
      ∷ (1, 1 ∷ 0 ∷ 0 ∷ 0 ∷ 0 ∷ 5 ∷ [])
      ∷ (2, 2 ∷ 0 ∷ 0 ∷ 0 ∷ 0 ∷ 7 ∷ 8 ∷ [])
      ∷ (3, 2 ∷ 0 ∷ 0 ∷ 0 ∷ 0 ∷ 7 ∷ 8 ∷ [])
      ∷ (1, 2 ∷ 0 ∷ 0 ∷ 0 ∷ 0 ∷ 7 ∷ 8 ∷ [])
      ∷ [];
}

-- The state after the run: both messages of peer 2 were delivered, the first one first.
abbrev after : Fifo
after = record {
  urb = urb_after;
  local_id = 1;
  pendings = (2, []) ∷ [];
  next_ids = (2, 2) ∷ [];
  entries = (0, 0) ∷ [];
  fulfilled = [];
  log = delivered;
}

run_done : run 0 events (init 1 (2 ∷ 3 ∷ [])) ≡ some after
unfolding run Fifo_broadcast.handle on_message Urb_handler.on_message UrbMessage.unmarshal
    UrbMessage.contents Bytes.marshal_primitive Bytes.unmarshal_primitive Urb_handler.on_urb_message
    was_delivered Dict.lookup contains Urb_state.delivered_garbage_collection
    Urb_handler.acknowledge MrmwMap.has Urb_handler.relay UrbMessage.to_bytes MrmwMap.set
    MrmwMap.take BestEffortBroadcast.broadcast Fifo_broadcast.broadcast Fifo_broadcast.deliver
    Fifo_broadcast.emplace Fifo_broadcast.flush next_of Fifo_broadcast.on_delivery
    Fifo_broadcast.pending_of Urb_handler.broadcast Urb_handler.deliver Urb_handler.get_next_id
    Urb_state.can_deliver Urb_state.clean_delivered_prefix Urb_state.erase_from
    Urb_state.erase_segment UrbMessage.marshal UrbMessage.size Bytes.store Dict.assign Dict.emplace
    Dict.erase HashSet.erase HashSet.insert
run_done = refl

next_after : 1 < next_of 2 after
unfolding next_of Dict.lookup
next_after = omega arith

run_by_majority_example :
    after.urb.network_size / 2 < count (record { peer = 2; urb_id = 1 }) (seen_after [] messages)
run_by_majority_example =
    run_by_majority 0 1 (2 ∷ 3 ∷ []) events messages refl readable after 2 1 run_done next_after

run_complete_example :
    was_delivered (record { peer = 2; urb_id = next_of 2 after }) after.urb ≡ false
run_complete_example = run_complete 0 1 (2 ∷ 3 ∷ []) events messages refl readable after 2 run_done

on_message-Stack_example :
    Next [] []
      (identifier_of second)
      (init 1 (2 ∷ 3 ∷ []))
      (on_message 0 (UrbMessage.contents second) (init 1 (2 ∷ 3 ∷ [])))
on_message-Stack_example =
    on_message-Stack 0 [] [] (UrbMessage.contents second) second (init 1 (2 ∷ 3 ∷ [])) refl
      second_read (omega arith) (init-Stack 1 (2 ∷ 3 ∷ []))
