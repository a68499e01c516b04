-- ===== src/Primitives/UniformReliableBroadcast/Tests.antt =====
-- The reliable broadcast at process 1 of a network of three.
use broadcast_service.Base.{◌≡◌, [], ◌∷◌, ◌||◌, ◌&&◌, some, eqb, arith, contains, nat_eq}
use broadcast_service.Transport.Bytes.{}
use broadcast_service.Util.Dict
use broadcast_service.Primitives.UniformReliableBroadcast.UrbMessage.{UrbMessage}
use broadcast_service.Primitives.UniformReliableBroadcast.UrbMessage.RoundTrip.{}
use broadcast_service.Primitives.UniformReliableBroadcast.State.{
  UrbIdentifier, Urb, covers, was_delivered, delivered_garbage_collection,
}
use broadcast_service.Primitives.UniformReliableBroadcast.State.Delivered.{
  Bounded, garbage_collection_lem,
}
use broadcast_service.Primitives.UniformReliableBroadcast.Handler.{Delivery, on_urb_message}
use broadcast_service.Primitives.UniformReliableBroadcast.Handler.Steps.{
  Collectable, Steps, on_urb_message-Steps,
}

-- Two messages of peer 2 were delivered and may be collected, the third waits for one more.
abbrev urb : Urb
urb = record {
  local_id = 1;
  network_size = 3;
  peers = 2 ∷ 3 ∷ [];
  next_id = 0;
  pending = (record { peer = 2; urb_id = 2 }, 4 ∷ []) ∷ [];
  delivered = record { peer = 2; urb_id = 1 } ∷ record { peer = 2; urb_id = 0 } ∷ [];
  acks = (record { peer = 2; urb_id = 2 }, 1) ∷ [];
  cleaned = [];
  to_clean = (2, 1) ∷ [];
  sent = [];
}

abbrev third : UrbMessage
third = record { source = 2; urb_id = 2; message = 4 ∷ [] }

to_clean-Bounded : Bounded urb.to_clean
unfolding Dict.lookup
to_clean-Bounded p c e = ground arith

cleaned-Bounded : Bounded urb.cleaned
unfolding Dict.lookup
cleaned-Bounded p c e = ground arith

urb-Collectable : Collectable urb
unfolding Dict.lookup was_delivered contains
urb-Collectable j h = ground arith

garbage_collection_lem_example :
    (urb' : Urb) × (delivered_garbage_collection 2 urb ≡ some urb')
    × ((j : UrbIdentifier)
        → was_delivered j urb'
          ≡ (was_delivered j urb || (eqb 2 j.peer && covers (Dict.lookup 2 urb.to_clean) j.urb_id)))
    × (urb' ≡ record urb { delivered = urb'.delivered; cleaned = urb'.cleaned })
    × Bounded urb'.cleaned
garbage_collection_lem_example = garbage_collection_lem 2 urb to_clean-Bounded cleaned-Bounded

on_urb_message-Steps_example :
    (urb' : Urb) × (d : Delivery) × (on_urb_message third urb ≡ some (urb', d))
    × Steps third urb urb' d
    × Bounded urb'.cleaned
on_urb_message-Steps_example =
    on_urb_message-Steps third urb to_clean-Bounded cleaned-Bounded urb-Collectable
