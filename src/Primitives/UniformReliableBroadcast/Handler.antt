-- ===== src/Primitives/UniformReliableBroadcast/Handler.antt =====
-- include/primitives/uniform_reliable_broadcast.hpp: `Broadcast`, the callback on the messages of the
-- best-effort broadcast. What the callback hands on is returned.
pub mod Steps
use broadcast_service.Base.{
  ℕ, ◌+◌, ◌*◌, ◌-◌, ◌/◌, ◌%◌, ◌^◌, ◌≡◌, List, [], ◌∷◌, ◌++◌, Bool, true, false, ◌&&◌, not, Option,
  none, some, ◌>>=◌, if◌then◌else◌, eqb, max,
}
use mathlib.Core.Option
use broadcast_service.Transport.Bytes.{Bytes}
use broadcast_service.Util.Dict
use broadcast_service.Util.HashSet
use broadcast_service.Concurrency.MrmwMap
use broadcast_service.Primitives.BestEffortBroadcast.{broadcast as best_effort_broadcast}
use broadcast_service.Primitives.UniformReliableBroadcast.UrbMessage
use broadcast_service.Primitives.UniformReliableBroadcast.UrbMessage.{UrbMessage}
use broadcast_service.Primitives.UniformReliableBroadcast.State.{
  UrbIdentifier, Urb, identifier_is_eq, can_deliver, was_delivered, delivered_garbage_collection,
}

abbrev pub Delivery : Type 0
Delivery = Option (UrbIdentifier × Bytes)

abbrev pub identifier_of : UrbMessage → UrbIdentifier
identifier_of m = record { peer = m.source; urb_id = m.urb_id }

-- `beb_.Broadcast`
abbrev pub send_all : Bytes → Urb → Urb
send_all buffer urb = record urb {
  sent = urb.sent ++ best_effort_broadcast urb.peers urb.local_id buffer;
}

-- `acks_[identifier]`, which is 0 where there is no entry.
abbrev pub acks_of : UrbIdentifier → Urb → ℕ
acks_of id urb = elim (Dict.lookup id urb.acks) [ none ↦ 0 | some n ↦ n ]

-- A message that is new is kept, and sent on to everybody.
unfoldable pub relay : UrbMessage → Urb → Option (Urb × Delivery)
relay m urb = do
  buffer ← UrbMessage.to_bytes m
  some (
    send_all buffer (record urb { pending = MrmwMap.set (identifier_of m) m.message urb.pending }),
    none,
  )

-- A message without a pending entry is logged.
unfoldable pub deliver : UrbIdentifier → Urb → Urb × Delivery
deliver id urb =
    let (message, pending) = MrmwMap.take id urb.pending in
    (
      record urb {
        pending = pending;
        delivered = HashSet.insert id urb.delivered;
        acks = Dict.erase id urb.acks;
      },
      Option.map (λ message. (id, message)) message,
    )

-- `++acks_[identifier]`, on size_t.
abbrev pub next_acks : UrbMessage → Urb → ℕ
next_acks m urb = (acks_of (identifier_of m) urb + 1) % 2 ^ 64

abbrev pub counted : UrbMessage → Urb → Urb
counted m urb = record urb { acks = Dict.assign (identifier_of m) (next_acks m urb) urb.acks }

-- The rest of the callback, for a message that was not delivered, after the collection.
unfoldable pub acknowledge : UrbMessage → Urb → Option (Urb × Delivery)
acknowledge m urb =
    let id = identifier_of m in
    if not (MrmwMap.has id urb.pending)
    then relay m (counted m urb)
    else if can_deliver (next_acks m urb) urb && not (was_delivered id urb)
    then some (deliver id (counted m urb))
    else some (counted m urb, none)

unfoldable pub on_urb_message : UrbMessage → Urb → Option (Urb × Delivery)
on_urb_message m urb =
    if was_delivered (identifier_of m) urb
    then some (urb, none)
    else (do collected ← delivered_garbage_collection m.source urb; acknowledge m collected)

-- `GetBestEffortBroadcastCallback`
unfoldable pub on_message : Bytes → Urb → Option (Urb × Delivery)
on_message bytes urb = do m ← UrbMessage.unmarshal bytes; on_urb_message m urb

-- `GetNextID`
unfoldable pub get_next_id : Urb → ℕ × Urb
get_next_id urb = (urb.next_id, record urb { next_id = (urb.next_id + 1) % 2 ^ 32 })

unfoldable pub broadcast : Bytes → ℕ → Urb → Option Urb
broadcast message urb_id urb = do
  let m : UrbMessage = record { source = urb.local_id; urb_id = urb_id; message = message }
  buffer ← UrbMessage.to_bytes m
  some
      (send_all buffer (record urb { pending = MrmwMap.set (identifier_of m) message urb.pending }))
