-- ===== src/Primitives/UniformReliableBroadcast/Handler/Steps.antt =====
-- include/primitives/uniform_reliable_broadcast.hpp: lemmas on the handling of one message.
use broadcast_service.Base.{
  ◌+◌, ◌≤◌, ◌≡◌, refl, List, true, false, ◌&&◌, ◌||◌, none, some, if◌then◌else◌, is_some, arith,
  Bool-cases, inl, inr, nat_eq,
}
use broadcast_service.Transport.Bytes.{Bytes}
use broadcast_service.Util.Dict
use broadcast_service.Util.HashSet
use broadcast_service.Concurrency.MrmwMap
use broadcast_service.Primitives.UniformReliableBroadcast.UrbMessage
use broadcast_service.Primitives.UniformReliableBroadcast.UrbMessage.{UrbMessage}
use broadcast_service.Primitives.UniformReliableBroadcast.UrbMessage.RoundTrip.{to_bytes_lem}
use broadcast_service.Primitives.UniformReliableBroadcast.State.{
  UrbIdentifier, Urb, identifier_is_eq, identifier_eq, covers, can_deliver, was_delivered,
}
use broadcast_service.Primitives.UniformReliableBroadcast.State.Delivered.{
  Bounded, garbage_collection_lem,
}
use broadcast_service.Primitives.UniformReliableBroadcast.Handler.{
  Delivery, identifier_of, acks_of, next_acks, counted, send_all, relay, deliver, acknowledge,
  on_urb_message,
}

-- What a message may be collected for was delivered.
abbrev pub Collectable : Urb → Type 0
Collectable urb =
    (j : UrbIdentifier)
    → covers (Dict.lookup j.peer urb.to_clean) j.urb_id ≡ true
    → was_delivered j urb ≡ true

-- What one message `m` does to the state, and hands on.
pub record Steps (m : UrbMessage) (urb urb' : Urb) (d : Delivery) : Type 0 where
  -- the identifier of the message becomes delivered if it is handed on, and no other
  pub counts :
      (j : UrbIdentifier)
      → was_delivered j urb'
        ≡ (was_delivered j urb || (is_some d && identifier_eq (identifier_of m) j))
  pub fresh : is_some d ≡ true → was_delivered (identifier_of m) urb ≡ false
  pub own : (id : UrbIdentifier) (message : Bytes) → d ≡ some (id, message) → id ≡ identifier_of m
  pub enough : is_some d ≡ true → can_deliver (next_acks m urb) urb ≡ true
  pub tally :
      (j : UrbIdentifier)
      → acks_of j urb'
        ≤ (if identifier_eq (identifier_of m) j then acks_of j urb + 1 else acks_of j urb)
  pub to_clean : urb'.to_clean ≡ urb.to_clean
  pub network_size : urb'.network_size ≡ urb.network_size

-- A message that is only counted.
counted-Steps :
    (m : UrbMessage) (urb urb' : Urb)
    → urb'.acks ≡ (counted m urb).acks
    → urb'.delivered ≡ urb.delivered
    → urb'.cleaned ≡ urb.cleaned
    → urb'.to_clean ≡ urb.to_clean
    → urb'.network_size ≡ urb.network_size
    → Steps m urb urb' none
unfolding was_delivered
counted-Steps m urb urb' acks delivered cleaned to_clean network_size = record {
  counts = λ j. ground arith;
  fresh = λ e. cc;
  own = λ id message e. cc;
  enough = λ e. cc;
  tally = λ j. ground (arith, Dict.lookup-assign (identifier_of m) j (next_acks m urb) urb.acks);
  to_clean = to_clean;
  network_size = network_size;
}

deliver-Steps :
    (m : UrbMessage) (urb : Urb) (message : Bytes)
    → was_delivered (identifier_of m) urb ≡ false
    → can_deliver (next_acks m urb) urb ≡ true
    → Steps m urb (deliver (identifier_of m) (counted m urb)).0 (some (identifier_of m, message))
unfolding was_delivered deliver
deliver-Steps m urb message new enough =
    let id = identifier_of m in
    record {
      counts = λ j. ground (arith, HashSet.contains-insert id j urb.delivered);
      fresh = λ e. new;
      own = λ id message e. ground arith;
      enough = λ e. enough;
      tally = λ j. ground (
        arith,
        Dict.lookup-erase id j (Dict.assign id (next_acks m urb) urb.acks),
        Dict.lookup-assign id j (next_acks m urb) urb.acks,
      );
      to_clean = refl;
      network_size = refl;
    }

pending_message :
    (id : UrbIdentifier) (pending : List (UrbIdentifier × Bytes))
    → MrmwMap.has id pending ≡ true
    → (message : Bytes) × ((MrmwMap.take id pending).0 ≡ some message)
unfolding MrmwMap.has MrmwMap.take
pending_message id pending h = ground arith

deliver_lem :
    (id : UrbIdentifier) (urb : Urb) (message : Bytes)
    → (MrmwMap.take id urb.pending).0 ≡ some message
    → deliver id urb ≡ ((deliver id urb).0, some (id, message))
unfolding deliver
deliver_lem id urb message taken = ground arith

cleaned-deliver : (id : UrbIdentifier) (urb : Urb) → (deliver id urb).0.cleaned ≡ urb.cleaned
unfolding deliver
cleaned-deliver id urb = refl

acknowledge-Steps :
    (m : UrbMessage) (urb : Urb)
    → was_delivered (identifier_of m) urb ≡ false
    → (urb' : Urb) × (d : Delivery) × (acknowledge m urb ≡ some (urb', d))
      × Steps m urb urb' d
      × (urb'.cleaned ≡ urb.cleaned)
unfolding acknowledge relay
acknowledge-Steps m urb new =
    let id = identifier_of m in
    elim (Bool-cases (MrmwMap.has id urb.pending)) [
      | inl there ↦ elim (Bool-cases (can_deliver (next_acks m urb) urb)) [
        | inl enough ↦
            let (message, taken) = pending_message id urb.pending there in
            (
              (deliver id (counted m urb)).0,
              some (id, message),
              ground (arith, deliver_lem id (counted m urb) message taken),
              deliver-Steps m urb message new enough,
              cleaned-deliver id (counted m urb),
            )
        | inr few ↦ (
          counted m urb,
          none,
          ground arith,
          counted-Steps m urb (counted m urb) refl refl refl refl refl,
          refl,
        )
      ]
      | inr missing ↦
          let urb' =
            send_all (UrbMessage.contents m)
              (record (counted m urb) { pending = MrmwMap.set id m.message urb.pending }) in
          (
            urb',
            none,
            ground (arith, to_bytes_lem m),
            counted-Steps m urb urb' refl refl refl refl refl,
            refl,
          )
    ]

untouched-Steps : (m : UrbMessage) (urb : Urb) → Steps m urb urb none
untouched-Steps m urb = record {
  counts = λ j. ground arith;
  fresh = λ e. cc;
  own = λ id message e. cc;
  enough = λ e. cc;
  tally = λ j. ground arith;
  to_clean = refl;
  network_size = refl;
}

-- A collection before the message that delivers nothing is not seen.
collected-Steps :
    (m : UrbMessage) (urb urb1 urb' : Urb) (d : Delivery)
    → ((j : UrbIdentifier) → was_delivered j urb1 ≡ was_delivered j urb)
    → urb1 ≡ record urb { delivered = urb1.delivered; cleaned = urb1.cleaned }
    → Steps m urb1 urb' d
    → Steps m urb urb' d
unfolding can_deliver
collected-Steps m urb urb1 urb' d kept same s = record {
  counts = λ j. ground (arith, s.counts j, kept j);
  fresh = λ e. ground (arith, s.fresh e, kept (identifier_of m));
  own = s.own;
  enough = λ e. ground (arith, s.enough e);
  tally = λ j. ground (arith, s.tally j);
  to_clean = ground (arith, s.to_clean);
  network_size = ground (arith, s.network_size);
}

-- Every message is handled to the end, if the prefixes stay below the largest identifier and cover
-- delivered messages only.
pub on_urb_message-Steps :
    (m : UrbMessage) (urb : Urb)
    → Bounded urb.to_clean
    → Bounded urb.cleaned
    → Collectable urb
    → (urb' : Urb) × (d : Delivery) × (on_urb_message m urb ≡ some (urb', d))
      × Steps m urb urb' d
      × Bounded urb'.cleaned
unfolding on_urb_message
on_urb_message-Steps m urb to_clean cleaned collectable =
    elim (Bool-cases (was_delivered (identifier_of m) urb)) [
      | inl old ↦ (urb, none, ground arith, untouched-Steps m urb, cleaned)
      | inr new ↦
          let (urb1, done, kept, same, bounded) =
            garbage_collection_lem m.source urb to_clean cleaned in
          let new1 : was_delivered (identifier_of m) urb1 ≡ false =
            ground (arith, kept (identifier_of m), collectable (identifier_of m)) in
          let (urb', d, done', steps, cleaned') = acknowledge-Steps m urb1 new1 in
          (
            urb',
            d,
            ground (arith, done, done'),
            collected-Steps m urb urb1 urb' d (λ j. ground (arith, kept j, collectable j)) same
                steps,
            rw cleaned' bounded,
          )
    ]
