-- ===== src/Primitives/FifoBroadcast/Stack.antt =====
-- include/primitives/fifo_broadcast.hpp and uniform_reliable_broadcast.hpp: the FIFO broadcast over the
-- reliable broadcast, and the invariant of both.
use broadcast_service.Base.{
  ℕ, ◌+◌, ◌/◌, ◌≤◌, ◌<◌, ◌≡◌, refl, ◌⊎◌, inl, inr, List, [], ◌∷◌, true, false, Option, none, some,
  if◌then◌else◌, arith, nat_eq, contains, Distinct, Option-cases,
}
use broadcast_service.Transport.Bytes.{Bytes}
use broadcast_service.Util.Dict
use broadcast_service.Primitives.UniformReliableBroadcast.UrbMessage
use broadcast_service.Primitives.UniformReliableBroadcast.UrbMessage.{UrbMessage}
use broadcast_service.Primitives.UniformReliableBroadcast.State.{
  UrbIdentifier, Urb, identifier_is_eq, identifier_eq, can_deliver, was_delivered,
  clean_delivered_prefix,
}
use broadcast_service.Primitives.UniformReliableBroadcast.State.Delivered.{Bounded}
use broadcast_service.Primitives.UniformReliableBroadcast.Handler as Urb_handler
use broadcast_service.Primitives.UniformReliableBroadcast.Handler.{
  Delivery, identifier_of, acks_of, on_urb_message,
}
use broadcast_service.Primitives.UniformReliableBroadcast.Handler.Steps.{
  Collectable, Steps, on_urb_message-Steps,
}
use broadcast_service.Primitives.FifoBroadcast.{
  Fifo, next_of, pending_of, deliver, advance, flush, admit, on_delivery, hand_on, on_message,
}
use broadcast_service.Primitives.FifoBroadcast.Pending.{limit}
use broadcast_service.Primitives.FifoBroadcast.Peers.{clean_of}
use broadcast_service.Primitives.FifoBroadcast.Order.{Settled, on_delivery_lem}

-- Of the reliable broadcast, deliveries change only the prefixes to collect.
abbrev Keeps : Fifo → Fifo → Type 0
Keeps fifo fifo' = fifo'.urb ≡ record fifo.urb { to_clean = fifo'.urb.to_clean }

deliver-Keeps :
    (peer id : ℕ) (message : Bytes) (fifo : Fifo) → Keeps fifo (deliver peer id message fifo)
unfolding deliver clean_delivered_prefix
deliver-Keeps peer id message fifo = ground arith

flush-Keeps :
    (end_key peer : ℕ) (pending : List (ℕ × Bytes)) (fifo fifo' : Fifo)
    → flush end_key peer pending fifo ≡ some fifo'
    → Keeps fifo fifo'
unfolding flush
flush-Keeps end_key peer [] fifo fifo' e = ground arith
flush-Keeps end_key peer ((k, m) ∷ pending) fifo fifo' e =
    let next = record (advance peer fifo) { pendings = Dict.assign peer pending fifo.pendings } in
    ground (
      arith,
      flush-Keeps end_key peer pending (deliver peer k m next) fifo',
      deliver-Keeps peer k m next,
    )

on_delivery-Keeps :
    (end_key : ℕ) (id : UrbIdentifier) (message : Bytes) (fifo fifo' : Fifo)
    → on_delivery end_key id message fifo ≡ some fifo'
    → Keeps fifo fifo'
unfolding on_delivery
on_delivery-Keeps end_key id message fifo fifo' e =
    let admitted = admit id message fifo in
    ground (
      arith,
      flush-Keeps end_key id.peer (pending_of id.peer admitted) admitted fifo' e,
      deliver-Keeps id.peer id.urb_id message (advance id.peer fifo),
    )

abbrev pub count : UrbIdentifier → List UrbIdentifier → ℕ
count j [] = 0
count j (i ∷ seen) = (if identifier_eq i j then 1 else 0) + count j seen

-- The state after messages for the identifiers `seen`, of which the reliable broadcast handed on
-- `handed`, the latest first.
pub record Stack (seen handed : List UrbIdentifier) (fifo : Fifo) : Type 0 where
  -- the FIFO order of each peer
  pub settled : Settled handed fifo
  -- delivered is what was handed on, whatever was collected
  pub delivered : (j : UrbIdentifier) → was_delivered j fifo.urb ≡ contains j handed
  pub once : Distinct handed
  pub cleaned : Bounded fifo.urb.cleaned
  pub tally : (j : UrbIdentifier) → acks_of j fifo.urb ≤ count j seen
  pub majority :
      (j : UrbIdentifier) → contains j handed ≡ true → fifo.urb.network_size / 2 < count j seen

to_clean-Bounded :
    (handed : List UrbIdentifier) (fifo : Fifo) → Settled handed fifo → Bounded fifo.urb.to_clean
unfolding clean_of
to_clean-Bounded handed fifo settled p c e =
    omega (arith, (settled p).collected c e, (settled p).small)

fifo-Collectable :
    {seen handed : List UrbIdentifier} (fifo : Fifo) → Stack seen handed fifo → Collectable fifo.urb
unfolding clean_of
fifo-Collectable fifo s j h = elim (Option-cases (Dict.lookup j.peer fifo.urb.to_clean)) [
  | inl nothing ↦ ground arith
  | inr (c, here) ↦ ground (
    arith,
    s.delivered j,
    (s.settled j.peer).collected c here,
    (s.settled j.peer).arrived j.urb_id,
  )
]

Settled-urb :
    (handed : List UrbIdentifier) (fifo : Fifo) (urb' : Urb)
    → urb'.to_clean ≡ fifo.urb.to_clean
    → Settled handed fifo
    → Settled handed (record fifo { urb = urb' })
unfolding next_of pending_of clean_of
Settled-urb handed fifo urb' same settled q = record {
  waiting = (settled q).waiting;
  arrived = (settled q).arrived;
  ordered = (settled q).ordered;
  small = (settled q).small;
  collected = λ c e. (settled q).collected c (ground arith);
}

-- What one message leads to.
abbrev pub Next :
    List UrbIdentifier → List UrbIdentifier → UrbIdentifier → Fifo → Option Fifo → Type 0
Next seen handed id fifo r =
    (fifo' : Fifo) × (handed' : List UrbIdentifier) × (r ≡ some fifo')
    × Stack (id ∷ seen) handed' fifo'
    × ((handed' ≡ handed) ⊎ (handed' ≡ id ∷ handed))

module _ (end_key : ℕ) (zero_end : end_key ≡ 0) (seen handed : List UrbIdentifier) (m : UrbMessage)
    (fifo : Fifo) (s : Stack seen handed fifo) (urb' : Urb) (bounded : Bounded urb'.cleaned) where
  quiet_step :
      Steps m fifo.urb urb' none
      → Next seen handed (identifier_of m) fifo (hand_on end_key fifo (some (urb', none)))
  unfolding can_deliver
  quiet_step st = (
    record fifo { urb = urb' },
    handed,
    refl,
    record {
      settled = Settled-urb handed fifo urb' st.to_clean s.settled;
      delivered = λ j. ground (arith, st.counts j, s.delivered j);
      once = s.once;
      cleaned = bounded;
      tally = λ j. ground (arith, st.tally j, s.tally j);
      majority = λ j h. ground (arith, s.majority j h, st.network_size);
    },
    inl refl,
  )

  handing_step :
      (message : Bytes)
      → m.urb_id < limit
      → Steps m fifo.urb urb' (some (identifier_of m, message))
      → Next seen handed
          (identifier_of m)
          fifo
          (hand_on end_key fifo (some (urb', some (identifier_of m, message))))
  unfolding can_deliver was_delivered contains
  handing_step message small st =
      let id = identifier_of m in
      let new : contains id handed ≡ false = ground (arith, st.fresh refl, s.delivered id) in
      let before : Fifo = record fifo { urb = urb' } in
      let (fifo', done, settled) =
        on_delivery_lem id message before handed small new
          (Settled-urb handed fifo urb' st.to_clean s.settled) end_key zero_end in
      let keeps = on_delivery-Keeps end_key id message before fifo' done in
      (
        fifo',
        id ∷ handed,
        done,
        record {
          settled = settled;
          delivered = λ j. ground (arith, keeps, st.counts j, s.delivered j);
          once = (new, s.once);
          cleaned = λ p c e. bounded p c (ground (arith, keeps));
          tally = λ j. ground (arith, keeps, st.tally j, s.tally j);
          majority = λ j h.
              ground (arith, keeps, st.network_size, s.majority j, st.enough refl, s.tally id);
        },
        inr refl,
      )

  step :
      (d : Delivery)
      → m.urb_id < limit
      → Steps m fifo.urb urb' d
      → Next seen handed (identifier_of m) fifo (hand_on end_key fifo (some (urb', d)))
  step none small st = quiet_step st
  step (some (id, message)) small st =
      let own : id ≡ identifier_of m = st.own id message refl in
      rw own (handing_step message small (rw own at st))

-- One message of the transport, which can be read and has an identifier below the largest number: it is
-- handled to the end and at most its own identifier is handed on.
pub on_message-Stack :
    (end_key : ℕ) (seen handed : List UrbIdentifier) (bytes : Bytes) (m : UrbMessage) (fifo : Fifo)
    → end_key ≡ 0
    → UrbMessage.unmarshal bytes ≡ some m
    → m.urb_id < limit
    → Stack seen handed fifo
    → Next seen handed (identifier_of m) fifo (on_message end_key bytes fifo)
unfolding on_message Urb_handler.on_message
on_message-Stack end_key seen handed bytes m fifo zero_end read small s =
    let (urb', d, done, steps, bounded) =
      on_urb_message-Steps m fifo.urb (to_clean-Bounded handed fifo s.settled) s.cleaned
        (fifo-Collectable fifo s) in
    rw (read, done) (step end_key zero_end seen handed m fifo s urb' bounded d small steps)
