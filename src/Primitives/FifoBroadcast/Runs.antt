-- ===== src/Primitives/FifoBroadcast/Runs.antt =====
-- include/primitives/fifo_broadcast.hpp: runs of a process, from its start, over packets that arrive and
-- messages that it broadcasts.
use broadcast_service.Base.{
  ℕ, suc, ◌+◌, ◌%◌, ◌^◌, ◌/◌, ◌<◌, ◌≡◌, refl, List, [], ◌∷◌, true, false, some, arith, contains,
  nat_eq,
}
use broadcast_service.Transport.Bytes.{Bytes}
use broadcast_service.Util.Dict
use broadcast_service.Primitives.UniformReliableBroadcast.UrbMessage
use broadcast_service.Primitives.UniformReliableBroadcast.UrbMessage.{UrbMessage}
use broadcast_service.Primitives.UniformReliableBroadcast.UrbMessage.RoundTrip.{to_bytes_lem}
use broadcast_service.Primitives.UniformReliableBroadcast.State.{
  UrbIdentifier, Urb, identifier_is_eq, was_delivered,
}
use broadcast_service.Primitives.UniformReliableBroadcast.Handler as Urb_handler
use broadcast_service.Primitives.UniformReliableBroadcast.Handler.{identifier_of, send_all}
use broadcast_service.Concurrency.MrmwMap
use broadcast_service.Primitives.FifoBroadcast.{
  Fifo, Event, arrives, sends, next_of, pending_of, broadcast, handle, run, init,
}
use broadcast_service.Primitives.FifoBroadcast.Pending.{limit, has_key_below}
use broadcast_service.Primitives.FifoBroadcast.Peers.{ids_of, upto, clean_of}
use broadcast_service.Primitives.FifoBroadcast.Order.{}
use broadcast_service.Primitives.FifoBroadcast.Stack.{count, Stack, on_message-Stack}

-- The packets can be read as the messages `ms`, with identifiers below the largest number.
abbrev pub Readable : List Event → List UrbMessage → Type 0
Readable [] [] = Unit {0}
Readable (arrives bytes ∷ events) (m ∷ ms) =
    (UrbMessage.unmarshal bytes ≡ some m) × (m.urb_id < limit) × Readable events ms
Readable (sends message ∷ events) ms = Readable events ms
Readable [] (m ∷ ms) = ⊥
Readable (arrives bytes ∷ events) [] = ⊥

-- The identifiers of messages, the latest first, before those of `seen`.
abbrev pub seen_after : List UrbIdentifier → List UrbMessage → List UrbIdentifier
seen_after seen [] = seen
seen_after seen (m ∷ ms) = seen_after (identifier_of m ∷ seen) ms

-- A broadcast of one's own changes nothing that was delivered.
broadcast-Stack :
    (end_key : ℕ) (seen handed : List UrbIdentifier) (message : Bytes) (fifo : Fifo)
    → Stack seen handed fifo
    → (fifo' : Fifo) × (handle end_key (sends message) fifo ≡ some fifo') × Stack seen handed fifo'
unfolding handle broadcast Urb_handler.get_next_id Urb_handler.broadcast next_of pending_of clean_of
    was_delivered
broadcast-Stack end_key seen handed message fifo s =
    let urb : Urb = record fifo.urb { next_id = (fifo.urb.next_id + 1) % 2 ^ 32 } in
    let m : UrbMessage = record {
      source = urb.local_id;
      urb_id = fifo.urb.next_id;
      message = message;
    } in
    let urb' : Urb =
      send_all (UrbMessage.contents m)
        (record urb { pending = MrmwMap.set (identifier_of m) message urb.pending }) in
    let fifo' : Fifo = record fifo {
      urb = urb';
      entries = MrmwMap.set fifo.urb.next_id fifo.urb.next_id fifo.entries;
    } in
    (
      fifo',
      ground (arith, to_bytes_lem m),
      record {
        settled = λ q. record {
          waiting = (s.settled q).waiting;
          arrived = (s.settled q).arrived;
          ordered = (s.settled q).ordered;
          small = (s.settled q).small;
          collected = (s.settled q).collected;
        };
        delivered = s.delivered;
        once = s.once;
        cleaned = s.cleaned;
        tally = s.tally;
        majority = s.majority;
      },
    )

run-Stack :
    (end_key : ℕ) (events : List Event) (ms : List UrbMessage) (seen handed : List UrbIdentifier)
    (fifo : Fifo)
    → end_key ≡ 0
    → Readable events ms
    → Stack seen handed fifo
    → (fifo' : Fifo) × (handed' : List UrbIdentifier) × (run end_key events fifo ≡ some fifo')
      × Stack (seen_after seen ms) handed' fifo'
unfolding run handle
run-Stack end_key [] [] seen handed fifo zero_end readable s = (fifo, handed, refl, s)
run-Stack end_key [] (m ∷ ms) seen handed fifo zero_end readable s = absurd readable
run-Stack end_key (arrives bytes ∷ events) [] seen handed fifo zero_end readable s = absurd readable
run-Stack end_key (sends message ∷ events) ms seen handed fifo zero_end readable s =
    let (fifo1, done, s1) = broadcast-Stack end_key seen handed message fifo s in
    let (fifo', handed', done', s') =
      run-Stack end_key events ms seen handed fifo1 zero_end readable s1 in
    (fifo', handed', ground (arith, done, done'), s')
run-Stack end_key (arrives bytes ∷ events) (m ∷ ms) seen handed fifo zero_end readable s =
    let (fifo1, handed1, done, s1, _) =
      on_message-Stack end_key seen handed bytes m fifo zero_end readable.0 readable.1 s in
    let (fifo', handed', done', s') =
      run-Stack end_key events ms (identifier_of m ∷ seen) handed1 fifo1 zero_end readable.2 s1 in
    (fifo', handed', rw done done', s')

pub init-Stack : (local_id : ℕ) (peers : List ℕ) → Stack [] [] (init local_id peers)
unfolding next_of pending_of clean_of was_delivered contains Dict.lookup
init-Stack local_id peers = record {
  settled = λ q. record {
    waiting = tt;
    arrived = λ k. ground arith;
    ordered = refl;
    small = omega arith;
    collected = λ c e. ground arith;
  };
  delivered = λ j. refl;
  once = tt;
  cleaned = λ p c e. ground arith;
  tally = λ j. ground arith;
  majority = λ j h. ground arith;
}

module _ (end_key local_id : ℕ) (peers : List ℕ) (events : List Event) (ms : List UrbMessage)
    (zero_end : end_key ≡ 0) (readable : Readable events ms) where
  after_run :
      (fifo' : Fifo) × (handed : List UrbIdentifier) × (run end_key events (init local_id peers)
        ≡ some fifo')
      × Stack (seen_after [] ms) handed fifo'
  after_run =
      run-Stack end_key events ms [] [] (init local_id peers) zero_end readable
        (init-Stack local_id peers)

  -- When the packets that arrive can be read, carry identifiers below the largest number and the key at
  -- the end of an empty map reads as 0, the process handles any sequence of arrivals and broadcasts to
  -- its end. Then the messages of each peer that were delivered are those with the identifiers
  -- 0, 1, 2, ..., in this order, without a gap or a repetition.
  pub run_in_order :
      (fifo' : Fifo) × (run end_key events (init local_id peers) ≡ some fifo')
      × ((peer : ℕ) → ids_of peer fifo'.log ≡ upto (next_of peer fifo'))
  run_in_order =
      let (fifo', handed, done, s) = after_run in (fifo', done, λ peer. (s.settled peer).ordered)

  -- In such a run, what was delivered had arrived from more than half of the network: if the
  -- next identifier of a peer is past `k`, more than `network_size / 2` messages with that identifier
  -- were read.
  pub run_by_majority :
      (fifo' : Fifo) (peer k : ℕ)
      → run end_key events (init local_id peers) ≡ some fifo'
      → k < next_of peer fifo'
      → fifo'.urb.network_size / 2 < count (record { peer = peer; urb_id = k }) (seen_after [] ms)
  run_by_majority fifo' peer k done below =
      let (last, handed, done', s) = after_run in
      let same : last ≡ fifo' = ground (arith, done, done') in
      let there : contains (record { peer = peer; urb_id = k }) handed ≡ true =
        ground (arith, (s.settled peer).arrived k) in
      rw same at (s.majority (record { peer = peer; urb_id = k }) there)

  -- In such a run, nothing that could be delivered is kept back: the reliable broadcast has not
  -- delivered the next message of any peer.
  pub run_complete :
      (fifo' : Fifo) (peer : ℕ)
      → run end_key events (init local_id peers) ≡ some fifo'
      → was_delivered (record { peer = peer; urb_id = next_of peer fifo' }) fifo'.urb ≡ false
  run_complete fifo' peer done =
      let (last, handed, done', s) = after_run in
      let same : last ≡ fifo' = ground (arith, done, done') in
      let kept : was_delivered (record { peer = peer; urb_id = next_of peer last }) last.urb
          ≡ false =
        ground (
          arith,
          s.delivered (record { peer = peer; urb_id = next_of peer last }),
          (s.settled peer).arrived (next_of peer last),
          has_key_below (next_of peer last) (suc (next_of peer last)) (pending_of peer last)
              (omega arith) (s.settled peer).waiting,
        ) in
      rw same at kept
