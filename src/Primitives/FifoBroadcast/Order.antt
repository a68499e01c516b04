-- ===== src/Primitives/FifoBroadcast/Order.antt =====
-- include/primitives/fifo_broadcast.hpp: lemmas on the callback for the deliveries of the reliable
-- broadcast, and its loop over the pending messages.
use broadcast_service.Base.{
  ℕ, suc, ◌<◌, ◌≡◌, ◌≢◌, refl, ◌∙◌, List, [], ◌∷◌, true, false, ◌||◌, some, if◌then◌else◌, eqb, ltb,
  arith, nat_eq, contains,
}
use native.Mathlib.Decide.{ℕ_discrete}
use broadcast_service.Transport.Bytes.{Bytes}
use broadcast_service.Util.Dict
use broadcast_service.Primitives.UniformReliableBroadcast.State.{UrbIdentifier, identifier_is_eq}
use broadcast_service.Primitives.FifoBroadcast.{
  Fifo, next_of, pending_of, emplace, flush, admit, on_delivery,
}
use broadcast_service.Primitives.FifoBroadcast.Peers.{
  ids_of, clean_of, Peer, Peers, deliver_next, next_of-deliver, pending_of-deliver, Peer-deliver,
}
use broadcast_service.Primitives.FifoBroadcast.Pending.{
  limit, From, has_key, From-le, From-emplace, has_key-emplace,
}

-- All peers, none of which has its next message pending.
abbrev pub Settled : List UrbIdentifier → Fifo → Type 0
Settled received fifo =
    (q : ℕ)
    → Peer received q (next_of q fifo) (pending_of q fifo) (ids_of q fifo.log) (clean_of q fifo)
        (suc (next_of q fifo))

module _ (received : List UrbIdentifier) (peer : ℕ) (fifo : Fifo)
    (peers : Peers received peer fifo) where
  own_waiting : From (next_of peer fifo) (pending_of peer fifo)
  own_waiting = let same : eqb peer peer ≡ true = ground arith in rw same at (peers peer).waiting

  settle : From (suc (next_of peer fifo)) (pending_of peer fifo) → Settled received fifo
  settle clear q = elim (ℕ_discrete q peer) [
    | yes here ↦ record {
      waiting = rw here clear;
      arrived = (peers q).arrived;
      ordered = (peers q).ordered;
      small = (peers q).small;
      collected = (peers q).collected;
    }
    | no other ↦ let back : eqb q peer ≡ false = ground arith in rw back at (peers q)
  ]

others :
    (received : List UrbIdentifier) (peer : ℕ) (fifo : Fifo)
    → Peers received peer fifo
    → (q : ℕ) → q ≢ peer
    → Peer received q
        (next_of q fifo)
        (pending_of q fifo)
        (ids_of q fifo.log)
        (clean_of q fifo)
        (suc (next_of q fifo))
others received peer fifo peers q other =
    let back : eqb q peer ≡ false = ground arith in rw back at (peers q)

pending_of-assign :
    (peer q : ℕ) (pending : List (ℕ × Bytes)) (fifo : Fifo)
    → pending_of q (record fifo { pendings = Dict.assign peer pending fifo.pendings })
      ≡ (if eqb peer q then pending else pending_of q fifo)
unfolding pending_of
pending_of-assign peer q pending fifo =
    ground (arith, Dict.lookup-assign peer q pending fifo.pendings)

-- The loop ends, and leaves no peer's next message pending.
flush_lem :
    (end_key peer : ℕ) (pending : List (ℕ × Bytes)) (fifo : Fifo) (received : List UrbIdentifier)
    → end_key ≡ 0
    → (pending ≡ [] → 0 < next_of peer fifo)
    → pending_of peer fifo ≡ pending
    → Peers received peer fifo
    → (fifo' : Fifo) × (flush end_key peer pending fifo ≡ some fifo') × Settled received fifo'
unfolding flush deliver_next
flush_lem end_key peer [] fifo received zero_end started here peers =
    (fifo, ground (arith, started refl), settle received peer fifo peers (rw here tt))
flush_lem end_key peer ((k, m) ∷ pending) fifo received zero_end started here peers =
    let waiting : From (next_of peer fifo) ((k, m) ∷ pending) =
      rw here at (own_waiting received peer fifo peers) in
    elim (ℕ_discrete (next_of peer fifo) k) [
      | yes next ↦
          let pendings = Dict.assign peer pending fifo.pendings in
          let fifo' = deliver_next peer m pendings fifo in
          let room : next_of peer fifo < limit = omega (arith, waiting.1) in
          let arrived : (j : ℕ)
              → contains (record { peer = peer; urb_id = j }) received
                ≡ (ltb j (suc (next_of peer fifo)) || has_key j pending) =
            λ j. (peers peer).arrived j ∙ rw here (ground arith) in
          let (fifo'', done, settled) =
            flush_lem end_key peer pending fifo' received zero_end
              (λ _. ground (arith, next_of-deliver peer m pendings fifo peer room))
              (ground (
                arith,
                pending_of-deliver peer m pendings fifo peer,
                pending_of-assign peer peer pending fifo,
              ))
              (λ q.
                Peer-deliver peer m pendings fifo q received pending
                  (others received peer fifo peers q) (pending_of-assign peer q pending fifo) room
                  (rw next waiting.2) arrived (peers peer).ordered) in
          (fifo'', ground (arith, done), settled)
      | no gap ↦ (fifo, ground arith, settle received peer fifo peers (rw here (ground arith)))
    ]

emplace-ne-nil :
    (id : ℕ) (message : Bytes) (pending : List (ℕ × Bytes)) → emplace id message pending ≢ []
unfolding emplace
emplace-ne-nil id message [] = λ e. cc
emplace-ne-nil id message ((k, m) ∷ pending) = ground arith

module _ (id : UrbIdentifier) (message : Bytes) (fifo : Fifo) (received : List UrbIdentifier)
    (small : id.urb_id < limit) (new : contains id received ≡ false)
    (settled : Settled received fifo) where
  open id use {peer}

  -- The other peers know nothing of the new message.
  widen :
      (q : ℕ)
      → q ≢ peer
      → Peer
          (id ∷ received)
          q
          (next_of q fifo)
          (pending_of q fifo)
          (ids_of q fifo.log)
          (clean_of q fifo)
          (suc (next_of q fifo))
  unfolding contains
  widen q other = record {
    waiting = (settled q).waiting;
    arrived = λ k. ground (arith, (settled q).arrived k);
    ordered = (settled q).ordered;
    small = (settled q).small;
    collected = (settled q).collected;
  }

  admit_due :
      next_of peer fifo ≡ id.urb_id
      → Peers (id ∷ received) peer (admit id message fifo)
        × (0 < next_of peer (admit id message fifo))
  unfolding contains deliver_next
  admit_due next =
      let due : admit id message fifo ≡ deliver_next peer message fifo.pendings fifo =
        ground arith in
      let room : next_of peer fifo < limit = omega arith in
      rw due (
        (λ q.
            Peer-deliver peer message fifo.pendings fifo q (id ∷ received) (pending_of peer fifo)
              (widen q) (ground arith) room (settled peer).waiting
              (λ k. ground (arith, (settled peer).arrived k)) (settled peer).ordered),
        ground (arith, next_of-deliver peer message fifo.pendings fifo peer room),
      )

  -- The early message among the pending ones.
  abbrev longer : List (ℕ × Bytes)
  longer = emplace id.urb_id message (pending_of peer fifo)

  kept_back :
      next_of peer fifo ≢ id.urb_id
      → Peer
          (id ∷ received)
          peer
          (next_of peer fifo)
          longer
          (ids_of peer fifo.log)
          (clean_of peer fifo)
          (next_of peer fifo)
  unfolding contains
  kept_back gap =
      let above : next_of peer fifo < id.urb_id =
        ground (arith, (settled peer).arrived id.urb_id) in
      record {
        waiting =
            From-emplace (next_of peer fifo) id.urb_id message (pending_of peer fifo) (omega arith)
              small
              (From-le (next_of peer fifo) (suc (next_of peer fifo)) (pending_of peer fifo)
                (omega arith) (settled peer).waiting);
        arrived = λ k. ground (
          arith,
          (settled peer).arrived k,
          has_key-emplace k id.urb_id message (pending_of peer fifo),
        );
        ordered = (settled peer).ordered;
        small = (settled peer).small;
        collected = (settled peer).collected;
      }

  next_of-pendings :
      (q : ℕ) (pendings : List (ℕ × List (ℕ × Bytes)))
      → next_of q (record fifo { pendings = pendings }) ≡ next_of q fifo
  unfolding next_of
  next_of-pendings q pendings = refl

  admit_early :
      next_of peer fifo ≢ id.urb_id
      → Peers (id ∷ received) peer (admit id message fifo)
        × (pending_of peer (admit id message fifo) ≢ [])
  unfolding clean_of
  admit_early gap =
      let pendings = Dict.assign peer longer fifo.pendings in
      let early : admit id message fifo ≡ record fifo { pendings = pendings } = ground arith in
      let same : eqb peer peer ≡ true = ground arith in
      rw early (
        (λ q.
            rw (pending_of-assign peer q longer fifo, next_of-pendings q pendings)
              (elim (ℕ_discrete q peer) [
                | yes here ↦
                    let forth : eqb peer q ≡ true = ground arith in
                    let back : eqb q peer ≡ true = ground arith in
                    rw (forth, back) (rw here (kept_back gap))
                | no other ↦
                    let forth : eqb peer q ≡ false = ground arith in
                    let back : eqb q peer ≡ false = ground arith in rw (forth, back) (widen q other)
              ])),
        rw (pending_of-assign peer peer longer fifo, same)
            (emplace-ne-nil id.urb_id message (pending_of peer fifo)),
      )

  -- A message that the reliable broadcast has not delivered before is delivered or kept, and all
  -- messages that are then due are delivered.
  pub on_delivery_lem :
      (end_key : ℕ)
      → end_key ≡ 0
      → (fifo' : Fifo) × (on_delivery end_key id message fifo ≡ some fifo')
        × Settled (id ∷ received) fifo'
  unfolding on_delivery
  on_delivery_lem end_key zero_end = elim (ℕ_discrete (next_of peer fifo) id.urb_id) [
    | yes next ↦
        flush_lem end_key peer (pending_of peer (admit id message fifo)) (admit id message fifo)
          (id ∷ received) zero_end (λ _. (admit_due next).1) refl (admit_due next).0
    | no gap ↦
        flush_lem end_key peer (pending_of peer (admit id message fifo)) (admit id message fifo)
          (id ∷ received) zero_end (λ e. absurd ((admit_early gap).1 e)) refl (admit_early gap).0
  ]
