-- ===== src/Primitives/FifoBroadcast/Peers.antt =====
-- include/primitives/fifo_broadcast.hpp: the invariant of each peer between two deliveries, and lemmas
-- on `Deliver`.
use broadcast_service.Base.{
  ℕ, zero, suc, ◌+◌, ◌%◌, ◌^◌, ◌≤◌, ◌<◌, ◌≡◌, ◌≢◌, List, [], ◌∷◌, ◌++◌, true, false, ◌||◌, Option,
  some, if◌then◌else◌, eqb, ltb, arith, nat_eq, contains,
}
use native.Mathlib.Decide.{ℕ_discrete}
use broadcast_service.Transport.Bytes.{Bytes}
use broadcast_service.Util.Dict
use broadcast_service.Primitives.UniformReliableBroadcast.State.{
  UrbIdentifier, identifier_is_eq, clean_delivered_prefix,
}
use broadcast_service.Primitives.FifoBroadcast.{
  Delivered, Fifo, next_of, pending_of, deliver, advance,
}
use broadcast_service.Primitives.FifoBroadcast.Pending.{limit, From, has_key}

-- The identifiers of a peer's deliveries.
abbrev pub ids_of : ℕ → List Delivered → List ℕ
ids_of peer [] = []
ids_of peer (d ∷ log) = if eqb peer d.peer then d.id ∷ ids_of peer log else ids_of peer log

pub ids_of-append :
    (peer : ℕ) (log : List Delivered) (d : Delivered)
    → ids_of peer (log ++ d ∷ [])
      ≡ (if eqb peer d.peer then ids_of peer log ++ d.id ∷ [] else ids_of peer log)
ids_of-append peer [] d = ground arith
ids_of-append peer (e ∷ log) d = ground (arith, ids_of-append peer log d)

-- 0, 1, ..., n - 1
abbrev pub upto : ℕ → List ℕ
upto zero = []
upto (suc n) = upto n ++ n ∷ []

-- The prefix of a peer's messages that the reliable broadcast may collect.
unfoldable pub clean_of : ℕ → Fifo → Option ℕ
clean_of peer fifo = Dict.lookup peer fifo.urb.to_clean

-- What is known of a peer `p`, its next identifier, its pending messages and the identifiers of its
-- deliveries and the prefix to collect, after the reliable broadcast has delivered the identifiers `received`; the pending
-- identifiers are at least `from`.
pub record Peer (received : List UrbIdentifier) (p next : ℕ) (pending : List (ℕ × Bytes))
    (ids : List ℕ) (clean : Option ℕ) (from : ℕ) : Type 0 where
  pub waiting : From from pending
  pub arrived :
      (k : ℕ)
      → contains (record { peer = p; urb_id = k }) received ≡ (ltb k next || has_key k pending)
  pub ordered : ids ≡ upto next
  pub small : next ≤ limit
  pub collected : (c : ℕ) → clean ≡ some c → c < next

-- All peers, of which `peer` may have its next message pending.
abbrev pub Peers : List UrbIdentifier → ℕ → Fifo → Type 0
Peers received peer fifo =
    (q : ℕ)
    → Peer received q (next_of q fifo) (pending_of q fifo) (ids_of q fifo.log) (clean_of q fifo)
        (if eqb q peer then next_of q fifo else suc (next_of q fifo))

-- The next message of `peer` is delivered, beside a change of the pending messages.
unfoldable pub deliver_next : ℕ → Bytes → List (ℕ × List (ℕ × Bytes)) → Fifo → Fifo
deliver_next peer message pendings fifo =
    deliver peer (next_of peer fifo) message (record (advance peer fifo) { pendings = pendings })

module _ (peer : ℕ) (message : Bytes) (pendings : List (ℕ × List (ℕ × Bytes))) (fifo : Fifo)
    (q : ℕ) where
  pub next_of-deliver :
      next_of peer fifo < limit
      → next_of q (deliver_next peer message pendings fifo)
        ≡ (if eqb peer q then suc (next_of peer fifo) else next_of q fifo)
  unfolding deliver_next deliver next_of
  next_of-deliver h =
      ground (arith, Dict.lookup-assign peer q ((next_of peer fifo + 1) % 2 ^ 32) fifo.next_ids)

  pub pending_of-deliver :
      pending_of q (deliver_next peer message pendings fifo)
      ≡ pending_of q (record fifo { pendings = pendings })
  unfolding deliver_next deliver pending_of
  pending_of-deliver = ground arith

  ids_of-deliver :
      ids_of q (deliver_next peer message pendings fifo).log
      ≡ (if eqb peer q then ids_of q fifo.log ++ next_of peer fifo ∷ [] else ids_of q fifo.log)
  unfolding deliver_next deliver
  ids_of-deliver = ground (
    arith,
    ids_of-append q fifo.log (record { peer = peer; id = next_of peer fifo; message = message }),
  )

  pub clean_of-deliver :
      clean_of q (deliver_next peer message pendings fifo)
      ≡ (if eqb peer q then some (next_of peer fifo) else clean_of q fifo)
  unfolding deliver_next deliver clean_delivered_prefix clean_of
  clean_of-deliver = ground (arith, Dict.lookup-assign peer q (next_of peer fifo) fifo.urb.to_clean)

  -- The peer's messages before this one are ordered, and the other peers settled.
  pub Peer-deliver :
      (received : List UrbIdentifier) (pending : List (ℕ × Bytes))
      → (q ≢ peer
          → Peer received q
              (next_of q fifo)
              (pending_of q fifo)
              (ids_of q fifo.log)
              (clean_of q fifo)
              (suc (next_of q fifo)))
      → pending_of q (record fifo { pendings = pendings })
        ≡ (if eqb peer q then pending else pending_of q fifo)
      → next_of peer fifo < limit
      → From (suc (next_of peer fifo)) pending
      → ((k : ℕ)
          → contains (record { peer = peer; urb_id = k }) received
            ≡ (ltb k (suc (next_of peer fifo)) || has_key k pending))
      → ids_of peer fifo.log ≡ upto (next_of peer fifo)
      → let fifo' = deliver_next peer message pendings fifo in
        Peer received q
          (next_of q fifo')
          (pending_of q fifo')
          (ids_of q fifo'.log)
          (clean_of q fifo')
          (if eqb q peer then next_of q fifo' else suc (next_of q fifo'))
  Peer-deliver received pending others kept room rest arrived ordered =
      rw (next_of-deliver room, pending_of-deliver, ids_of-deliver, clean_of-deliver, kept)
        (elim (ℕ_discrete q peer) [
          | yes here ↦
              let forth : eqb peer q ≡ true = ground arith in
              let back : eqb q peer ≡ true = ground arith in
              rw (forth, back)
                (record {
                  waiting = rest;
                  arrived = λ k. rw here (arrived k);
                  ordered = rw here (ground arith);
                  small = room;
                  collected = λ c e. ground arith;
                })
          | no other ↦
              let forth : eqb peer q ≡ false = ground arith in
              let back : eqb q peer ≡ false = ground arith in rw (forth, back) (others other)
        ])
