-- ===== src/Transport/FairLossChannel/Queueing.antt =====
-- include/io/transport/fairloss_channel.hpp: lemmas on `Send` and the registered identifiers.
use broadcast_service.Base.{
  ℕ, ◌≡◌, refl, List, [], ◌∷◌, ◌++◌, Bool, true, false, ◌||◌, if◌then◌else◌, eqb, leb, nat_eq,
  contains, contains-append, Distinct, length, arith, Bool-cases, inl, inr,
}
use broadcast_service.Util.SetOperation.Union.{Distinct-append}
use broadcast_service.Concurrency.MrmwSet
use broadcast_service.Util.HashSet.{contains-insert}
use broadcast_service.Concurrency.TaskQueue.{try_pop_all, try_pop_all-push}
use broadcast_service.Transport.Packet.{Packet}
use broadcast_service.Transport.FairLossChannel.{FairLoss, send, outgoing_message_cap}
use broadcast_service.Transport.FairLossChannel.Writing.{packet_ids, WroteEvent}

abbrev pub queued : FairLoss → List Packet
queued ch = (try_pop_all ch.outgoing_packets).0

pub record Tracked (ch : FairLoss) : Type 0 where
  pub registered :
      (id : ℕ) → MrmwSet.has id ch.outgoing_message_ids ≡ contains id (packet_ids (queued ch))
  pub once : Distinct (packet_ids (queued ch))

packet_ids-append : (xs ys : List Packet) → packet_ids (xs ++ ys) ≡ packet_ids xs ++ packet_ids ys
packet_ids-append [] ys = refl
packet_ids-append (x ∷ xs) ys = ground (arith, packet_ids-append xs ys)

Distinct-suffix : (xs ys : List ℕ) → Distinct (xs ++ ys) → Distinct ys
Distinct-suffix [] ys d = d
Distinct-suffix (x ∷ xs) ys d = Distinct-suffix xs ys d.1

Distinct-apart :
    (xs ys : List ℕ) (a : ℕ) → Distinct (xs ++ ys) → contains a xs ≡ true → contains a ys ≡ false
unfolding contains
Distinct-apart [] ys a d h = cc
Distinct-apart (x ∷ xs) ys a d h =
    ground (arith, d.0, contains-append x xs ys, Distinct-apart xs ys a d.1)

-- Whether `Send` drops a packet.
abbrev pub drops : Packet → FairLoss → Bool
drops packet ch =
    leb outgoing_message_cap (length ch.outgoing_message_ids)
    || contains packet.id (packet_ids (queued ch))

send-drops :
    (packet : Packet) (ch : FairLoss) → Tracked ch → drops packet ch ≡ true → send packet ch ≡ ch
unfolding send MrmwSet.insert MrmwSet.has MrmwSet.estimate_size
send-drops packet ch t dropped = ground (arith, t.registered packet.id)

module _ (packet : Packet) (ch : FairLoss) (t : Tracked ch) (added : drops packet ch ≡ false) where
  send_adds : queued (send packet ch) ≡ queued ch ++ packet ∷ []
  unfolding send MrmwSet.insert MrmwSet.has MrmwSet.estimate_size
  send_adds =
      ground (arith, t.registered packet.id, (try_pop_all-push packet [] ch.outgoing_packets).0)

  send_registers :
      (id : ℕ)
      → MrmwSet.has id (send packet ch).outgoing_message_ids
        ≡ (eqb packet.id id || MrmwSet.has id ch.outgoing_message_ids)
  unfolding send MrmwSet.insert MrmwSet.has MrmwSet.estimate_size
  send_registers id =
      ground (arith, t.registered packet.id, contains-insert packet.id id ch.outgoing_message_ids)

  added-Tracked : Tracked (send packet ch)
  unfolding contains
  added-Tracked = record {
    registered = λ id. ground (
      arith,
      send_adds,
      send_registers id,
      t.registered id,
      packet_ids-append (queued ch) (packet ∷ []),
      contains-append id (packet_ids (queued ch)) (packet.id ∷ []),
    );
    once =
        rw (send_adds, packet_ids-append (queued ch) (packet ∷ []))
          (Distinct-append (packet_ids (queued ch)) (packet.id ∷ []) t.once (refl, tt)
            (λ a h. ground arith));
  }

-- `Send` keeps it so. The packet is in the queue afterwards, behind those that were there, unless a packet
-- with its identifier was there or the cap is reached, when nothing changes.
pub send-Tracked :
    (packet : Packet) (ch : FairLoss)
    → Tracked ch
    → Tracked (send packet ch)
      × (queued (send packet ch)
          ≡ (if drops packet ch then queued ch else queued ch ++ packet ∷ []))
send-Tracked packet ch t = elim (Bool-cases (drops packet ch)) [
  | inl dropped ↦
      let same = send-drops packet ch t dropped in (rw same t, rw dropped (rw same refl))
  | inr added ↦ (added-Tracked packet ch t added, rw added (send_adds packet ch t added))
]

-- A write event keeps it so.
pub written-Tracked :
    (ch ch' : FairLoss) (sent : List Packet) → WroteEvent ch ch' sent → Tracked ch → Tracked ch'
written-Tracked ch ch' sent e t =
    let ids : packet_ids (queued ch) ≡ packet_ids sent ++ packet_ids (queued ch') =
      ground (arith, e.order, packet_ids-append sent (queued ch')) in
    let once : Distinct (packet_ids sent ++ packet_ids (queued ch')) = rw ids at t.once in
    record {
      registered = λ id. ground (
        arith,
        e.ids id,
        t.registered id,
        ids,
        contains-append id (packet_ids sent) (packet_ids (queued ch')),
        Distinct-apart (packet_ids sent) (packet_ids (queued ch')) id once,
      );
      once = Distinct-suffix (packet_ids sent) (packet_ids (queued ch')) once;
    }
