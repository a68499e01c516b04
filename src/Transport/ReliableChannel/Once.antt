-- ===== src/Transport/ReliableChannel/Once.antt =====
-- include/io/transport/reliable_channel.hpp: lemmas on the packets that arrive.
use broadcast_service.Base.{
  ℕ, ◌+◌, ◌%◌, ◌^◌, ◌≡◌, refl, List, [], ◌∷◌, ◌++◌, ◌&&◌, ◌||◌, not, some, if◌then◌else◌, eqb,
  nat_eq, contains, contains-append, Distinct, arith, Bool-cases, inl, inr, ◌⊎◌,
}
use broadcast_service.Util.Dict.{lookup-erase}
use broadcast_service.Util.HashSet.{contains-insert}
use broadcast_service.Util.SetOperation.Union.{Distinct-append}
use broadcast_service.Concurrency.MrmwMap
use broadcast_service.Concurrency.MrmwSet
use broadcast_service.Transport.Bytes.{Bytes}
use broadcast_service.Transport.Packet
use broadcast_service.Transport.Packet.{Packet, ack_message, payload_message}
use broadcast_service.Transport.Packet.RoundTrip.{to_bytes_lem}
use broadcast_service.Transport.AckMessage
use broadcast_service.Transport.AckMessage.{AckMessage}
use broadcast_service.Transport.AckMessage.RoundTrip.{to_bytes_lem as ack_to_bytes_lem, slack}
use broadcast_service.Transport.FairLossChannel.{WriteStatus, would_block, conn_refused, ok}
use broadcast_service.Transport.FairLossChannel.Writing.{packet_ids}
use broadcast_service.Transport.ReliableChannel.{
  Reliable, handle_ack, handle_acks, handle_payload_message, handle_packet, handle_packets,
  send_ack, create_packet,
}

-- A payload, or an acknowledgement that can be read.
abbrev Readable : Packet → Type 0
Readable packet =
    (packet.type ≡ payload_message)
    ⊎ ((message : AckMessage) × (packet.type ≡ ack_message)
        × (AckMessage.unmarshal packet.message ≡ some message))

abbrev pub AllReadable : List Packet → Type 0
AllReadable [] = Unit {0}
AllReadable (packet ∷ packets) = Readable packet × AllReadable packets

-- The identifiers of the payloads.
abbrev pub payload_ids : List Packet → List ℕ
payload_ids [] = []
payload_ids (packet ∷ packets) =
    if eqb packet.type payload_message then packet.id ∷ payload_ids packets else payload_ids packets

-- The callback has had each delivered identifier once.
pub record OnceEach (ch : Reliable) : Type 0 where
  pub same : (id : ℕ) → MrmwSet.has id ch.delivered ≡ contains id (packet_ids ch.log)
  pub once : Distinct (packet_ids ch.log)

packet_ids-append :
    (xs : List Packet) (p : Packet) → packet_ids (xs ++ p ∷ []) ≡ packet_ids xs ++ p.id ∷ []
packet_ids-append [] p = refl
packet_ids-append (x ∷ xs) p = ground (arith, packet_ids-append xs p)

handle_acks_same :
    (acks : List ℕ) (ch : Reliable)
    → ((handle_acks acks ch).log ≡ ch.log) × ((handle_acks acks ch).delivered ≡ ch.delivered)
unfolding handle_acks
handle_acks_same [] ch = (refl, refl)
handle_acks_same (id ∷ acks) ch = ground (arith, handle_acks_same acks (handle_ack id ch))

send_ack_same :
    (packet : Packet) (buffer : Bytes) (status : WriteStatus) (ch : Reliable)
    → ((send_ack packet buffer status ch).log ≡ ch.log)
      × ((send_ack packet buffer status ch).delivered ≡ ch.delivered)
send_ack_same packet buffer would_block ch = (refl, refl)
send_ack_same packet buffer conn_refused ch = (refl, refl)
send_ack_same packet buffer ok ch = (refl, refl)

-- A payload is handled to the end, and reaches the callback if its identifier is new.
handle_payload_lem :
    (socket : ℕ → WriteStatus) (packet : Packet) (ch : Reliable)
    → (ch' : Reliable) × (handle_payload_message socket packet ch ≡ some ch')
      × (ch'.delivered ≡ (MrmwSet.insert packet.id ch.delivered).1)
      × (ch'.log ≡ (if MrmwSet.has packet.id ch.delivered then ch.log else ch.log ++ packet ∷ []))
unfolding handle_payload_message MrmwSet.insert MrmwSet.has
handle_payload_lem socket packet ch =
    let ack : AckMessage = record { acks = packet.id ∷ [] } in
    let payload = AckMessage.contents ack ++ slack in
    let numbered : Reliable = record ch {
      delivered = (MrmwSet.insert packet.id ch.delivered).1;
      next_message = (ch.next_message + 1) % 2 ^ 32;
    } in
    let ack_packet = create_packet numbered payload ack_message ch.next_message in
    let answered =
      send_ack ack_packet (Packet.contents ack_packet) (socket numbered.fair_loss.writes)
        numbered in
    let kept =
      send_ack_same ack_packet (Packet.contents ack_packet) (socket numbered.fair_loss.writes)
        numbered in
    (
      (if not (MrmwSet.has packet.id ch.delivered)
          then record answered { log = answered.log ++ packet ∷ [] }
          else answered),
      rw (ack_to_bytes_lem ack (omega arith), to_bytes_lem ack_packet) refl,
      ground (arith, kept),
      ground (arith, kept),
    )

payload-OnceEach :
    (packet : Packet) (ch ch' : Reliable)
    → ch'.delivered ≡ (MrmwSet.insert packet.id ch.delivered).1
    → ch'.log ≡ (if MrmwSet.has packet.id ch.delivered then ch.log else ch.log ++ packet ∷ [])
    → OnceEach ch
    → OnceEach ch'
      × ((id : ℕ)
          → contains id (packet_ids ch'.log)
            ≡ (contains id (packet_ids ch.log) || eqb packet.id id))
unfolding MrmwSet.insert MrmwSet.has contains
payload-OnceEach packet ch ch' delivered log o =
    elim (Bool-cases (contains packet.id ch.delivered)) [
      | inl old ↦
          let same : ch'.log ≡ ch.log = ground arith in
          (
            record {
              same = λ id. ground (arith, contains-insert packet.id id ch.delivered, o.same id);
              once = rw same o.once;
            },
            λ id. ground (arith, o.same packet.id),
          )
      | inr new ↦
          let more : ch'.log ≡ ch.log ++ packet ∷ [] = ground arith in
          (
            record {
              same = λ id. ground (
                arith,
                more,
                packet_ids-append ch.log packet,
                contains-append id (packet_ids ch.log) (packet.id ∷ []),
                contains-insert packet.id id ch.delivered,
                o.same id,
              );
              once =
                  rw (more, packet_ids-append ch.log packet)
                    (Distinct-append (packet_ids ch.log) (packet.id ∷ []) o.once (refl, tt)
                      (λ a h. ground (arith, o.same a)));
            },
            λ id. ground (
              arith,
              more,
              packet_ids-append ch.log packet,
              contains-append id (packet_ids ch.log) (packet.id ∷ []),
            ),
          )
    ]

-- One packet, with what it adds to the identifiers that were delivered.
handle_packet_lem :
    (socket : ℕ → WriteStatus) (packet : Packet) (ch : Reliable)
    → Readable packet
    → OnceEach ch
    → (ch' : Reliable) × (handle_packet socket packet ch ≡ some ch')
      × OnceEach ch'
      × ((id : ℕ)
          → contains id (packet_ids ch'.log)
            ≡ (contains id (packet_ids ch.log) || contains id (payload_ids (packet ∷ []))))
unfolding handle_packet contains
handle_packet_lem socket packet ch (inl payload) o =
    let (ch', done, delivered, log) = handle_payload_lem socket packet ch in
    let (o', ids) = payload-OnceEach packet ch ch' delivered log o in
    (ch', ground (arith, done), o', λ id. ground (arith, ids id))
handle_packet_lem socket packet ch (inr (message, is_ack, read)) o =
    let ch' = handle_acks message.acks ch in
    let (log, delivered) = handle_acks_same message.acks ch in
    (
      ch',
      ground (arith, read),
      record { same = λ id. ground (arith, log, delivered, o.same id); once = rw log o.once },
      λ id. ground (arith, log),
    )

-- Whatever packets arrive, payloads and acknowledgements that can be read, in any order and as often as
-- the network repeats them: they are handled to the end, no identifier reaches the callback twice, and
-- what has reached it is what had before and the payloads that arrived.
pub handle_packets-OnceEach :
    (socket : ℕ → WriteStatus) (packets : List Packet) (ch : Reliable)
    → AllReadable packets
    → OnceEach ch
    → (ch' : Reliable) × (handle_packets socket packets ch ≡ some ch')
      × OnceEach ch'
      × ((id : ℕ)
          → contains id (packet_ids ch'.log)
            ≡ (contains id (packet_ids ch.log) || contains id (payload_ids packets)))
unfolding handle_packets contains
handle_packets-OnceEach socket [] ch readable o = (ch, refl, o, λ id. ground arith)
handle_packets-OnceEach socket (packet ∷ packets) ch readable o =
    let (ch1, done, o1, ids) = handle_packet_lem socket packet ch readable.0 o in
    let (ch', done', o', ids') = handle_packets-OnceEach socket packets ch1 readable.1 o1 in
    (ch', ground (arith, done, done'), o', λ id. ground (arith, ids id, ids' id))

-- Acknowledgements fulfil the promises of the messages that they name and that are pending, and of no
-- others; these messages are pending no longer.
pub handle_acks_lem :
    (acks : List ℕ) (ch : Reliable) (id : ℕ)
    → (contains id (handle_acks acks ch).fulfilled
        ≡ (contains id ch.fulfilled || (contains id acks && MrmwMap.has id ch.message_entries)))
      × (MrmwMap.has id (handle_acks acks ch).message_entries
          ≡ (MrmwMap.has id ch.message_entries && not (contains id acks)))
unfolding handle_acks contains MrmwMap.has MrmwMap.take
handle_acks_lem [] ch id = (ground arith, ground arith)
handle_acks_lem (a ∷ acks) ch id =
    let rest = handle_acks_lem acks (handle_ack a ch) id in
    (
      ground (arith, rest, lookup-erase a id ch.message_entries),
      ground (arith, rest, lookup-erase a id ch.message_entries),
    )
