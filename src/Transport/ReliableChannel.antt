-- ===== src/Transport/ReliableChannel.antt =====
-- include/io/transport/reliable_channel.hpp: `ReliableChannel`. A promise is the identifier of its
-- message; `fulfilled` and `failed` record the promises that have their value or an error, `log` the
-- packets that went to the callback, and `timers` and `cancelled` the calls of the timer service, whose
-- next identifier is `next_timer`. Identifiers of messages come from the `UniqueID` of the process.
pub mod Once
use broadcast_service.Base.{
  ℕ, ◌+◌, ◌%◌, ◌^◌, List, [], ◌∷◌, ◌++◌, map, Bool, true, false, Option, none, some, ◌>>=◌,
  if◌then◌else◌, eqb, nat_eq,
}
use broadcast_service.Concurrency.MrmwMap
use broadcast_service.Concurrency.MrmwSet
use broadcast_service.Transport.Bytes.{Bytes}
use broadcast_service.Transport.Packet
use broadcast_service.Transport.Packet.{Packet, ack_message, payload_message}
use broadcast_service.Transport.AckMessage
use broadcast_service.Transport.AckMessage.{AckMessage}
use broadcast_service.Transport.FairLossChannel.{
  FairLoss, WriteStatus, would_block, conn_refused, ok, send as fair_loss_send,
  stop as fair_loss_stop, add_send_credits,
}

-- The promise of an entry is the key that it stands under.
pub record MessageEntry : Type 0 where
  pub timer_id : ℕ
  pub credits : ℕ

pub record Reliable : Type 0 where
  pub local_id : ℕ
  pub fair_loss : FairLoss
  pub message_entries : List (ℕ × MessageEntry)
  pub delivered : List ℕ
  pub next_message : ℕ
  pub next_timer : ℕ
  pub timers : List (ℕ × Packet)
  pub cancelled : List ℕ
  pub fulfilled : List ℕ
  pub failed : List ℕ
  pub log : List Packet

abbrev pub create_packet : Reliable → Bytes → ℕ → ℕ → Packet
create_packet ch payload type id = record {
  type = type;
  id = id;
  source = ch.local_id;
  message = payload;
}

abbrev pub do_send : Packet → Reliable → Reliable
do_send packet ch = record ch { fair_loss = fair_loss_send packet ch.fair_loss }

-- `UniqueID::Get`, on uint32_t.
abbrev pub take_message_id : Reliable → ℕ × Reliable
take_message_id ch = (ch.next_message, record ch { next_message = (ch.next_message + 1) % 2 ^ 32 })

-- `Send`: the future that is returned is that of the message's identifier.
unfoldable pub send : Bytes → Reliable → ℕ × Reliable
send message ch =
    let (id, ch1) = take_message_id ch in
    let packet = create_packet ch1 message payload_message id in
    (
      id,
      do_send packet (record ch1 {
        next_timer = (ch1.next_timer + 1) % 2 ^ 64;
        message_entries =
            MrmwMap.set id (record { timer_id = ch1.next_timer; credits = 1 }) ch1.message_entries;
        timers = (ch1.next_timer, packet) ∷ ch1.timers;
      }),
    )

-- `GetBackoffRetryCallback`, which the timer of a message calls.
unfoldable pub on_retry : Packet → Reliable → Reliable
on_retry packet ch = do_send packet (record ch { fair_loss = add_send_credits 1 ch.fair_loss })

abbrev pub settle : ℕ → MessageEntry → Reliable → Reliable
settle id entry ch = record ch {
  cancelled = entry.timer_id ∷ ch.cancelled;
  fair_loss = add_send_credits entry.credits ch.fair_loss;
  fulfilled = id ∷ ch.fulfilled;
}

abbrev pub handle_ack : ℕ → Reliable → Reliable
handle_ack id ch =
    let (entry, entries) = MrmwMap.take id ch.message_entries in
    elim entry [
      | none ↦ record ch { message_entries = entries }
      | some e ↦ settle id e (record ch { message_entries = entries })
    ]

-- The loop of `HandleAckMessage`.
unfoldable pub handle_acks : List ℕ → Reliable → Reliable
handle_acks [] ch = ch
handle_acks (id ∷ acks) ch = handle_acks acks (handle_ack id ch)

-- The acknowledgement is written to the socket at once; if that fails it goes to the queue.
abbrev pub send_ack : Packet → Bytes → WriteStatus → Reliable → Reliable
send_ack ack_packet buffer ok ch = record ch {
  fair_loss = record ch.fair_loss {
    writes = ch.fair_loss.writes + 1;
    written = ch.fair_loss.written ++ buffer ∷ [];
  };
}
send_ack ack_packet buffer would_block ch =
    do_send ack_packet
      (record ch { fair_loss = record ch.fair_loss { writes = ch.fair_loss.writes + 1 } })
send_ack ack_packet buffer conn_refused ch =
    do_send ack_packet
      (record ch { fair_loss = record ch.fair_loss { writes = ch.fair_loss.writes + 1 } })

-- `HandlePayloadMessage`; the status of the n-th write to the socket is `socket n`.
unfoldable pub handle_payload_message : (ℕ → WriteStatus) → Packet → Reliable → Option Reliable
handle_payload_message socket packet ch = do
  let (not_delivered, delivered) = MrmwSet.insert packet.id ch.delivered
  ack_payload ← AckMessage.to_bytes (record { acks = packet.id ∷ [] })
  let (ack_id, numbered) = take_message_id (record ch { delivered = delivered })
  let ack_packet = create_packet numbered ack_payload ack_message ack_id
  buffer ← Packet.to_bytes ack_packet
  let answered = send_ack ack_packet buffer (socket numbered.fair_loss.writes) numbered
  some (if not_delivered then record answered { log = answered.log ++ packet ∷ [] } else answered)

-- `HandlePacket`: a packet of another type ends the process.
unfoldable pub handle_packet : (ℕ → WriteStatus) → Packet → Reliable → Option Reliable
handle_packet socket packet ch =
    if eqb packet.type ack_message
    then (do message ← AckMessage.unmarshal packet.message; some (handle_acks message.acks ch))
    else if eqb packet.type payload_message
    then handle_payload_message socket packet ch
    else none

-- The packets that arrive, one after the other.
unfoldable pub handle_packets : (ℕ → WriteStatus) → List Packet → Reliable → Option Reliable
handle_packets socket [] ch = some ch
handle_packets socket (packet ∷ packets) ch = do
  ch' ← handle_packet socket packet ch
  handle_packets socket packets ch'

-- `Stop`: what is pending fails.
unfoldable pub stop : Reliable → Reliable
stop ch = record ch {
  fair_loss = fair_loss_stop ch.fair_loss;
  cancelled = map (λ entry. entry.timer_id) (MrmwMap.drain ch.message_entries) ++ ch.cancelled;
  failed = map (λ entry. entry.0) ch.message_entries ++ ch.failed;
}
