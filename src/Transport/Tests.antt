-- ===== src/Transport/Tests.antt =====
-- A packet and an acknowledgement, stored and read back; a channel that writes and receives.
use broadcast_service.Base.{◌+◌, ◌*◌, ◌≡◌, ◌++◌, [], ◌∷◌, some, arith, length}
use broadcast_service.Transport.Bytes.{Bytes}
use broadcast_service.Transport.Packet
use broadcast_service.Transport.Packet.{Packet}
use broadcast_service.Transport.Packet.RoundTrip.{packet_round_trip}
use broadcast_service.Transport.AckMessage
use broadcast_service.Transport.AckMessage.{AckMessage}
use broadcast_service.Transport.AckMessage.RoundTrip.{slack, acknowledgement_round_trip}
use broadcast_service.Base.{
  ℕ, ◌&&◌, ◌||◌, not, refl, inl, contains, if◌then◌else◌, nat_eq, List, eqb,
}
use broadcast_service.Concurrency.MrmwMap
use broadcast_service.Concurrency.MrmwSet
use broadcast_service.Concurrency.TaskQueue.{try_pop_all, push_front_all}
use broadcast_service.Transport.RetryPolicy
use broadcast_service.Transport.FairLossChannel.{
  FairLoss, WriteStatus, ok, would_block, handle_write,
}
use broadcast_service.Transport.FairLossChannel.Writing.{
  WroteEvent, handle_write-WroteEvent, packet_ids,
}
use broadcast_service.Transport.FairLossChannel.Queueing.{Tracked}
use broadcast_service.Transport.ReliableChannel.{Reliable, handle_packets, handle_acks}
use broadcast_service.Transport.ReliableChannel.Once.{
  OnceEach, AllReadable, payload_ids, handle_packets-OnceEach, handle_acks_lem,
}

abbrev packet : Packet
packet = record { type = Packet.payload_message; id = 70000; source = 3; message = 1 ∷ 2 ∷ [] }

packet_round_trip_example :
    (buffer : Bytes) × (Packet.to_bytes packet ≡ some buffer)
    × (length buffer ≡ Packet.size packet)
    × (Packet.unmarshal buffer ≡ some packet)
packet_round_trip_example =
    packet_round_trip packet (record { type = omega arith; id = omega arith; source = omega arith })

abbrev acknowledgement : AckMessage
acknowledgement = record { acks = 70000 ∷ 3 ∷ [] }

acknowledgement_round_trip_example :
    (buffer : Bytes) × (AckMessage.to_bytes acknowledgement ≡ some (buffer ++ slack))
    × (length buffer ≡ 1 + 4 * length acknowledgement.acks)
    × (AckMessage.unmarshal (buffer ++ slack) ≡ some acknowledgement)
acknowledgement_round_trip_example =
    acknowledgement_round_trip acknowledgement (record { few = omega arith; acks = ground arith })

abbrev second : Packet
second = record { type = Packet.payload_message; id = 8; source = 3; message = 4 ∷ [] }

-- A channel with one packet in its queue, and a budget for one.
abbrev channel : FairLoss
channel = record {
  outgoing_packets = packet ∷ [];
  outgoing_message_ids = 70000 ∷ [];
  send_budget = record { counter = 1; max_budget = 10 };
  error_policy = RetryPolicy.init 10 100;
  empty_write_policy = RetryPolicy.init 10 100;
  read_error_policy = RetryPolicy.init 10 100;
  writes = 0;
  written = [];
  armed = [];
}

-- The socket takes the first packet only.
abbrev socket : ℕ → WriteStatus
socket n = if eqb n 0 then ok else would_block

handle_write-WroteEvent_example :
    (ch' : FairLoss) × (sent : List Packet) × (handle_write (λ t. 2 * t) socket channel ≡ some ch')
    × WroteEvent channel ch' sent
handle_write-WroteEvent_example =
    handle_write-WroteEvent (λ t. 2 * t) socket channel (omega arith) (omega arith)

channel-Tracked : Tracked channel
unfolding try_pop_all push_front_all MrmwSet.has contains
channel-Tracked = record { registered = λ id. refl; once = (refl, tt) }

abbrev written_after : FairLoss
written_after = handle_write-WroteEvent_example.0

abbrev reliable : Reliable
reliable = record {
  local_id = 1;
  fair_loss = channel;
  message_entries =
      (4, record { timer_id = 0; credits = 1 }) ∷ (5, record { timer_id = 1; credits = 1 }) ∷ [];
  delivered = [];
  next_message = 6;
  next_timer = 2;
  timers = [];
  cancelled = [];
  fulfilled = [];
  failed = [];
  log = [];
}

-- The same payload twice, with another between.
abbrev arrivals : List Packet
arrivals = packet ∷ second ∷ packet ∷ []

reliable-OnceEach : OnceEach reliable
unfolding MrmwSet.has contains
reliable-OnceEach = record { same = λ id. refl; once = tt }

arrivals_readable : AllReadable arrivals
arrivals_readable = (inl refl, (inl refl, (inl refl, tt)))

handle_packets-OnceEach_example :
    (ch' : Reliable) × (handle_packets socket arrivals reliable ≡ some ch')
    × OnceEach ch'
    × ((id : ℕ)
        → contains id (packet_ids ch'.log)
          ≡ (contains id (packet_ids reliable.log) || contains id (payload_ids arrivals)))
handle_packets-OnceEach_example =
    handle_packets-OnceEach socket arrivals reliable arrivals_readable reliable-OnceEach

abbrev acks : List ℕ
acks = 4 ∷ 9 ∷ 4 ∷ []

handle_acks_lem_example :
    (contains 4 (handle_acks acks reliable).fulfilled ≡ (
      contains 4 reliable.fulfilled || (contains 4 acks && MrmwMap.has 4 reliable.message_entries)))
    × (MrmwMap.has 4 (handle_acks acks reliable).message_entries
        ≡ (MrmwMap.has 4 reliable.message_entries && not (contains 4 acks)))
handle_acks_lem_example = handle_acks_lem acks reliable 4
