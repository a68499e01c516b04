-- ===== src/Transport/FairLossChannel.antt =====
-- include/io/transport/fairloss_channel.hpp: `FairLossChannel`, its queue of outgoing packets, the
-- handler that writes them to the socket and the one that reads from it; include/io/retryable_handler.hpp,
-- through which the handlers ask for their next event. The status of the n-th write is `socket n`.
pub mod Writing
pub mod Queueing
use broadcast_service.Base.{
  ℕ, ◌+◌, ◌-◌, List, [], ◌∷◌, ◌++◌, Bool, true, false, ◌&&◌, Option, none, some, ◌>>=◌, length,
  if◌then◌else◌, eqb, leb, ltb, nat_eq,
}
use broadcast_service.Concurrency.Budget
use broadcast_service.Concurrency.Budget.{Budget}
use broadcast_service.Concurrency.MrmwSet
use broadcast_service.Concurrency.TaskQueue.{push, push_all, try_pop_all}
use broadcast_service.Transport.Bytes.{Bytes}
use broadcast_service.Transport.Packet
use broadcast_service.Transport.Packet.{Packet, payload_message}
use broadcast_service.Transport.RetryPolicy
use broadcast_service.Transport.RetryPolicy.{RetryPolicy, is_valid, next, reset}

pub data WriteStatus : Type 0 where
  would_block : WriteStatus
  conn_refused : WriteStatus
  ok : WriteStatus

-- How a handler asks for its next event: at once, or after a timeout.
pub data Rearm : Type 0 where
  now : Rearm
  after : ℕ → Rearm

pub record FairLoss : Type 0 where
  pub outgoing_packets : List Packet
  pub outgoing_message_ids : List ℕ
  pub send_budget : Budget
  pub error_policy : RetryPolicy  -- of the write handler
  pub empty_write_policy : RetryPolicy
  pub read_error_policy : RetryPolicy  -- of the read handler
  pub writes : ℕ
  pub written : List Bytes
  pub armed : List Rearm

abbrev pub outgoing_message_cap : ℕ
outgoing_message_cap = 20000

-- A packet is dropped if there are too many, or one with its identifier is already there.
unfoldable pub send : Packet → FairLoss → FairLoss
send packet ch =
    let (is_new, ids) = MrmwSet.insert packet.id ch.outgoing_message_ids in
    if leb outgoing_message_cap (MrmwSet.estimate_size ch.outgoing_message_ids)
    then ch
    else if is_new
    then record ch {
      outgoing_message_ids = ids;
      outgoing_packets = push packet ch.outgoing_packets;
    }
    else ch

abbrev pub add_send_credits : ℕ → FairLoss → FairLoss
add_send_credits credits ch = record ch { send_budget = Budget.top_up credits ch.send_budget }

-- `Retry`: the handler's next event, if the policy still allows one, and the policy for the next time.
unfoldable pub retry : (ℕ → ℕ) → RetryPolicy → List Rearm → RetryPolicy × List Rearm
retry backoff policy armed =
    if is_valid policy
    then (next backoff policy, armed ++ after policy.timeout ∷ [])
    else (policy, armed)

-- What the loop over a batch of packets changes.
pub record WriteLoop : Type 0 where
  pub budget : ℕ
  pub writes : ℕ
  pub ids : List ℕ
  pub written : List Bytes
  pub status : WriteStatus

abbrev pub cost : Packet → ℕ
cost packet = if eqb packet.type payload_message then 1 else 0

abbrev pub sent_one : Packet → Bytes → WriteLoop → WriteLoop
sent_one packet buffer w = record w {
  budget = w.budget - cost packet;
  writes = w.writes + 1;
  ids = MrmwSet.delete packet.id w.ids;
  written = w.written ++ buffer ∷ [];
  status = ok;
}

-- The loop stops at a payload that exceeds the budget and at a write that fails; the packets that are
-- left come back.
unfoldable pub write_batch :
    (ℕ → WriteStatus) → List Packet → WriteLoop → Option (List Packet × WriteLoop)
write_batch socket [] w = some ([], w)
write_batch socket (packet ∷ batch) w =
    if ltb w.budget (cost packet) then some (packet ∷ batch, w) else (do
      buffer ← Packet.to_bytes packet
      let rest = write_batch socket batch (sent_one packet buffer w)
      elim (socket w.writes) [
        | would_block ↦
            some (packet ∷ batch, record w { writes = w.writes + 1; status = would_block })
        | conn_refused ↦
            some (packet ∷ batch, record w { writes = w.writes + 1; status = conn_refused })
        | ok ↦ rest
      ])

abbrev pub rearm_write : (ℕ → ℕ) → WriteStatus → FairLoss → FairLoss
rearm_write backoff conn_refused ch =
    let (policy, armed) = retry backoff ch.error_policy ch.armed in
    record ch { error_policy = policy; armed = armed }
rearm_write backoff would_block ch = record ch {
  error_policy = reset ch.error_policy;
  armed = ch.armed ++ now ∷ [];
}
rearm_write backoff ok ch = record ch {
  error_policy = reset ch.error_policy;
  armed = ch.armed ++ now ∷ [];
}

abbrev pub reschedule_empty : (ℕ → ℕ) → FairLoss → FairLoss
reschedule_empty backoff ch =
    let (policy, armed) = retry backoff ch.empty_write_policy ch.armed in
    record ch { empty_write_policy = policy; armed = armed }

-- The packets that are left go back to the queue, and the budget that is left to the budget.
abbrev pub finish_write : FairLoss → List Packet → WriteLoop → FairLoss
finish_write ch batch w = record ch {
  outgoing_packets = push_all batch ch.outgoing_packets;
  outgoing_message_ids = w.ids;
  send_budget = if ltb 0 w.budget then Budget.top_up w.budget ch.send_budget else ch.send_budget;
  writes = w.writes;
  written = w.written;
}

abbrev pub start_write : ℕ → FairLoss → WriteLoop
start_write budget ch = record {
  budget = budget;
  writes = ch.writes;
  ids = ch.outgoing_message_ids;
  written = ch.written;
  status = conn_refused;
}

-- The rest of the handler, for a batch that was popped and a budget that was taken.
unfoldable pub write_popped :
    (ℕ → ℕ) → (ℕ → WriteStatus) → ℕ → List Packet → FairLoss → Option FairLoss
write_popped backoff socket budget [] ch =
    some
      (reschedule_empty backoff (record ch { send_budget = Budget.top_up budget ch.send_budget }))
write_popped backoff socket budget (packet ∷ batch) ch = do
  let opened = record ch { empty_write_policy = reset ch.empty_write_policy }
  (rest, w) ← write_batch socket (packet ∷ batch) (start_write budget opened)
  some (rearm_write backoff w.status (finish_write opened rest w))

-- `WriteEventHandler::Handle` for `kWriteReady`.
unfoldable pub handle_write : (ℕ → ℕ) → (ℕ → WriteStatus) → FairLoss → Option FairLoss
handle_write backoff socket ch =
    let (budget, left) = Budget.credit_all ch.send_budget in
    let credited = record ch { send_budget = left } in
    let (batch, queue) = try_pop_all ch.outgoing_packets in
    if eqb budget 0
    then some (reschedule_empty backoff credited)
    else write_popped backoff socket budget batch (record credited { outgoing_packets = queue })

-- `WriteEventHandler::Handle` for `kError`.
unfoldable pub handle_write_error : (ℕ → ℕ) → FairLoss → FairLoss
handle_write_error backoff ch =
    let (policy, armed) = retry backoff ch.error_policy ch.armed in
    record ch { error_policy = policy; armed = armed }

-- The loop of the read handler, over the datagrams that can be read before it would block: an empty one
-- is passed over.
unfoldable pub read_packets : List Bytes → Option (List Packet)
read_packets [] = some []
read_packets ([] ∷ datagrams) = read_packets datagrams
read_packets ((b ∷ bytes) ∷ datagrams) = do
  packet ← Packet.unmarshal (b ∷ bytes)
  packets ← read_packets datagrams
  some (packet ∷ packets)

-- `ReadEventHandler::Handle` for `kReadReady`: the packets go to the callback.
unfoldable pub handle_read : List Bytes → FairLoss → Option (List Packet × FairLoss)
handle_read datagrams ch = do
  packets ← read_packets datagrams
  some (
    packets,
    record ch { read_error_policy = reset ch.read_error_policy; armed = ch.armed ++ now ∷ [] },
  )

-- `ReadEventHandler::Handle` for `kError`.
unfoldable pub handle_read_error : (ℕ → ℕ) → FairLoss → FairLoss
handle_read_error backoff ch =
    let (policy, armed) = retry backoff ch.read_error_policy ch.armed in
    record ch { read_error_policy = policy; armed = armed }

-- `Stop` destroys the packets that are left; their identifiers stay.
unfoldable pub stop : FairLoss → FairLoss
stop ch = record ch { outgoing_packets = (try_pop_all ch.outgoing_packets).1 }
