-- ===== src/Transport/ReliableTransport.antt =====
-- include/io/transport/reliable_transport.hpp: `ReliableTransport`, with the constructors of the channels.
-- `batched` is the messages that the packet batcher has been given, each with its source. The
-- identifiers of messages and timers are the process's; a channel uses the next ones.
pub mod Routing
mod Tests
use broadcast_service.Base.{
  ℕ, Bool, true, false, Option, none, some, List, [], ◌∷◌, ◌++◌, nat_eq, ◌==◌, if◌then◌else◌,
  is_some, map, ◌>>=◌,
}
use broadcast_service.Util.Dict
use broadcast_service.Concurrency.Budget
use broadcast_service.Hosts.HostsTable
use broadcast_service.Hosts.HostsTable.{HostsTable}
use broadcast_service.Transport.Bytes.{Bytes}
use broadcast_service.Transport.Packet.{Packet}
use broadcast_service.Transport.RetryPolicy.{RetryPolicy}
use broadcast_service.Transport.FairLossChannel.{FairLoss}
use broadcast_service.Transport.ReliableChannel
use broadcast_service.Transport.ReliableChannel.{Reliable}

pub record ReliableTransport : Type 0 where
  pub hosts : HostsTable
  pub channels : List (ℕ × Reliable)
  pub max_send_budget : ℕ
  pub error_policy : RetryPolicy
  pub empty_write_policy : RetryPolicy
  pub next_message : ℕ
  pub next_timer : ℕ
  pub batched : List (ℕ × Bytes)

unfoldable pub new_fair_loss : ReliableTransport → FairLoss
new_fair_loss t = record {
  outgoing_packets = [];
  outgoing_message_ids = [];
  send_budget = Budget.init t.max_send_budget t.max_send_budget;
  error_policy = t.error_policy;
  empty_write_policy = t.empty_write_policy;
  read_error_policy = t.error_policy;
  writes = 0;
  written = [];
  armed = [];
}

unfoldable pub new_channel : ReliableTransport → Reliable
new_channel t = record {
  local_id = t.hosts.local_id;
  fair_loss = new_fair_loss t;
  message_entries = [];
  delivered = [];
  next_message = t.next_message;
  next_timer = t.next_timer;
  timers = [];
  cancelled = [];
  fulfilled = [];
  failed = [];
  log = [];
}

-- The loop of `Start`: each peer's address is looked up, and a channel that is there already fails
-- the assertion. The sockets and their events are the system's.
unfoldable pub add_channels : List ℕ → ReliableTransport → Option ReliableTransport
add_channels [] t = some t
add_channels (peer ∷ peers) t =
    let added = record t { channels = Dict.emplace peer (new_channel t) t.channels } in
    let rest = add_channels peers added in
    if is_some (HostsTable.resolve peer t.hosts)
    then if is_some (Dict.lookup peer t.channels) then none else rest
    else none

unfoldable pub start : ReliableTransport → Option ReliableTransport
start t = add_channels (HostsTable.get_peers t.hosts) t

unfoldable pub stop_all : List (ℕ × Reliable) → List (ℕ × Reliable)
stop_all [] = []
stop_all ((peer, channel) ∷ channels) = (peer, ReliableChannel.stop channel) ∷ stop_all channels

unfoldable pub stop : ReliableTransport → ReliableTransport
stop t = record t { channels = stop_all t.channels }

unfoldable pub add_packet : ℕ → Bytes → ReliableTransport → ReliableTransport
add_packet source message t = record t { batched = t.batched ++ (source, message) ∷ [] }

unfoldable pub send_local : Bytes → ReliableTransport → ReliableTransport
send_local message t = add_packet t.hosts.local_id message t

-- The send on a peer's channel, with the identifier of the promise.
unfoldable pub send_on :
    ℕ → Bytes → ReliableTransport → Option Reliable → Option (Option ℕ × ReliableTransport)
send_on peer message t none = none
send_on peer message t (some channel) =
    let ready : Reliable = record channel {
      next_message = t.next_message;
      next_timer = t.next_timer;
    } in
    let sent = ReliableChannel.send message ready in
    some (
      some sent.0,
      record t {
        channels = Dict.assign peer sent.1 t.channels;
        next_message = sent.1.next_message;
        next_timer = sent.1.next_timer;
      },
    )

-- `Send`: no identifier stands for the future that has its value. `channels_.at` throws on a missing
-- channel: `none`.
unfoldable pub send : ℕ → Bytes → ReliableTransport → Option (Option ℕ × ReliableTransport)
send peer message t =
    if peer == t.hosts.local_id
    then some (none, send_local message t)
    else send_on peer message t (Dict.lookup peer t.channels)

-- The callback of a peer's channel: whatever the source, the packet is passed on.
unfoldable pub on_packet : ℕ → Packet → ReliableTransport → ReliableTransport
on_packet peer packet t = add_packet packet.source packet.message t
