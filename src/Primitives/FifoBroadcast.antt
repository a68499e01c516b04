-- ===== src/Primitives/FifoBroadcast.antt =====
-- include/primitives/fifo_broadcast.hpp: `FIFOBroadcast` over `UniformReliableBroadcast`. A promise is
-- the identifier of its message. `fulfilled` records the promises that have their value, `log` the
-- calls of `Deliver`, whose peer and message go to the callback.
pub mod Pending
pub mod Peers
pub mod Order
pub mod Stack
pub mod Runs
mod Tests
use broadcast_service.Base.{
  ℕ, ◌+◌, ◌%◌, ◌^◌, ◌≡◌, List, [], ◌∷◌, ◌++◌, Bool, true, false, Option, none, some, ◌>>=◌,
  if◌then◌else◌, eqb, ltb, nat_eq,
}
use broadcast_service.Transport.Bytes.{Bytes}
use broadcast_service.Util.Dict
use broadcast_service.Concurrency.MrmwMap
use broadcast_service.Primitives.UniformReliableBroadcast.State.{
  UrbIdentifier, Urb, clean_delivered_prefix, init as urb_init,
}
use broadcast_service.Primitives.UniformReliableBroadcast.Handler as Urb_handler

pub record Delivered : Type 0 where
  pub peer : ℕ
  pub id : ℕ
  pub message : Bytes

pub record Fifo : Type 0 where
  pub urb : Urb
  pub local_id : ℕ
  pub pendings : List (ℕ × List (ℕ × Bytes))
  pub next_ids : List (ℕ × ℕ)
  pub entries : List (ℕ × ℕ)  -- `broadcast_message_entries_`
  pub fulfilled : List ℕ
  pub log : List Delivered

-- `next_ids_[peer]`
unfoldable pub next_of : ℕ → Fifo → ℕ
next_of peer fifo = elim (Dict.lookup peer fifo.next_ids) [ none ↦ 0 | some id ↦ id ]

-- `pendings_[peer]`, in the order of the identifiers.
unfoldable pub pending_of : ℕ → Fifo → List (ℕ × Bytes)
pending_of peer fifo = elim (Dict.lookup peer fifo.pendings) [ none ↦ [] | some pending ↦ pending ]

-- `std::map::emplace`: an entry that is there stays.
unfoldable pub emplace : ℕ → Bytes → List (ℕ × Bytes) → List (ℕ × Bytes)
emplace id message [] = (id, message) ∷ []
emplace id message ((k, m) ∷ pending) =
    if ltb id k
    then (id, message) ∷ (k, m) ∷ pending
    else if eqb id k
    then (k, m) ∷ pending
    else (k, m) ∷ emplace id message pending

abbrev pub fulfil : ℕ → Fifo → Fifo
fulfil id fifo =
    let (promise, entries) = MrmwMap.take id fifo.entries in
    elim promise [
      | none ↦ record fifo { entries = entries }
      | some p ↦ record fifo { entries = entries; fulfilled = p ∷ fifo.fulfilled }
    ]

unfoldable pub deliver : ℕ → ℕ → Bytes → Fifo → Fifo
deliver peer id message fifo =
    let cleaned = record fifo { urb = clean_delivered_prefix peer id fifo.urb } in
    let resolved = if eqb peer fifo.local_id then fulfil id cleaned else cleaned in
    record resolved {
      log = resolved.log ++ record { peer = peer; id = id; message = message } ∷ [];
    }

-- `++next_ids_[peer]`
abbrev pub advance : ℕ → Fifo → Fifo
advance peer fifo = record fifo {
  next_ids = Dict.assign peer ((next_of peer fifo + 1) % 2 ^ 32) fifo.next_ids;
}

-- The `while` loop over the pending messages of a peer. When none is left it still compares the key at
-- `end()`, which the language does not define: that key is `end_key`, and to go on from there is
-- a fault.
unfoldable pub flush : ℕ → ℕ → List (ℕ × Bytes) → Fifo → Option Fifo
flush end_key peer [] fifo = if eqb (next_of peer fifo) end_key then none else some fifo
flush end_key peer ((k, m) ∷ pending) fifo =
    let rest = flush end_key peer pending (
      deliver peer k m
        (record (advance peer fifo) { pendings = Dict.assign peer pending fifo.pendings })) in
    if eqb (next_of peer fifo) k then rest else some fifo

abbrev pub admit : UrbIdentifier → Bytes → Fifo → Fifo
admit id message fifo =
    if eqb (next_of id.peer fifo) id.urb_id
    then deliver id.peer id.urb_id message (advance id.peer fifo)
    else record fifo {
      pendings =
          Dict.assign id.peer (emplace id.urb_id message (pending_of id.peer fifo)) fifo.pendings;
    }

-- `GetUniformReliableBroadcastCallback`
unfoldable pub on_delivery : ℕ → UrbIdentifier → Bytes → Fifo → Option Fifo
on_delivery end_key id message fifo =
    let admitted = admit id message fifo in
    flush end_key id.peer (pending_of id.peer admitted) admitted

abbrev pub hand_on : ℕ → Fifo → Option (Urb × Urb_handler.Delivery) → Option Fifo
hand_on end_key fifo none = none
hand_on end_key fifo (some (urb, none)) = some (record fifo { urb = urb })
hand_on end_key fifo (some (urb, some (id, message))) =
    on_delivery end_key id message (record fifo { urb = urb })

-- `GetReliableTransportCallback`: the transport's messages go through the best-effort broadcast and
-- the reliable broadcast, whose deliveries come back.
unfoldable pub on_message : ℕ → Bytes → Fifo → Option Fifo
on_message end_key bytes fifo = hand_on end_key fifo (Urb_handler.on_message bytes fifo.urb)

-- The future that is returned is that of the message's identifier.
unfoldable pub broadcast : Bytes → Fifo → Option (ℕ × Fifo)
broadcast message fifo = do
  let (id, urb) = Urb_handler.get_next_id fifo.urb
  urb' ← Urb_handler.broadcast message id urb
  some (id, record fifo { urb = urb'; entries = MrmwMap.set id id fifo.entries })

-- What drives the broadcast: a packet arrives, or the application broadcasts.
pub data Event : Type 0 where
  arrives : Bytes → Event
  sends : Bytes → Event

unfoldable pub handle : ℕ → Event → Fifo → Option Fifo
handle end_key (arrives bytes) fifo = on_message end_key bytes fifo
handle end_key (sends message) fifo = do (future, fifo') ← broadcast message fifo; some fifo'

unfoldable pub run : ℕ → List Event → Fifo → Option Fifo
run end_key [] fifo = some fifo
run end_key (event ∷ events) fifo = do fifo' ← handle end_key event fifo; run end_key events fifo'

-- The constructor, over a table of hosts.
abbrev pub init : ℕ → List ℕ → Fifo
init local_id peers = record {
  urb = urb_init local_id peers;
  local_id = local_id;
  pendings = [];
  next_ids = [];
  entries = [];
  fulfilled = [];
  log = [];
}
