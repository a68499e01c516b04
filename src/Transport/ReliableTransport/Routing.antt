-- ===== src/Transport/ReliableTransport/Routing.antt =====
-- Which channel a message takes.
use broadcast_service.Base.{
  ℕ, ◌+◌, ◌%◌, ◌^◌, ◌≡◌, ◌≢◌, refl, sym, ap, subst, inl, inr, true, ◌||◌, Option, none, some, List,
  [], ◌∷◌, ◌++◌, arith, nat_eq, ◌==◌, contains, is_some, All, Distinct, Bool-cases, Option-cases,
}
use broadcast_service.Util.Dict
use broadcast_service.Hosts.HostsTable
use broadcast_service.Hosts.HostsTable.{HostsTable}
use broadcast_service.Transport.Bytes.{Bytes}
use broadcast_service.Transport.ReliableChannel
use broadcast_service.Transport.ReliableChannel.{Reliable}
use broadcast_service.Transport.ReliableTransport.{
  ReliableTransport, new_channel, add_channels, start, add_packet, send_local, send_on, send,
}

-- Each of the peers has an address.
abbrev pub Resolved : HostsTable → List ℕ → Type 0
Resolved hosts peers = All (λ peer. is_some (HostsTable.resolve peer hosts) ≡ true) peers

-- None of the peers has a channel.
abbrev pub Unconnected : List (ℕ × Reliable) → List ℕ → Type 0
Unconnected channels peers = (k : ℕ) → contains k peers ≡ true → Dict.lookup k channels ≡ none

add_channels_lem :
    (peers : List ℕ) (t : ReliableTransport)
    → Distinct peers
    → Resolved t.hosts peers
    → Unconnected t.channels peers
    → (u : ReliableTransport) × (add_channels peers t ≡ some u)
      × (u.hosts ≡ t.hosts)
      × ((k : ℕ)
          → is_some (Dict.lookup k u.channels)
            ≡ (contains k peers || is_some (Dict.lookup k t.channels)))
unfolding add_channels contains
add_channels_lem [] t d r c = (t, refl, refl, λ k. refl)
add_channels_lem (peer ∷ peers) t d r c =
    let added = record t { channels = Dict.emplace peer (new_channel t) t.channels } in
    let new : Dict.lookup peer t.channels ≡ none = c peer (ground arith) in
    let rest = add_channels_lem peers added d.1 r.1 (λ k m.
      ground (arith, new, d.0, c k, Dict.lookup-emplace peer k (new_channel t) t.channels)) in
    (
      rest.0,
      ground (arith, r.0, new, rest.1),
      rest.2,
      λ k. ground (arith, new, rest.3 k, Dict.lookup-emplace peer k (new_channel t) t.channels),
    )

lookup_nothing : (k : ℕ) → Dict.lookup {V = Reliable} k [] ≡ none
unfolding Dict.lookup
lookup_nothing k = refl

-- What a send has done: a message for the process itself goes to the batcher, under its own id, and
-- the channels stay; another goes on its peer's channel, and the other channels stay.
abbrev pub Routed : ℕ → Bytes → ReliableTransport → Option ℕ × ReliableTransport → Type 0
Routed peer message t (none, u) =
    (peer ≡ t.hosts.local_id)
    × (u.batched ≡ t.batched ++ (peer, message) ∷ [])
    × (u.channels ≡ t.channels)
Routed peer message t (some id, u) =
    (peer ≢ t.hosts.local_id)
    × (id ≡ t.next_message)
    × (u.next_message ≡ (t.next_message + 1) % 2 ^ 32)
    × (u.batched ≡ t.batched)
    × ((channel : Reliable)
        → Dict.lookup peer t.channels ≡ some channel
        → Dict.lookup peer u.channels
          ≡ some
              (ReliableChannel.send message
                (record channel { next_message = t.next_message; next_timer = t.next_timer })).1)
    × ((k : ℕ) → k ≢ peer → Dict.lookup k u.channels ≡ Dict.lookup k t.channels)

send_known :
    (peer : ℕ) (message : Bytes) (t : ReliableTransport) (channel : Reliable)
    → peer ≢ t.hosts.local_id
    → Dict.lookup peer t.channels ≡ some channel
    → (r : Option ℕ × ReliableTransport) × (send peer message t ≡ some r) × Routed peer message t r
unfolding send send_on ReliableChannel.send
send_known peer message t channel other found =
    let ready : Reliable = record channel {
      next_message = t.next_message;
      next_timer = t.next_timer;
    } in
    let sent = ReliableChannel.send message ready in
    let u : ReliableTransport = record t {
      channels = Dict.assign peer sent.1 t.channels;
      next_message = sent.1.next_message;
      next_timer = sent.1.next_timer;
    } in
    (
      (some t.next_message, u),
      ground (arith, found),
      (
        other,
        refl,
        refl,
        refl,
        (λ c e. ground (arith, found, e, Dict.lookup-assign peer peer sent.1 t.channels)),
        (λ k ne. ground (arith, Dict.lookup-assign peer k sent.1 t.channels)),
      ),
    )

send-Routed :
    (peer : ℕ) (message : Bytes) (t : ReliableTransport)
    → ((peer == t.hosts.local_id) || is_some (Dict.lookup peer t.channels)) ≡ true
    → (r : Option ℕ × ReliableTransport) × (send peer message t ≡ some r) × Routed peer message t r
unfolding send send_local add_packet
send-Routed peer message t known = elim (Bool-cases (peer == t.hosts.local_id)) [
  | inl local ↦ ((none, send_local message t), ground arith, (ground arith, ground arith, refl))
  | inr other ↦ elim (Option-cases (Dict.lookup peer t.channels)) [
    | inl missing ↦ absurd (ground arith)
    | inr (channel, found) ↦ send_known peer message t channel (ground arith) found
  ]
]

-- Once a transport without channels has been started, with a table whose peers are distinct and have
-- addresses, a message for the process itself or for a peer is sent: the former goes to the batcher,
-- under the process's own id, and the latter on the peer's channel, with the next identifier of a
-- message; no other channel changes. The start asserts no failure.
pub start-Routed :
    (t : ReliableTransport)
    → Distinct (HostsTable.get_peers t.hosts)
    → Resolved t.hosts (HostsTable.get_peers t.hosts)
    → t.channels ≡ []
    → (u : ReliableTransport) × (start t ≡ some u)
      × ((peer : ℕ) (message : Bytes)
          → ((peer == t.hosts.local_id) || contains peer (HostsTable.get_peers t.hosts)) ≡ true
          → (r : Option ℕ × ReliableTransport) × (send peer message u ≡ some r)
            × Routed peer message u r)
unfolding start
start-Routed t d r empty =
    let peers = HostsTable.get_peers t.hosts in
    let none_yet : (k : ℕ) → Dict.lookup k t.channels ≡ none =
      λ k. subst (λ m. Dict.lookup k m ≡ none) (sym empty) (lookup_nothing k) in
    let made = add_channels_lem peers t d r (λ k m. none_yet k) in
    (
      made.0,
      made.1,
      λ peer message known.
          send-Routed peer message made.0
            (ground (arith, ap (λ h. h.local_id) made.2, made.3 peer, none_yet peer)),
    )
