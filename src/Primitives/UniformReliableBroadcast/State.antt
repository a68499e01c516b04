-- ===== src/Primitives/UniformReliableBroadcast/State.antt =====
-- include/primitives/uniform_reliable_broadcast.hpp: the state of `UniformReliableBroadcast`, what it
-- takes for delivered, and the collection of delivered prefixes. `sent` records the calls of the
-- transport.
pub mod Delivered
use broadcast_service.Base.{
  ℕ, zero, suc, ◌+◌, ◌-◌, ◌/◌, ◌%◌, ◌^◌, ◌≡◌, List, [], ◌∷◌, ◌++◌, Bool, true, false, ◌&&◌, ◌||◌,
  Option, none, some, ◌>>=◌, length, if◌then◌else◌, leb, ltb, eqb, Eq, nat_eq, contains, ◌↔◌, arith,
}
use broadcast_service.Transport.Bytes.{Bytes}
use broadcast_service.Util.Dict
use broadcast_service.Util.HashSet

pub record UrbIdentifier : Type 0 where
  pub peer : ℕ
  pub urb_id : ℕ

abbrev pub identifier_eq : UrbIdentifier → UrbIdentifier → Bool
identifier_eq a b = eqb a.peer b.peer && eqb a.urb_id b.urb_id

pub identifier_eq_iff : (a b : UrbIdentifier) → (identifier_eq a b ≡ true) ↔ (a ≡ b)
identifier_eq_iff a b = ground arith

instance abbrev pub identifier_is_eq : Eq UrbIdentifier
identifier_is_eq = record { equals = identifier_eq; equals_iff = identifier_eq_iff }

pub record Urb : Type 0 where
  pub local_id : ℕ
  pub network_size : ℕ
  pub peers : List ℕ  -- of `runtime_.GetHosts()`
  pub next_id : ℕ  -- `ids_`
  pub pending : List (UrbIdentifier × Bytes)
  pub delivered : List UrbIdentifier
  pub acks : List (UrbIdentifier × ℕ)
  pub cleaned : List (ℕ × ℕ)  -- `delivered_prefix_cleaned_`
  pub to_clean : List (ℕ × ℕ)  -- `delivered_prefix_to_clean_`
  pub sent : List (ℕ × Bytes)

-- The constructor, over a table of hosts: `GetNetworkSize(/*with_me=*/true)` counts this process.
abbrev pub init : ℕ → List ℕ → Urb
init local_id peers = record {
  local_id = local_id;
  network_size = length peers + 1;
  peers = peers;
  next_id = 0;
  pending = [];
  delivered = [];
  acks = [];
  cleaned = [];
  to_clean = [];
  sent = [];
}

unfoldable pub can_deliver : ℕ → Urb → Bool
can_deliver num_acks urb = ltb (urb.network_size / 2) num_acks

-- Whether the collected prefix of a peer covers an identifier.
abbrev pub covers : Option ℕ → ℕ → Bool
covers none urb_id = false
covers (some prefix) urb_id = leb urb_id prefix

unfoldable pub was_delivered : UrbIdentifier → Urb → Bool
was_delivered j urb = covers (Dict.lookup j.peer urb.cleaned) j.urb_id || contains j urb.delivered

unfoldable pub clean_delivered_prefix : ℕ → ℕ → Urb → Urb
clean_delivered_prefix peer prefix urb = record urb {
  to_clean = Dict.assign peer prefix urb.to_clean;
}

-- `for (urb_id = start; urb_id <= end; ++urb_id)` on uint32_t; `none` if it is still running when the
-- fuel is spent.
unfoldable pub erase_segment : ℕ → ℕ → ℕ → ℕ → List UrbIdentifier → Option (List UrbIdentifier)
erase_segment zero peer urb_id end delivered = none
erase_segment (suc fuel) peer urb_id end delivered =
    let rest =
      erase_segment fuel peer ((urb_id + 1) % 2 ^ 32) end
        (HashSet.erase (record { peer = peer; urb_id = urb_id }) delivered) in
    if leb urb_id end then rest else some delivered

abbrev pub segment_start : Option ℕ → ℕ
segment_start none = 0
segment_start (some prefix) = (prefix + 1) % 2 ^ 32

-- The number of rounds of the loop, and one for its last test.
unfoldable pub erase_from : ℕ → ℕ → ℕ → Urb → Option Urb
erase_from peer start end urb = do
  delivered ← erase_segment (suc (end + 1 - start)) peer start end urb.delivered
  some (record urb {
    delivered = delivered;
    cleaned = if leb start end then Dict.assign peer end urb.cleaned else urb.cleaned;
  })

unfoldable pub delivered_garbage_collection : ℕ → Urb → Option Urb
delivered_garbage_collection peer urb = elim (Dict.lookup peer urb.to_clean) [
  | none ↦ some urb
  | some end ↦ erase_from peer (segment_start (Dict.lookup peer urb.cleaned)) end urb
]
