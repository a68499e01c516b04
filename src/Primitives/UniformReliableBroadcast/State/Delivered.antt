-- ===== src/Primitives/UniformReliableBroadcast/State/Delivered.antt =====
-- include/primitives/uniform_reliable_broadcast.hpp: lemmas on `DeliveredGarbageCollection` and
-- `WasDelivered`.
use broadcast_service.Base.{
  ℕ, zero, suc, ◌+◌, ◌-◌, ◌%◌, ◌^◌, ◌<◌, ◌≡◌, refl, List, Bool, ◌&&◌, ◌||◌, not, some,
  if◌then◌else◌, leb, eqb, contains, arith, nat_eq, Bool-cases, inl, inr, Option-cases,
}
use broadcast_service.Util.Dict
use broadcast_service.Util.HashSet
use broadcast_service.Primitives.UniformReliableBroadcast.State.{
  UrbIdentifier, Urb, identifier_is_eq, covers, was_delivered, erase_segment, segment_start,
  erase_from, delivered_garbage_collection,
}

-- Identifiers of a peer from `start` to `end`.
abbrev in_segment : ℕ → ℕ → ℕ → UrbIdentifier → Bool
in_segment peer start end j = eqb peer j.peer && (leb start j.urb_id && leb j.urb_id end)

-- The loop ends if the last identifier is not the largest number, and has erased the segment.
erase_segment_lem :
    (fuel peer start end : ℕ) (delivered : List UrbIdentifier)
    → end < 2 ^ 32 - 1
    → 0 < fuel
    → end + 1 < start + fuel
    → (left : List UrbIdentifier) × (erase_segment fuel peer start end delivered ≡ some left)
      × ((j : UrbIdentifier)
          → contains j left ≡ (contains j delivered && not (in_segment peer start end j)))
unfolding erase_segment
erase_segment_lem zero peer start end delivered small some_fuel enough = elim some_fuel [ ]
erase_segment_lem (suc fuel) peer start end delivered small some_fuel enough =
    elim (Bool-cases (leb start end)) [
      | inl more ↦
          let id : UrbIdentifier = record { peer = peer; urb_id = start } in
          let step : (start + 1) % 2 ^ 32 ≡ start + 1 = ground arith in
          let (left, done, kept) =
            erase_segment_lem fuel peer ((start + 1) % 2 ^ 32) end (HashSet.erase id delivered)
              small (ground arith) (ground arith) in
          (
            left,
            rw more done,
            λ j. ground (arith, step, kept j, HashSet.contains-erase id j delivered),
          )
      | inr over ↦ (delivered, rw over, λ j. ground arith)
    ]

-- Prefixes below the largest identifier.
abbrev pub Bounded : List (ℕ × ℕ) → Type 0
Bounded prefixes = (peer c : ℕ) → Dict.lookup peer prefixes ≡ some c → c < 2 ^ 32 - 1

erase_from_lem :
    (peer end : ℕ) (urb : Urb)
    → end < 2 ^ 32 - 1
    → Bounded urb.cleaned
    → (urb' : Urb) × (erase_from peer (segment_start (Dict.lookup peer urb.cleaned)) end urb
        ≡ some urb')
      × ((j : UrbIdentifier)
          → was_delivered j urb' ≡ (was_delivered j urb || (eqb peer j.peer && leb j.urb_id end)))
      × (urb' ≡ record urb { delivered = urb'.delivered; cleaned = urb'.cleaned })
      × Bounded urb'.cleaned
unfolding erase_from was_delivered
erase_from_lem peer end urb small bounded =
    let start = segment_start (Dict.lookup peer urb.cleaned) in
    let (left, done, kept) =
      erase_segment_lem (suc (end + 1 - start)) peer start end urb.delivered small (omega arith)
        (omega arith) in
    (
      record urb {
        delivered = left;
        cleaned = if leb start end then Dict.assign peer end urb.cleaned else urb.cleaned;
      },
      rw done,
      λ j. elim (Option-cases (Dict.lookup peer urb.cleaned)) [
        | inl never ↦ ground (arith, kept j, Dict.lookup-assign peer j.peer end urb.cleaned)
        | inr (c, before) ↦
            ground
              (arith, kept j, Dict.lookup-assign peer j.peer end urb.cleaned, bounded peer c before)
      ],
      refl,
      λ p c e. ground (arith, Dict.lookup-assign peer p end urb.cleaned, bounded p c),
    )

-- With prefixes below the largest identifier the collection ends. Afterwards an identifier counts as
-- delivered exactly if it did before, or lies in the prefix that the peer's messages are collected up
-- to; nothing else changes.
pub garbage_collection_lem :
    (peer : ℕ) (urb : Urb)
    → Bounded urb.to_clean
    → Bounded urb.cleaned
    → (urb' : Urb) × (delivered_garbage_collection peer urb ≡ some urb')
      × ((j : UrbIdentifier)
          → was_delivered j urb' ≡ (
              was_delivered j urb
              || (eqb peer j.peer && covers (Dict.lookup peer urb.to_clean) j.urb_id)))
      × (urb' ≡ record urb { delivered = urb'.delivered; cleaned = urb'.cleaned })
      × Bounded urb'.cleaned
unfolding delivered_garbage_collection
garbage_collection_lem peer urb to_clean cleaned =
    elim (Option-cases (Dict.lookup peer urb.to_clean)) [
      | inl nothing ↦ (urb, ground arith, λ j. ground arith, refl, cleaned)
      | inr (end, here) ↦
          let (urb', done, kept, same, bounded) =
            erase_from_lem peer end urb (to_clean peer end here) cleaned in
          (
            urb',
            rw (here, delivered_garbage_collection) done,
            λ j. ground (arith, kept j),
            same,
            bounded,
          )
    ]
