-- ===== src/Concurrency/MrmwMap.antt =====
-- include/concurrency/mrmw_map.hpp: `MRMWUnorderedMap`.
use broadcast_service.Base.{
  ◌≡◌, refl, List, map, Bool, Option, none, some, Eq, ◌==◌, if◌then◌else◌, is_some,
}
use broadcast_service.Util.Dict.{lookup, erase, emplace, lookup-erase, lookup-emplace}

module _ {ℓ κ} {K : Type ℓ} {V : Type κ} ⦃e : Eq K⦄ where
  -- `Set` keeps the value of a key that is there.
  unfoldable pub set : K → V → List (K × V) → List (K × V)
  set k v m = emplace k v m

  unfoldable pub has : K → List (K × V) → Bool
  has k m = is_some (lookup k m)

  unfoldable pub take : K → List (K × V) → Option V × List (K × V)
  take k m = (lookup k m, erase k m)

  unfoldable pub get : K → List (K × V) → Option V
  get k m = lookup k m

  -- A set key is there, with its first value; no other key changes.
  pub get-set :
      (k j : K) (v : V) (m : List (K × V))
      → get j (set k v m) ≡ (if k == j then (if has k m then get j m else some v) else get j m)
  unfolding get set has
  get-set k j v m = lookup-emplace k j v m

  -- `Take` gives the value of its key, which is gone afterwards; no other key changes.
  pub take_lem :
      (k j : K) (m : List (K × V))
      → ((take k m).0 ≡ get k m) × (get j (take k m).1 ≡ (if k == j then none else get j m))
  unfolding take get
  take_lem k j m = (refl, lookup-erase k j m)

-- `Drain`, which leaves the moved values behind.
unfoldable pub drain {ℓ κ} : {K : Type ℓ} {V : Type κ} → List (K × V) → List V
drain = map (λ entry. entry.1)
