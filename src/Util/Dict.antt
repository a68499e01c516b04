-- ===== src/Util/Dict.antt =====
-- Dictionaries: `std::unordered_map` as an association list.
use broadcast_service.Base.{
  ◌≡◌, List, [], ◌∷◌, Option, none, some, arith, Eq, ◌==◌, if◌then◌else◌, is_some,
}

module _ {ℓ κ} {K : Type ℓ} {V : Type κ} ⦃e : Eq K⦄ where
  unfoldable pub lookup : K → List (K × V) → Option V
  lookup k [] = none
  lookup k ((j, v) ∷ m) = if j == k then some v else lookup k m

  unfoldable pub erase : K → List (K × V) → List (K × V)
  erase k [] = []
  erase k ((j, v) ∷ m) = if j == k then erase k m else (j, v) ∷ erase k m

  -- `m[k] = v`
  unfoldable pub assign : K → V → List (K × V) → List (K × V)
  assign k v m = (k, v) ∷ erase k m

  -- `m.emplace(k, v)`: an entry that is there stays.
  unfoldable pub emplace : K → V → List (K × V) → List (K × V)
  unfolding lookup
  emplace k v m = elim (lookup k m) [ none ↦ (k, v) ∷ m | some w ↦ m ]

  pub lookup-erase :
      (k j : K) (m : List (K × V)) → lookup j (erase k m) ≡ (if k == j then none else lookup j m)
  unfolding lookup erase
  lookup-erase k j [] = ground arith
  lookup-erase k j ((i, v) ∷ m) =
      ground (arith, e.equals_iff i k, e.equals_iff i j, e.equals_iff k j, lookup-erase k j m)

  pub lookup-assign :
      (k j : K) (v : V) (m : List (K × V))
      → lookup j (assign k v m) ≡ (if k == j then some v else lookup j m)
  unfolding lookup assign
  lookup-assign k j v m = ground (arith, lookup-erase k j m)

  pub lookup-emplace :
      (k j : K) (v : V) (m : List (K × V))
      → lookup j (emplace k v m)
        ≡ (if k == j then (if is_some (lookup k m) then lookup j m else some v) else lookup j m)
  unfolding emplace lookup
  lookup-emplace k j v m = ground (arith, e.equals_iff k j)
