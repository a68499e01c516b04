-- ===== src/Base/Sets.antt =====
-- Lists read as finite sets: distinctness, inclusion, and the pigeonhole principle.
use Prim.Native.Nat.{suc, ◌≤◌}
use mathlib.Core.Path.{◌≡◌, refl}
use mathlib.Core.Logic.{}
use mathlib.Core.Bool.{true, false}
use mathlib.Core.List.{List, [], ◌∷◌}
use native.Mathlib.Omega.{arith}
use broadcast_service.Base.Tests.{if◌then◌else◌}
use broadcast_service.Base.Keys.{Eq, ◌==◌, contains, ==_refl}
use broadcast_service.Base.Lists.{length}

module _ {ℓ} {A : Type ℓ} ⦃e : Eq A⦄ where
  abbrev pub Distinct : List A → Type 0
  Distinct [] = Unit {0}
  Distinct (x ∷ xs) = (contains x xs ≡ false) × Distinct xs

  abbrev pub Subset : List A → List A → Type ℓ
  Subset xs ys = (a : A) → contains a xs ≡ true → contains a ys ≡ true

  pub Subset-trans : (xs ys zs : List A) → Subset xs ys → Subset ys zs → Subset xs zs
  Subset-trans xs ys zs h k a p = k a (h a p)

  remove : A → List A → List A
  remove a [] = []
  remove a (x ∷ xs) = if x == a then xs else x ∷ remove a xs

  length-remove :
      (a : A) (xs : List A) → contains a xs ≡ true → suc (length (remove a xs)) ≡ length xs
  unfolding contains remove
  length-remove a [] h = ground arith
  length-remove a (x ∷ xs) h = ground (arith, length-remove a xs)

  contains-remove :
      (a b : A) (xs : List A) → (a == b) ≡ false → contains b (remove a xs) ≡ contains b xs
  unfolding contains remove
  contains-remove a b [] h = refl
  contains-remove a b (x ∷ xs) h =
      ground (arith, e.equals_iff x a, e.equals_iff a b, e.equals_iff x b, contains-remove a b xs)

  tail-Subset :
      (x : A) (xs ys : List A)
      → contains x xs ≡ false
      → Subset (x ∷ xs) ys
      → Subset xs (remove x ys)
  unfolding contains
  tail-Subset x xs ys fresh h a p = ground (arith, e.equals_iff x a, contains-remove x a ys, h a)

  -- A distinct list inside another is no longer than it.
  pub length-le-Subset : (xs ys : List A) → Distinct xs → Subset xs ys → length xs ≤ length ys
  unfolding contains
  length-le-Subset [] ys d h = omega arith
  length-le-Subset (x ∷ xs) ys d h =
      let shorter = length-le-Subset xs (remove x ys) d.1 (tail-Subset x xs ys d.0 h) in
      ground (arith, shorter, h x, ==_refl x, length-remove x ys)

  -- If it is also no shorter, then it holds every element of the other.
  pub Subset_of_length :
      (xs ys : List A) → Distinct xs → Subset xs ys → length ys ≤ length xs → Subset ys xs
  unfolding contains
  Subset_of_length [] [] d h le a p = p
  Subset_of_length [] (y ∷ ys) d h le a p = absurd (omega arith)
  Subset_of_length (x ∷ xs) ys d h le a p = ground (
    arith,
    e.equals_iff x a,
    h x,
    ==_refl x,
    length-remove x ys,
    contains-remove x a ys,
    Subset_of_length xs (remove x ys) d.1 (tail-Subset x xs ys d.0 h) shorter a,
  )
    where
      shorter : length (remove x ys) ≤ length xs
      shorter = ground (arith, h x, ==_refl x, length-remove x ys)
