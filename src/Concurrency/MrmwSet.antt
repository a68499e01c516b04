-- ===== src/Concurrency/MrmwSet.antt =====
-- include/concurrency/mrmw_set.hpp: `MRMWUnorderedSet`.
use broadcast_service.Base.{
  ℕ, ◌≡◌, refl, List, ◌||◌, ◌&&◌, not, Bool, Eq, ◌==◌, contains, length, Distinct,
}
use broadcast_service.Util.HashSet.{
  insert as set_insert, erase, contains-insert, contains-erase, Distinct-insert,
}

module _ {ℓ} {A : Type ℓ} ⦃e : Eq A⦄ where
  -- `Insert` tells whether the key is new.
  unfoldable pub insert : A → List A → Bool × List A
  insert a s = (not (contains a s), set_insert a s)

  unfoldable pub has : A → List A → Bool
  has a s = contains a s

  unfoldable pub delete : A → List A → List A
  delete a s = erase a s

  unfoldable pub estimate_size : List A → ℕ
  estimate_size s = length s

  -- `Insert` succeeds exactly for a key that is missing, after which the key is there; no other key
  -- changes, and keys do not repeat.
  pub insert_lem :
      (a b : A) (s : List A)
      → Distinct s
      → ((insert a s).0 ≡ not (has a s))
        × (has b (insert a s).1 ≡ (a == b || has b s))
        × Distinct (insert a s).1
  unfolding insert has
  insert_lem a b s d = (refl, contains-insert a b s, Distinct-insert a s d)

  pub has-delete : (a b : A) (s : List A) → has b (delete a s) ≡ (not (a == b) && has b s)
  unfolding has delete
  has-delete a b s = contains-erase a b s
