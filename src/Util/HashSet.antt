-- ===== src/Util/HashSet.antt =====
-- Sets: `std::unordered_set` as a list without repetitions.
use broadcast_service.Base.{
  ◌≡◌, List, [], ◌∷◌, ◌||◌, ◌&&◌, not, arith, Eq, ◌==◌, contains, if◌then◌else◌, Distinct,
}

module _ {ℓ} {A : Type ℓ} ⦃e : Eq A⦄ where
  unfoldable pub insert : A → List A → List A
  insert a xs = if contains a xs then xs else a ∷ xs

  unfoldable pub erase : A → List A → List A
  erase a [] = []
  erase a (x ∷ xs) = if x == a then erase a xs else x ∷ erase a xs

  pub contains-insert :
      (a b : A) (xs : List A) → contains b (insert a xs) ≡ (a == b || contains b xs)
  unfolding insert contains
  contains-insert a b xs = ground (arith, e.equals_iff a b)

  pub contains-erase :
      (a b : A) (xs : List A) → contains b (erase a xs) ≡ (not (a == b) && contains b xs)
  unfolding erase contains
  contains-erase a b [] = ground arith
  contains-erase a b (x ∷ xs) =
      ground (arith, e.equals_iff a b, e.equals_iff x a, e.equals_iff x b, contains-erase a b xs)

  pub Distinct-insert : (a : A) (xs : List A) → Distinct xs → Distinct (insert a xs)
  unfolding insert
  Distinct-insert a xs d = ground arith

  pub Distinct-erase : (a : A) (xs : List A) → Distinct xs → Distinct (erase a xs)
  unfolding erase
  Distinct-erase a [] d = d
  Distinct-erase a (x ∷ xs) d = ground (arith, d, contains-erase a x xs, Distinct-erase a xs d.1)
