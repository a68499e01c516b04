-- ===== src/Util/SetOperation/Union.antt =====
-- include/util/set_operation.hpp: lemmas on `VectorSetUnion` and `VectorSetLessOrEquals`.
use broadcast_service.Base.{
  ◌≡◌, refl, sym, ◌↔◌, ◌||◌, ◌&&◌, not, true, false, List, [], ◌∷◌, ◌++◌, arith, Eq, contains,
  contains-append, if◌then◌else◌, length, append_assoc, append-nil, Distinct, Subset,
  length-le-Subset, Subset_of_length,
}
use broadcast_service.Util.SetOperation.{push_missing, vector_set_union, vector_set_less_or_equals}

module _ {ℓ} {A : Type ℓ} ⦃e : Eq A⦄ where
  -- The elements of `rhs` that `hashes` lacks.
  missing : List A → List A → List A
  missing hashes [] = []
  missing hashes (x ∷ rhs) =
      if contains x hashes then missing hashes rhs else x ∷ missing hashes rhs

  push_missing-append :
      (hashes lhs rhs : List A) → push_missing hashes lhs rhs ≡ lhs ++ missing hashes rhs
  unfolding push_missing missing
  push_missing-append hashes lhs [] = sym (append-nil lhs)
  push_missing-append hashes lhs (x ∷ rhs) = ground (
    arith,
    push_missing-append hashes lhs rhs,
    push_missing-append hashes (lhs ++ x ∷ []) rhs,
    append_assoc lhs (x ∷ []) (missing hashes rhs),
  )

  contains-missing :
      (a : A) (hashes rhs : List A)
      → contains a (missing hashes rhs) ≡ (contains a rhs && not (contains a hashes))
  unfolding contains missing
  contains-missing a hashes [] = refl
  contains-missing a hashes (x ∷ rhs) =
      ground (arith, e.equals_iff x a, contains-missing a hashes rhs)

  Distinct-missing : (hashes rhs : List A) → Distinct rhs → Distinct (missing hashes rhs)
  unfolding missing
  Distinct-missing hashes [] d = tt
  Distinct-missing hashes (x ∷ rhs) d =
      ground (arith, contains-missing x hashes rhs, Distinct-missing hashes rhs d.1)

  union-append : (lhs rhs : List A) → vector_set_union lhs rhs ≡ lhs ++ missing lhs rhs
  unfolding vector_set_union
  union-append lhs rhs = push_missing-append lhs lhs rhs

  -- The union has the elements of the two sets.
  pub contains-union :
      (a : A) (lhs rhs : List A)
      → contains a (vector_set_union lhs rhs) ≡ (contains a lhs || contains a rhs)
  contains-union a lhs rhs =
      rw (union-append lhs rhs, contains-append a lhs (missing lhs rhs))
        (ground (arith, contains-missing a lhs rhs))

  pub Distinct-append :
      (xs ys : List A)
      → Distinct xs
      → Distinct ys
      → ((a : A) → contains a ys ≡ true → contains a xs ≡ false)
      → Distinct (xs ++ ys)
  unfolding contains
  Distinct-append [] ys dx dy apart = dy
  Distinct-append (x ∷ xs) ys dx dy apart = (
    ground (arith, contains-append x xs ys, apart x, e.equals_iff x x),
    Distinct-append xs ys dx.1 dy (λ a h. ground (arith, apart a h)),
  )

  -- The union of vectors without repetitions has none.
  pub Distinct-union :
      (lhs rhs : List A) → Distinct lhs → Distinct rhs → Distinct (vector_set_union lhs rhs)
  Distinct-union lhs rhs dl dr = rw (union-append lhs rhs) (
      Distinct-append lhs (missing lhs rhs) dl (Distinct-missing lhs rhs dr)
        (λ a h. ground (arith, contains-missing a lhs rhs)))

  pub left-Subset-union : (lhs rhs : List A) → Subset lhs (vector_set_union lhs rhs)
  left-Subset-union lhs rhs a h = ground (arith, contains-union a lhs rhs)

  pub right-Subset-union : (lhs rhs : List A) → Subset rhs (vector_set_union lhs rhs)
  right-Subset-union lhs rhs a h = ground (arith, contains-union a lhs rhs)

  -- If the union is as large as the right side, then the left side lies in it.
  pub Subset_of_union_length :
      (lhs rhs : List A)
      → Distinct rhs
      → length (vector_set_union lhs rhs) ≡ length rhs
      → Subset lhs rhs
  Subset_of_union_length lhs rhs dr same a h =
      Subset_of_length rhs (vector_set_union lhs rhs) dr (right-Subset-union lhs rhs) (omega arith)
        a (left-Subset-union lhs rhs a h)

  -- And the other way round, where both sides are distinct.
  pub union_length_of_Subset :
      (lhs rhs : List A)
      → Distinct lhs
      → Distinct rhs
      → Subset lhs rhs
      → length (vector_set_union lhs rhs) ≡ length rhs
  union_length_of_Subset lhs rhs dl dr sub = omega (
    arith,
    length-le-Subset rhs (vector_set_union lhs rhs) dr (right-Subset-union lhs rhs),
    length-le-Subset (vector_set_union lhs rhs) rhs (Distinct-union lhs rhs dl dr) inside,
  )
    where
      inside : Subset (vector_set_union lhs rhs) rhs
      inside a h = ground (arith, contains-union a lhs rhs, sub a)

  -- `VectorSetLessOrEquals` decides inclusion.
  pub less_or_equals_iff :
      (lhs rhs : List A) → (vector_set_less_or_equals lhs rhs ≡ true) ↔ Subset lhs rhs
  unfolding vector_set_less_or_equals contains
  less_or_equals_iff [] rhs = (λ _ a h. cc, λ _. refl)
  less_or_equals_iff (x ∷ lhs) rhs =
      let rest = less_or_equals_iff lhs rhs in
      (
        λ h a p. ground (
          arith,
          rest.0,
          e.equals_iff x a,
          λ (q : vector_set_less_or_equals lhs rhs ≡ true). rest.0 q a,
        ),
        λ sub. ground (arith, sub x, e.equals_iff x x, rest.1 (λ a h. ground (arith, sub a))),
      )
