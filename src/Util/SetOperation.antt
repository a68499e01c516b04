-- ===== src/Util/SetOperation.antt =====
-- include/util/set_operation.hpp: sets kept as vectors.
pub mod Union
use broadcast_service.Base.{
  ℕ, ◌+◌, ◌≤◌, ◌<◌, ◌≡◌, refl, ◌||◌, ◌&&◌, not, Bool, true, false, List, [], ◌∷◌, ◌++◌, arith, Eq,
  ◌==◌, contains, if◌then◌else◌, length,
}

module _ {ℓ} {A : Type ℓ} ⦃e : Eq A⦄ where
  -- The loop of `VectorSetUnion`: what `hashes` lacks is appended to `lhs`.
  unfoldable pub push_missing : List A → List A → List A → List A
  push_missing hashes lhs [] = lhs
  push_missing hashes lhs (x ∷ rhs) =
      push_missing hashes (if contains x hashes then lhs else lhs ++ x ∷ []) rhs

  -- The hashes are those of the left set at the start.
  unfoldable pub vector_set_union : List A → List A → List A
  vector_set_union lhs rhs = push_missing lhs lhs rhs

  unfoldable pub vector_set_less_or_equals : List A → List A → Bool
  vector_set_less_or_equals [] rhs = true
  vector_set_less_or_equals (x ∷ lhs) rhs =
      let rest = vector_set_less_or_equals lhs rhs in if contains x rhs then rest else false
