-- ===== src/Transport/Bytes/RoundTrip.antt =====
-- include/io/transport/payload.hpp: lemmas on storing and reading primitives and arrays.
use broadcast_service.Base.{
  ℕ, zero, suc, ◌*◌, ◌/◌, ◌^◌, ◌≤◌, ◌<◌, ◌≡◌, refl, ap, List, [], ◌∷◌, ◌++◌, Option, some, length,
  arith, append_assoc, append-nil, All, length-append, drop, replicate, length-replicate,
}
use native.Mathlib.Nat.{pow-suc}
use broadcast_service.Transport.Bytes.{
  Bytes, marshal_primitive, unmarshal_primitive, marshal_all, unmarshal_all, marshal_array,
  unmarshal_array, store,
}

pub length-marshal_primitive : (size v : ℕ) → length (marshal_primitive size v) ≡ size
unfolding marshal_primitive
length-marshal_primitive zero v = refl
length-marshal_primitive (suc size) v = ap suc (length-marshal_primitive size (v / 256))

pub unmarshal-marshal_primitive :
    (size v : ℕ) (rest : Bytes)
    → v < 256 ^ size
    → unmarshal_primitive size (marshal_primitive size v ++ rest) ≡ some (v, rest)
unfolding marshal_primitive unmarshal_primitive
unmarshal-marshal_primitive zero v rest h = ground arith
unmarshal-marshal_primitive (suc size) v rest h =
    rw (unmarshal-marshal_primitive size (v / 256) rest (omega (arith, pow-suc 256 size)))
      (ground arith)

module _ {A : Type 0} (marshal : A → Bytes) (unmarshal : Bytes → Option (A × Bytes))
    (Fits : A → Type 0)
    (back : (x : A) (rest : Bytes) → Fits x → unmarshal (marshal x ++ rest) ≡ some (x, rest)) where
  pub unmarshal-marshal_all :
      (xs : List A) (rest : Bytes)
      → All Fits xs
      → unmarshal_all unmarshal (length xs) (marshal_all marshal xs ++ rest) ≡ some (xs, rest)
  unfolding marshal_all unmarshal_all
  unmarshal-marshal_all [] rest h = refl
  unmarshal-marshal_all (x ∷ xs) rest h = rw (
    append_assoc (marshal x) (marshal_all marshal xs) rest,
    back x (marshal_all marshal xs ++ rest) h.0,
    unmarshal-marshal_all xs rest h.1,
  )

abbrev pub FitIn : ℕ → List ℕ → Type 0
FitIn size = All (λ v. v < 256 ^ size)

pub unmarshal-marshal_array :
    (size : ℕ) (xs : List ℕ) (rest : Bytes)
    → FitIn size xs
    → unmarshal_array size (length xs) (marshal_array size xs ++ rest) ≡ some (xs, rest)
unfolding marshal_array unmarshal_array
unmarshal-marshal_array size =
    unmarshal-marshal_all (marshal_primitive size) (unmarshal_primitive size) (λ v. v < 256 ^ size)
      (unmarshal-marshal_primitive size)

pub length-marshal_array :
    (size : ℕ) (xs : List ℕ) → length (marshal_array size xs) ≡ size * length xs
unfolding marshal_array marshal_all
length-marshal_array size [] = omega arith
length-marshal_array size (x ∷ xs) = omega (
  arith,
  length-append (marshal_primitive size x) (marshal_array size xs),
  length-marshal_primitive size x,
  length-marshal_array size xs,
)

drop_all : (n : ℕ) (xs : Bytes) → length xs ≤ n → drop n xs ≡ []
drop_all zero [] h = refl
drop_all (suc n) [] h = refl
drop_all zero (x ∷ xs) h = absurd (omega arith)
drop_all (suc n) (x ∷ xs) h = drop_all n xs (omega arith)

-- A buffer of the size of what is stored ends up as just that.
pub store_exact :
    (bytes : Bytes) (size : ℕ) → length bytes ≡ size → store bytes (replicate size 0) ≡ some bytes
unfolding store
store_exact bytes size h = ground (
  arith,
  length-replicate {A = ℕ} size 0,
  append-nil bytes,
  drop_all (length bytes) (replicate size 0),
)
