-- ===== src/Util/IntrusiveList/Chains.antt =====
-- The chain of nodes behind an intrusive list.
use broadcast_service.Base.{
  ◌%◌, ◌^◌, ◌≡◌, ◌≢◌, true, List, [], ◌∷◌, ◌++◌, arith, nat_eq, contains, length, Distinct,
}
use broadcast_service.Util.IntrusiveList.{Ptr, null, Memory, IntrusiveList}

-- From `p` the pointers lead through the nodes to the last one, `q`, whatever that one's pointer.
abbrev pub Chain : Memory → Ptr → Ptr → List Ptr → Type 0
Chain h p q [] = (p ≡ null) × (q ≡ null)
Chain h p q (x ∷ []) = (p ≡ x) × (q ≡ x) × (x ≢ null)
Chain h p q (x ∷ y ∷ xs) = (p ≡ x) × (x ≢ null) × Chain h (h x) q (y ∷ xs)

pub record Represents (h : Memory) (l : IntrusiveList) (xs : List Ptr) : Type 0 where
  pub chain : Chain h l.head l.tail xs
  pub distinct : Distinct xs
  pub size : l.size ≡ length xs % 2 ^ 64

-- The last node is one of the chain's.
pub tail-mem :
    (h : Memory) (p q x : Ptr) (xs : List Ptr) → Chain h p q (x ∷ xs) → contains q (x ∷ xs) ≡ true
unfolding contains
tail-mem h p q x [] c = ground arith
tail-mem h p q x (y ∷ xs) c = ground (arith, tail-mem h (h x) q y xs c.2)

pub Chain-head : (h : Memory) (p q x : Ptr) (xs : List Ptr) → Chain h p q (x ∷ xs) → p ≡ x
Chain-head h p q x [] c = c.0
Chain-head h p q x (y ∷ xs) c = c.0

pub Chain-ne_null : (h : Memory) (p q x : Ptr) (xs : List Ptr) → Chain h p q (x ∷ xs) → x ≢ null
Chain-ne_null h p q x [] c = c.2
Chain-ne_null h p q x (y ∷ xs) c = c.1

pub head-ne_null : (h : Memory) (p q x : Ptr) (xs : List Ptr) → Chain h p q (x ∷ xs) → p ≢ null
head-ne_null h p q x xs c = ground (arith, Chain-head h p q x xs c, Chain-ne_null h p q x xs c)

pub tail-ne_null : (h : Memory) (p q x : Ptr) (xs : List Ptr) → Chain h p q (x ∷ xs) → q ≢ null
tail-ne_null h p q x [] c = ground (arith, c.2)
tail-ne_null h p q x (y ∷ xs) c = tail-ne_null h (h x) q y xs c.2

-- The chain does not depend on what other nodes hold, nor on the last node's pointer.
pub frame :
    (h g : Memory) (p q : Ptr) (xs : List Ptr)
    → Distinct xs
    → ((a : Ptr) → contains a xs ≡ true → a ≢ q → g a ≡ h a)
    → Chain h p q xs
    → Chain g p q xs
unfolding contains
frame h g p q [] d same c = c
frame h g p q (x ∷ []) d same c = c
frame h g p q (x ∷ y ∷ xs) d same c =
    let e : g x ≡ h x = ground (arith, same x, tail-mem h (h x) q y xs c.2) in
    (c.0, c.1, rw e (frame h g (h x) q (y ∷ xs) d.1 (λ a m. same a (ground arith)) c.2))

pub Chain-append :
    (h : Memory) (p q r s x y : Ptr) (xs ys : List Ptr)
    → Chain h p q (x ∷ xs)
    → h q ≡ r
    → Chain h r s (y ∷ ys)
    → Chain h p s (x ∷ xs ++ y ∷ ys)
Chain-append h p q r s x y [] ys c e t = ground arith
Chain-append h p q r s x y (z ∷ xs) ys c e t =
    (c.0, c.1, Chain-append h (h x) q r s z y xs ys c.2 e t)
