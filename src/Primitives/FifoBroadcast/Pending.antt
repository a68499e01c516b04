-- ===== src/Primitives/FifoBroadcast/Pending.antt =====
-- The pending messages of a peer: a map ordered by identifier.
use broadcast_service.Base.{
  ℕ, suc, ◌≤◌, ◌<◌, ◌-◌, ◌^◌, ◌≡◌, refl, List, [], ◌∷◌, Bool, false, ◌||◌, eqb, arith,
}
use broadcast_service.Transport.Bytes.{Bytes}
use broadcast_service.Primitives.FifoBroadcast.{emplace}

-- No identifier reaches the largest number, after which `++` would start again from 0.
abbrev pub limit : ℕ
limit = 2 ^ 32 - 1

-- The keys rise, from `n` on.
abbrev pub From : ℕ → List (ℕ × Bytes) → Type 0
From n [] = Unit {0}
From n ((k, m) ∷ pending) = (n ≤ k) × (k < limit) × From (suc k) pending

abbrev pub has_key : ℕ → List (ℕ × Bytes) → Bool
has_key j [] = false
has_key j ((k, m) ∷ pending) = eqb j k || has_key j pending

pub From-le : (m n : ℕ) (pending : List (ℕ × Bytes)) → m ≤ n → From n pending → From m pending
From-le m n [] h f = tt
From-le m n (e ∷ pending) h f = (omega arith, f.1, f.2)

pub From-emplace :
    (n id : ℕ) (message : Bytes) (pending : List (ℕ × Bytes))
    → n ≤ id
    → id < limit
    → From n pending
    → From n (emplace id message pending)
unfolding emplace
From-emplace n id message [] h small f = (h, small, tt)
From-emplace n id message ((k, m) ∷ pending) h small f =
    ground (arith, From-emplace (suc k) id message pending)

pub has_key-emplace :
    (j id : ℕ) (message : Bytes) (pending : List (ℕ × Bytes))
    → has_key j (emplace id message pending) ≡ (eqb j id || has_key j pending)
unfolding emplace
has_key-emplace j id message [] = refl
has_key-emplace j id message ((k, m) ∷ pending) =
    ground (arith, has_key-emplace j id message pending)

-- A key below all is not there.
pub has_key_below :
    (j n : ℕ) (pending : List (ℕ × Bytes)) → j < n → From n pending → has_key j pending ≡ false
has_key_below j n [] h f = refl
has_key_below j n ((k, m) ∷ pending) h f = ground (arith, has_key_below j (suc k) pending)
