-- ===== src/Applications/Fifo/Filling.antt =====
-- The numbers that a message is filled with.
use broadcast_service.Base.{
  ℕ, zero, suc, ◌+◌, ◌-◌, ◌%◌, ◌^◌, ◌<◌, ◌≡◌, refl, ap, inl, inr, [], arith, nat_eq, leb, range,
  replicate, Bool-cases, min,
}
use broadcast_service.Util.RateLimit.{}
use broadcast_service.Applications.Message.{}
use broadcast_service.Applications.Fifo.{fill, numbers}

numbers-zeros : (n : ℕ) → numbers (replicate n 0) ≡ []
unfolding numbers
numbers-zeros zero = refl
numbers-zeros (suc n) = numbers-zeros n

-- How many numbers are left from `current` on.
abbrev pub left_of : ℕ → ℕ → ℕ
left_of current limit = limit + 1 - current

-- The numbers filled in are the logged ones, the next ones up to the limit.
pub fill_lem :
    (left k current limit : ℕ)
    → 0 < current
    → current + k + left < 2 ^ 32
    → (fill left k current limit).1 ≡ range (current + k) (min left (left_of (current + k) limit))
      × (numbers (fill left k current limit).0 ≡ (fill left k current limit).1)
unfolding fill numbers
fill_lem zero k current limit p fits = ground arith
fill_lem (suc left) k current limit p fits =
    let ih = fill_lem left (k + 1) current limit p (omega arith) in
    let rest : ℕ = min left (left_of (current + (k + 1)) limit) in
    let number : (current + k) % 2 ^ 32 ≡ current + k = omega arith in
    elim (Bool-cases (leb (current + k) limit)) [
      | inl within ↦
          let count : min (suc left) (left_of (current + k) limit) ≡ suc rest = ground arith in
          let next : current + (k + 1) ≡ current + k + 1 = omega arith in
          ground
            (arith, number, ih.0, ih.1, ap (range (current + k)) count, ap (λ s. range s rest) next)
      | inr beyond ↦
          let count : min (suc left) (left_of (current + k) limit) ≡ 0 = ground arith in
          ground (arith, number, numbers-zeros left, ap (range (current + k)) count)
    ]
