-- ===== src/Timers/TimerService/Ticking.antt =====
-- What a tick does with the timers of one id.
use broadcast_service.Base.{
  All-map, All-both, ℕ, ◌+◌, ◌-◌, ◌%◌, ◌^◌, ◌<◌, ◌≤◌, ◌≡◌, ◌≢◌, refl, false, ◌&&◌, List, [], ◌∷◌,
  arith, nat_eq, ◌==◌, contains, if◌then◌else◌, leb, All,
}
use broadcast_service.Timers.TimerService.{max_ticks_duration, Timer, TimerService, sweep, tick}
use broadcast_service.Timers.TimerService.Counting.{count, count-sort_out}
use broadcast_service.Timers.TimerService.Sweeping.{visits-ahead, Slots, Due, count-sweep}
use broadcast_service.Timers.TimerService.Shape.{Placed, IsValid}

module _ {A : Type 0} where
  pub Due-of_Placed :
      (i d : ℕ) (w : TimerService A)
      → IsValid w
      → Slots (λ s timer. timer.id ≡ i → timer.deadline ≡ d) w
      → Slots (Due i d) w
  Due-of_Placed i d w v same s =
      All-map (λ timer. Placed w.ticks s timer × (timer.id ≡ i → timer.deadline ≡ d)) (Due i d s)
        (w.timers s) (λ timer p e. ground (arith, p.0, p.1))
        (All-both (Placed w.ticks s) (λ timer. timer.id ≡ i → timer.deadline ≡ d) (w.timers s)
          (v.placed s) (same s))

  near_of_count :
      (i d ticks s : ℕ) (xs : List (Timer A))
      → All (Placed ticks s) xs
      → All (λ timer. timer.id ≡ i → timer.deadline ≡ d) xs
      → count i xs ≢ 0
      → d < ticks + max_ticks_duration
  unfolding count
  near_of_count i d ticks s [] p h n = absurd (n refl)
  near_of_count i d ticks s (x ∷ xs) p h n =
      ground (arith, p.0, h.0, near_of_count i d ticks s xs p.1 h.1)

  -- In a valid wheel, where all timers with an id have one deadline that is not in the past, a tick
  -- takes these timers out if the deadline is now reached, or, where it was the present tick
  -- already, if a whole turn has gone by; else it keeps them all. Of those taken out, the first one
  -- is cancelled if the id is cancelled, which it then is no longer, and the others are fired.
  pub tick-count :
      (i d elapsed : ℕ) (w : TimerService A)
      → IsValid w
      → Slots (λ s timer. timer.id ≡ i → timer.deadline ≡ d) w
      → w.ticks ≤ d
      → w.ticks + elapsed < 2 ^ 64
      → let n : ℕ = count i (w.timers (d % max_ticks_duration)) in
        let due =
          if d == w.ticks then leb max_ticks_duration elapsed else leb d (w.ticks + elapsed) in
        let cancelled = contains i w.cancelled_timers in
        let r = tick elapsed w in
        (count i r.0 ≡ (if due && cancelled then (if n == 0 then 0 else 1) else 0))
        × (count i r.1.0 ≡ (if due then (if cancelled then n - 1 else n) else 0))
        × (count i (r.1.1.timers (d % max_ticks_duration)) ≡ (if due then 0 else n))
        × (contains i r.1.1.cancelled_timers
            ≡ (if due then (if n == 0 then cancelled else false) else cancelled))
  unfolding tick count
  tick-count i d elapsed w v same later fits =
      let now : ℕ = (w.ticks + elapsed) % 2 ^ 64 in
      let start : TimerService A = record w { ticks = now } in
      let swept = sweep elapsed start [] in
      let target : ℕ = d % max_ticks_duration in
      let counted = count-sweep i d elapsed start [] (Due-of_Placed i d w v same) in
      let sorted = count-sort_out i swept.0 w.cancelled_timers [] [] in
      let passed = visits-ahead w.slot elapsed target (omega (arith, v.hand)) (omega arith) in
      ground (
        arith,
        v.hand,
        counted.0,
        counted.1,
        sorted.0,
        sorted.1,
        sorted.2,
        passed,
        near_of_count i d w.ticks target (w.timers target) (v.placed target) (same target),
      )
