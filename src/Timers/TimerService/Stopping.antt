-- ===== src/Timers/TimerService/Stopping.antt =====
-- What `Stop` takes out of the wheel.
use broadcast_service.Base.{ℕ, ◌%◌, ◌≤◌, ◌≡◌, ap, [], arith, nat_eq, if◌then◌else◌, leb}
use broadcast_service.Timers.TimerService.{
  max_ticks_duration, TimerService, sweep, stop_rounds, stop,
}
use broadcast_service.Timers.TimerService.Counting.{count}
use broadcast_service.Timers.TimerService.Sweeping.{visits-ahead, Slots, count-sweep}
use broadcast_service.Timers.TimerService.Shape.{IsValid, sweep-stop_rounds}
use broadcast_service.Timers.TimerService.Ticking.{Due-of_Placed}

module _ {A : Type 0} where
  -- A whole turn or more passes each slot.
  count-stop_rounds :
      (i d rounds : ℕ) (w : TimerService A)
      → IsValid w
      → Slots (λ s timer. timer.id ≡ i → timer.deadline ≡ d) w
      → max_ticks_duration ≤ rounds
      → let n : ℕ = count i (w.timers (d % max_ticks_duration)) in
        (count i (stop_rounds rounds w).0 ≡ (if leb d w.ticks then n else 0))
        × (count i ((stop_rounds rounds w).1.timers (d % max_ticks_duration))
            ≡ (if leb d w.ticks then 0 else n))
  unfolding count
  count-stop_rounds i d rounds w v same turn =
      let counted = count-sweep i d rounds w [] (Due-of_Placed i d w v same) in
      let r = sweep-stop_rounds rounds w [] in
      let out : (sweep rounds w []).0 ≡ (stop_rounds rounds w).0 = ap (λ p. p.0) r in
      let left : (sweep rounds w []).1 ≡ (stop_rounds rounds w).1 = ap (λ p. p.1) r in
      let target : ℕ = d % max_ticks_duration in
      let passed = visits-ahead w.slot rounds target (omega (arith, v.hand)) (omega arith) in
      ground (
        arith,
        counted.0,
        counted.1,
        passed,
        ap (count i) out,
        ap (λ (m : TimerService A). count i (m.timers target)) left,
      )

  -- In a valid wheel, where all timers with an id have one deadline, `Stop` takes out the timers
  -- with that id if the deadline has come, and leaves them in the wheel if it has not.
  pub count-stop :
      (i d : ℕ) (w : TimerService A)
      → IsValid w
      → Slots (λ s timer. timer.id ≡ i → timer.deadline ≡ d) w
      → let n : ℕ = count i (w.timers (d % max_ticks_duration)) in
        (count i (stop w).0 ≡ (if leb d w.ticks then n else 0))
        × (count i ((stop w).1.timers (d % max_ticks_duration)) ≡ (if leb d w.ticks then 0 else n))
  unfolding stop
  count-stop i d w v same = count-stop_rounds i d max_ticks_duration w v same (omega arith)
