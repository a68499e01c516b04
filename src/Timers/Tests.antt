-- ===== src/Timers/Tests.antt =====
-- Wheels with a few timers.
use broadcast_service.Base.{
  ℕ, ◌*◌, ◌≡◌, refl, false, Option, none, some, List, [], ◌∷◌, arith, nat_eq, contains,
}
use broadcast_service.Util.HashSet
use broadcast_service.Transport.RetryPolicy
use broadcast_service.Timers.TimerService.{
  TimerService, init, do_add_timer, write_slot, tick_duration_of, add_timer, add_timer_with_id,
  cancel_timer, advance_slot, expire, expire_slot, sweep, sort_out, tick, stop, stop_rounds,
}
use broadcast_service.Timers.TimerService.Counting.{count}
use broadcast_service.Timers.TimerService.Sweeping.{Slots}
use broadcast_service.Timers.TimerService.Shape.{
  IsValid, Reachable, start, add, ticked, cancel, stopped, IsValid-init, IsValid-do_add_timer,
  Reachable-IsValid,
}
use broadcast_service.Timers.TimerService.Ticking.{tick-count}
use broadcast_service.Timers.TimerService.Stopping.{count-stop}
use broadcast_service.Timers.BackoffRetry.{
  BackoffRetryTimer, rearm, fire, fire_all, handle, handle_all,
}
use broadcast_service.Timers.BackoffRetry.Rearming.{Bounded}
use broadcast_service.Timers.BackoffRetry.Silencing.{called, cancel_timer-handle_all}

abbrev item : BackoffRetryTimer ℕ
item = record { callback = 77; retry_policy = RetryPolicy.init 300 90000 }

-- Two timers of a service with ticks of 100 ms: one for 300 ms, one for 50 ms.
abbrev wheel : TimerService (BackoffRetryTimer ℕ)
wheel = do_add_timer item 6 0 (do_add_timer item 5 3 (init 100))

abbrev double : ℕ → ℕ
double t = t * 2

abbrev calls_made : Option (List (ℕ × ℕ) × TimerService (BackoffRetryTimer ℕ)) → List (ℕ × ℕ)
calls_made none = []
calls_made (some (calls, w)) = calls

-- The first tick that reaches the deadline calls the timer; one of less than a tick is not called.
calls_output : calls_made (handle_all double (2 ∷ 1 ∷ 6 ∷ []) wheel) ≡ (5, 77) ∷ (5, 77) ∷ []
unfolding handle_all handle fire_all fire rearm add_timer_with_id tick_duration_of do_add_timer init
    write_slot tick sweep sort_out advance_slot expire_slot expire contains
calls_output = refl

wheel-IsValid : IsValid wheel
unfolding do_add_timer init
wheel-IsValid =
    let first =
      IsValid-do_add_timer item 5 3 (init 100) (IsValid-init 100) (omega arith) (omega arith) in
    IsValid-do_add_timer item 6 0 (do_add_timer item 5 3 (init 100)) first (omega arith)
      (omega arith)

wheel-deadline : Slots (λ s timer. timer.id ≡ 5 → timer.deadline ≡ 3) wheel
unfolding do_add_timer init write_slot
wheel-deadline s = ground arith

wheel-Bounded : Bounded wheel
unfolding do_add_timer init write_slot
wheel-Bounded = record { ticking = omega arith; brief = λ s. ground arith }

tick-count_example :
    (count 5 (tick 3 (cancel_timer 5 wheel)).0 ≡ 1)
    × (count 5 (tick 3 (cancel_timer 5 wheel)).1.0 ≡ 0)
    × (count 5 ((tick 3 (cancel_timer 5 wheel)).1.1.timers 3) ≡ 0)
    × (contains 5 (tick 3 (cancel_timer 5 wheel)).1.1.cancelled_timers ≡ false)
unfolding count do_add_timer init write_slot cancel_timer contains HashSet.insert
tick-count_example =
    tick-count 5 3 3 (cancel_timer 5 wheel)
      (record { hand = wheel-IsValid.hand; placed = wheel-IsValid.placed; distinct = ground arith })
      wheel-deadline (omega arith) (omega arith)

count-stop_example : (count 5 (stop wheel).0 ≡ 0) × (count 5 ((stop wheel).1.timers 3) ≡ 1)
unfolding count do_add_timer init write_slot
count-stop_example = count-stop 5 3 wheel wheel-IsValid wheel-deadline

cancel_timer-handle_all_example :
    (calls : List (ℕ × ℕ)) × (m : TimerService (BackoffRetryTimer ℕ)) × (handle_all double
        (2 ∷ 1 ∷ 6 ∷ [])
        (cancel_timer 5 wheel)
      ≡ some (calls, m))
    × (contains 5 (called calls) ≡ false)
unfolding count do_add_timer init write_slot
cancel_timer-handle_all_example =
    cancel_timer-handle_all 5 3 double (2 ∷ 1 ∷ 6 ∷ []) wheel wheel-IsValid wheel-Bounded
      wheel-deadline refl (omega arith) (omega arith)

-- Two timers are added, and two ticks go by; the second timer is cancelled, and the service stopped.
abbrev first_added : TimerService ℕ
first_added = record (do_add_timer 77 0 3 (init 100)) { current_id = 1 }

abbrev second_added : TimerService ℕ
second_added = record (do_add_timer 78 1 9 first_added) { current_id = 2 }

first_added_lem : add_timer 77 300 (init 100) ≡ some (0, first_added)
unfolding add_timer tick_duration_of init do_add_timer write_slot
first_added_lem = refl

second_added_lem : add_timer 78 900 first_added ≡ some (1, second_added)
unfolding add_timer tick_duration_of init do_add_timer write_slot
second_added_lem = refl

abbrev ticked_twice : TimerService ℕ
ticked_twice = (tick 4 (tick 2 second_added).1.1).1.1

used : Reachable (stop (cancel_timer 1 ticked_twice)).1
unfolding init do_add_timer tick sweep advance_slot expire_slot
used = stopped (
    cancel 1 (
      ticked 4
        (ticked 2
          (add 78 1 900 (add 77 0 300 (start 100) (omega arith) first_added_lem) (omega arith)
            second_added_lem)
          (omega arith))
        (omega arith)))

Reachable-IsValid_example : IsValid (stop (cancel_timer 1 ticked_twice)).1
Reachable-IsValid_example = Reachable-IsValid (stop (cancel_timer 1 ticked_twice)).1 used

-- The second timer is still in the wheel.
still_there : count 1 ((stop (cancel_timer 1 ticked_twice)).1.timers 9) ≡ 1
unfolding stop stop_rounds tick sweep advance_slot expire_slot expire sort_out cancel_timer init
    do_add_timer write_slot contains count
still_there = refl
