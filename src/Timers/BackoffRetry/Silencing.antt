-- ===== src/Timers/BackoffRetry/Silencing.antt =====
-- The calls that follow a cancellation.
use broadcast_service.Base.{
  ℕ, ◌+◌, ◌%◌, ◌^◌, ◌<◌, ◌≡◌, ◌≢◌, refl, sym, subst, ap, ◌∙◌, inl, inr, false, ◌||◌, some, List, [],
  ◌∷◌, ◌++◌, arith, nat_eq, contains, map, Option-cases,
}
use broadcast_service.Util.HashSet
use broadcast_service.Transport.RetryPolicy
use broadcast_service.Transport.RetryPolicy.{RetryPolicy}
use broadcast_service.Timers.TimerService.{
  max_ticks_duration, Timer, TimerService, cancel_timer, tick,
}
use broadcast_service.Timers.TimerService.Counting.{count}
use broadcast_service.Timers.TimerService.Sweeping.{Slots}
use broadcast_service.Timers.TimerService.Keeping.{}
use broadcast_service.Timers.TimerService.Shape.{IsValid}
use broadcast_service.Timers.TimerService.Ticking.{}
use broadcast_service.Timers.BackoffRetry.{
  BackoffRetryTimer, rearm, fire, fire_all, handle, handle_all,
}
use broadcast_service.Timers.BackoffRetry.Rearming.{
  Bounded, Rearmed, rearm_cases, calls_of, handle-calls_of,
}
use broadcast_service.Timers.BackoffRetry.Muting.{
  Muted, ticks-tick, Muted-tick, Muted-add, ticks-add,
}

-- The ids of the timers that were called.
abbrev pub called : {C : Type 0} → List (ℕ × C) → List ℕ
called calls = map (λ call. call.0) calls

-- The ticks of a sequence of wake-ups.
abbrev pub total : List ℕ → ℕ
total [] = 0
total (elapsed ∷ rest) = elapsed + total rest

module _ {C : Type 0} (i d : ℕ) (backoff : ℕ → ℕ) where
  Muted-Rearmed :
      (callback : C) (id : ℕ) (policy : RetryPolicy) (w m : TimerService (BackoffRetryTimer C))
      → Muted i d w
      → id ≢ i
      → w.ticks + max_ticks_duration < 2 ^ 64
      → Rearmed callback id policy w m
      → Muted i d m × (m.ticks ≡ w.ticks)
  Muted-Rearmed callback id policy w m q other fits (inl e) =
      (subst (Muted i d) (sym e) q, ap (λ v. v.ticks) e)
  Muted-Rearmed callback id policy w m q other fits (inr (ticks, small, e)) =
      let item : BackoffRetryTimer C = record { callback = callback; retry_policy = policy } in
      (
        subst (Muted i d) (sym e) (Muted-add i d item id ticks w q other small fits),
        ap (λ v. v.ticks) e ∙ ticks-add i d item id ticks w,
      )

  fire_all-cons :
      (timer : Timer (BackoffRetryTimer C)) (fired : List (Timer (BackoffRetryTimer C)))
      (w m : TimerService (BackoffRetryTimer C)) (calls : List (ℕ × C))
      → fire_all backoff (timer ∷ fired) w ≡ some (calls, m)
      → let policy : RetryPolicy = RetryPolicy.next backoff timer.item.retry_policy in
        (v : TimerService (BackoffRetryTimer C)) × (rest : List (ℕ × C)) × (rearm backoff
            timer.item.callback timer.id policy w
          ≡ some v)
        × (fire_all backoff fired v ≡ some (rest, m))
        × (calls ≡ (timer.id, timer.item.callback) ∷ rest)
  unfolding fire_all fire
  fire_all-cons timer fired w m calls e =
      let policy : RetryPolicy = RetryPolicy.next backoff timer.item.retry_policy in
      elim (Option-cases (rearm backoff timer.item.callback timer.id policy w)) [
        | inl n ↦ absurd (ground arith)
        | inr (v, armed) ↦ elim (Option-cases (fire_all backoff fired v)) [
          | inl n ↦ absurd (ground arith)
          | inr ((rest, last), done) ↦ (v, rest, armed, ground arith, ground arith)
        ]
      ]

  fire_all-Muted :
      (fired : List (Timer (BackoffRetryTimer C))) (w m : TimerService (BackoffRetryTimer C))
      (calls : List (ℕ × C))
      → Muted i d w
      → count i fired ≡ 0
      → w.ticks + max_ticks_duration < 2 ^ 64
      → fire_all backoff fired w ≡ some (calls, m)
      → Muted i d m × (m.ticks ≡ w.ticks) × (contains i (called calls) ≡ false)
  unfolding fire_all count contains
  fire_all-Muted [] w m calls q out fits e =
      let same : w ≡ m = ground arith in (subst (Muted i d) same q, ground arith, ground arith)
  fire_all-Muted (timer ∷ fired) w m calls q out fits e =
      let policy : RetryPolicy = RetryPolicy.next backoff timer.item.retry_policy in
      let split = fire_all-cons timer fired w m calls e in
      let v = split.0 in
      let armed =
        Muted-Rearmed timer.item.callback timer.id policy w v q (ground arith) fits
          (rearm_cases backoff timer.item.callback timer.id policy w v split.2) in
      let rest = fire_all-Muted fired v m split.1 armed.0 (ground arith) (ground arith) split.3 in
      (rest.0, rest.1 ∙ armed.1, ground (arith, split.4, rest.2))

  called-append :
      (k : ℕ) (xs ys : List (ℕ × C))
      → contains k (called (xs ++ ys)) ≡ (contains k (called xs) || contains k (called ys))
  unfolding contains
  called-append k [] ys = refl
  called-append k (x ∷ xs) ys = ground (arith, called-append k xs ys)

  handle_all-Muted :
      (elapsed : List ℕ) (w : TimerService (BackoffRetryTimer C))
      → Muted i d w
      → Bounded w
      → w.ticks + total elapsed + max_ticks_duration < 2 ^ 64
      → (calls : List (ℕ × C)) × (m : TimerService (BackoffRetryTimer C)) × (handle_all backoff
            elapsed w
          ≡ some (calls, m))
        × (contains i (called calls) ≡ false)
  unfolding handle_all handle contains
  handle_all-Muted [] w q b fits = ([], w, refl, refl)
  handle_all-Muted (now ∷ elapsed) w q b fits =
      let ticked = Muted-tick i d now w q (omega arith) in
      let e = ticks-tick i d now w (omega arith) in
      let made = handle-calls_of backoff now w b in
      let m = made.0 in
      let fate =
        fire_all-Muted (tick now w).1.0 (tick now w).1.1 m (calls_of backoff (tick now w).1.0)
          ticked.0 ticked.1 (omega (arith, e)) made.1 in
      let rest = handle_all-Muted elapsed m fate.0 made.2 (omega (arith, e, fate.1)) in
      (
        calls_of backoff (tick now w).1.0 ++ rest.0,
        rest.1,
        rw (made.1, rest.2) refl,
        ground (arith, fate.2, rest.3, called-append i (calls_of backoff (tick now w).1.0) rest.0),
      )

-- In a valid wheel whose timers have longest timeouts below a turn of the wheel, and where one timer
-- with the id is still to come, cancelling the id before the deadline means that in whatever
-- wake-ups follow, while the count of ticks does not wrap around, no assertion fails and the
-- timer's callback is never called.
pub cancel_timer-handle_all :
    {C : Type 0} (i d : ℕ) (backoff : ℕ → ℕ) (elapsed : List ℕ)
    (w : TimerService (BackoffRetryTimer C))
    → IsValid w
    → Bounded w
    → Slots (λ s timer. timer.id ≡ i → timer.deadline ≡ d) w
    → count i (w.timers (d % max_ticks_duration)) ≡ 1
    → w.ticks < d
    → w.ticks + total elapsed + max_ticks_duration < 2 ^ 64
    → (calls : List (ℕ × C)) × (m : TimerService (BackoffRetryTimer C)) × (handle_all backoff
          elapsed
          (cancel_timer i w)
        ≡ some (calls, m))
      × (contains i (called calls) ≡ false)
unfolding cancel_timer
cancel_timer-handle_all i d backoff elapsed w v b same n later fits =
    handle_all-Muted i d backoff elapsed (cancel_timer i w)
      (record {
        valid = record {
          hand = v.hand;
          placed = v.placed;
          distinct = HashSet.Distinct-insert i w.cancelled_timers v.distinct;
        };
        same = same;
        quiet = inr (n, later, ground (arith, HashSet.contains-insert i i w.cancelled_timers));
      })
      (record { ticking = b.ticking; brief = b.brief }) fits
