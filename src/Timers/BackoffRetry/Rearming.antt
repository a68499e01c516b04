-- ===== src/Timers/BackoffRetry/Rearming.antt =====
-- The timers that go off are armed again.
use broadcast_service.Base.{
  All-snoc, ℕ, ◌+◌, ◌*◌, ◌/◌, ◌%◌, ◌^◌, ◌<◌, ◌≡◌, refl, some, List, [], ◌∷◌, ◌++◌, arith, nat_eq,
  leb, All, map, inl, inr, ◌⊎◌, ◌∙◌, subst, sym, ap, Bool-cases,
}
use broadcast_service.Transport.RetryPolicy
use broadcast_service.Transport.RetryPolicy.{RetryPolicy}
use broadcast_service.Timers.TimerService.{
  max_ticks_duration, Timer, TimerService, do_add_timer, add_timer_with_id, tick_duration_of, tick,
}
use broadcast_service.Timers.TimerService.Sweeping.{Slots}
use broadcast_service.Timers.TimerService.Keeping.{All-tick_fired, Slots-tick, tick_duration-tick}
use broadcast_service.Timers.TimerService.Shape.{All-write_slot}
use broadcast_service.Timers.BackoffRetry.{BackoffRetryTimer, rearm, fire, fire_all, handle}

-- The longest timeout of each timer is less than a turn of the wheel.
abbrev pub Brief : {C : Type 0} → ℕ → Timer (BackoffRetryTimer C) → Type 0
Brief tick_duration timer = timer.item.retry_policy.max_timeout < max_ticks_duration * tick_duration

pub record Bounded {C : Type 0} (w : TimerService (BackoffRetryTimer C)) : Type 0 where
  pub ticking : 0 < w.tick_duration
  pub brief : Slots (λ s timer. Brief w.tick_duration timer) w

quotient_lt : (a b : ℕ) → 0 < b → a < 1000 * b → a / b < 1000
quotient_lt a b p h = grind arith

-- What arming a timer again may do to the timer service.
abbrev pub Rearmed :
    {C : Type 0}
    → C
    → ℕ
    → RetryPolicy
    → TimerService (BackoffRetryTimer C)
    → TimerService (BackoffRetryTimer C)
    → Type 0
Rearmed callback id policy w m =
    (m ≡ w)
    ⊎ ((ticks : ℕ) × (ticks < max_ticks_duration)
        × (m ≡ do_add_timer (record { callback = callback; retry_policy = policy }) id ticks w))

module _ {C : Type 0} (backoff : ℕ → ℕ) where
  pub rearm_cases :
      (callback : C) (id : ℕ) (policy : RetryPolicy) (w m : TimerService (BackoffRetryTimer C))
      → rearm backoff callback id policy w ≡ some m
      → Rearmed callback id policy w m
  unfolding rearm add_timer_with_id tick_duration_of
  rearm_cases callback id policy w m e = elim (Bool-cases (leb policy.timeout policy.max_timeout)) [
    | inl valid ↦ inr (policy.timeout / w.tick_duration, ground arith, ground arith)
    | inr invalid ↦ inl (ground arith)
  ]

  rearm_total :
      (callback : C) (id : ℕ) (policy : RetryPolicy) (w : TimerService (BackoffRetryTimer C))
      → 0 < w.tick_duration
      → policy.max_timeout < max_ticks_duration * w.tick_duration
      → (m : TimerService (BackoffRetryTimer C)) × (rearm backoff callback id policy w ≡ some m)
  unfolding rearm add_timer_with_id tick_duration_of
  rearm_total callback id policy w p short =
      elim (Bool-cases (leb policy.timeout policy.max_timeout)) [
        | inl valid ↦
            let item : BackoffRetryTimer C = record {
              callback = callback;
              retry_policy = policy;
            } in
            (
              do_add_timer item id (policy.timeout / w.tick_duration) w,
              ground (arith, quotient_lt policy.timeout w.tick_duration p),
            )
        | inr invalid ↦ (w, ground arith)
      ]

  Bounded-add :
      (item : BackoffRetryTimer C) (id ticks : ℕ) (w : TimerService (BackoffRetryTimer C))
      → Bounded w
      → item.retry_policy.max_timeout < max_ticks_duration * w.tick_duration
      → Bounded (do_add_timer item id ticks w)
  unfolding do_add_timer
  Bounded-add item id ticks w b short =
      let t : ℕ = (w.ticks + ticks) % 2 ^ 64 in
      let slot : ℕ = t % max_ticks_duration in
      let timer : Timer (BackoffRetryTimer C) = record { deadline = t; id = id; item = item } in
      record {
        ticking = b.ticking;
        brief = λ s.
            All-write_slot (λ s timer. Brief w.tick_duration timer) slot
              (w.timers slot ++ timer ∷ []) w.timers s
              (All-snoc (Brief w.tick_duration) (w.timers slot) timer (b.brief slot) short)
              (b.brief s);
      }

  tick_duration-add :
      (item : BackoffRetryTimer C) (id ticks : ℕ) (w : TimerService (BackoffRetryTimer C))
      → (do_add_timer item id ticks w).tick_duration ≡ w.tick_duration
  unfolding do_add_timer
  tick_duration-add item id ticks w = refl

  Bounded-Rearmed :
      (callback : C) (id : ℕ) (policy : RetryPolicy) (w m : TimerService (BackoffRetryTimer C))
      → Bounded w
      → policy.max_timeout < max_ticks_duration * w.tick_duration
      → Rearmed callback id policy w m
      → Bounded m × (m.tick_duration ≡ w.tick_duration)
  Bounded-Rearmed callback id policy w m b short (inl e) =
      (subst Bounded (sym e) b, ap (λ v. v.tick_duration) e)
  Bounded-Rearmed callback id policy w m b short (inr (ticks, small, e)) =
      let item : BackoffRetryTimer C = record { callback = callback; retry_policy = policy } in
      (
        subst Bounded (sym e) (Bounded-add item id ticks w b short),
        ap (λ v. v.tick_duration) e ∙ tick_duration-add item id ticks w,
      )

  -- The call of each timer.
  abbrev pub calls_of : List (Timer (BackoffRetryTimer C)) → List (ℕ × C)
  calls_of fired = map (λ timer. (timer.id, timer.item.callback)) fired

  fire_all_total :
      (fired : List (Timer (BackoffRetryTimer C))) (w : TimerService (BackoffRetryTimer C))
      → Bounded w
      → All (Brief w.tick_duration) fired
      → (m : TimerService (BackoffRetryTimer C)) × (fire_all backoff fired w
          ≡ some (calls_of fired, m))
        × Bounded m
  unfolding fire_all fire
  fire_all_total [] w b short = (w, refl, b)
  fire_all_total (timer ∷ fired) w b short =
      let policy : RetryPolicy = RetryPolicy.next backoff timer.item.retry_policy in
      let armed = rearm_total timer.item.callback timer.id policy w b.ticking short.0 in
      let kept =
        Bounded-Rearmed timer.item.callback timer.id policy w armed.0 b short.0
          (rearm_cases timer.item.callback timer.id policy w armed.0 armed.1) in
      let rest =
        fire_all_total fired armed.0 kept.0
          (subst (λ t. All (Brief t) fired) (sym kept.1) short.1) in
      (rest.0, rw (armed.1, rest.1) refl, rest.2)

  -- While each timer's longest timeout is less than a turn of the wheel, a wake-up aborts at no
  -- assertion, calls the callback of each fired timer once and in order, and keeps the bound.
  pub handle-calls_of :
      (elapsed : ℕ) (w : TimerService (BackoffRetryTimer C))
      → Bounded w
      → (m : TimerService (BackoffRetryTimer C)) × (handle backoff elapsed w
          ≡ some (calls_of (tick elapsed w).1.0, m))
        × Bounded m
  unfolding handle
  handle-calls_of elapsed w b =
      let e = tick_duration-tick elapsed w in
      let short : Slots (λ s timer. Brief w.tick_duration timer) (tick elapsed w).1.1 =
        Slots-tick (λ s timer. Brief w.tick_duration timer) elapsed w b.brief in
      fire_all_total (tick elapsed w).1.0 (tick elapsed w).1.1
        (record {
          ticking = subst (λ t. 0 < t) (sym e) b.ticking;
          brief = subst (λ t. Slots (λ s timer. Brief t timer) (tick elapsed w).1.1) (sym e) short;
        })
        (subst (λ t. All (Brief t) (tick elapsed w).1.0) (sym e)
          (All-tick_fired (Brief w.tick_duration) elapsed w b.brief))
