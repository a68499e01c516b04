-- ===== src/Timers/BackoffRetry/Muting.antt =====
-- Wheels that hold no timer of an id, or one that is still to come and cancelled.
use broadcast_service.Base.{
  All-snoc, ℕ, ◌+◌, ◌%◌, ◌^◌, ◌<◌, ◌≡◌, ◌≢◌, refl, ap, ◌∙◌, ◌⊎◌, inl, inr, true, [], ◌∷◌, ◌++◌,
  arith, nat_eq, contains, leb, Bool-cases,
}
use broadcast_service.Transport.RetryPolicy.{}
use broadcast_service.Timers.TimerService.{
  max_ticks_duration, Timer, TimerService, do_add_timer, write_slot, sweep, tick,
}
use broadcast_service.Timers.TimerService.Counting.{count, count-append, count-sort_out}
use broadcast_service.Timers.TimerService.Sweeping.{Slots, count-sweep}
use broadcast_service.Timers.TimerService.Keeping.{Slots-tick}
use broadcast_service.Timers.TimerService.Shape.{
  IsValid, All-write_slot, IsValid-do_add_timer, IsValid-tick, ticks-sweep,
}
use broadcast_service.Timers.TimerService.Ticking.{Due-of_Placed, tick-count}
use broadcast_service.Timers.BackoffRetry.{}
use broadcast_service.Timers.BackoffRetry.Rearming.{}

-- No timer with the id is left, or one that is still to come and cancelled.
abbrev pub Quiet : {A : Type 0} → ℕ → ℕ → TimerService A → Type 0
Quiet i d w =
    let n : ℕ = count i (w.timers (d % max_ticks_duration)) in
    (n ≡ 0) ⊎ ((n ≡ 1) × (w.ticks < d) × (contains i w.cancelled_timers ≡ true))

pub record Muted {A : Type 0} (i d : ℕ) (w : TimerService A) : Type 0 where
  pub valid : IsValid w
  pub same : Slots (λ s timer. timer.id ≡ i → timer.deadline ≡ d) w
  pub quiet : Quiet i d w

module _ {A : Type 0} (i d : ℕ) where
  -- Without a timer of the id, none of them is fired.
  tick_none :
      (elapsed : ℕ) (w : TimerService A)
      → IsValid w
      → Slots (λ s timer. timer.id ≡ i → timer.deadline ≡ d) w
      → count i (w.timers (d % max_ticks_duration)) ≡ 0
      → (count i (tick elapsed w).1.0 ≡ 0)
        × (count i ((tick elapsed w).1.1.timers (d % max_ticks_duration)) ≡ 0)
  unfolding tick count
  tick_none elapsed w v same n =
      let now : TimerService A = record w { ticks = (w.ticks + elapsed) % 2 ^ 64 } in
      let counted = count-sweep i d elapsed now [] (Due-of_Placed i d w v same) in
      let sorted = count-sort_out i (sweep elapsed now []).0 w.cancelled_timers [] [] in
      ground (arith, counted.0, counted.1, sorted.1)

  pub ticks-tick :
      (elapsed : ℕ) (w : TimerService A)
      → w.ticks + elapsed < 2 ^ 64
      → (tick elapsed w).1.1.ticks ≡ w.ticks + elapsed
  unfolding tick
  ticks-tick elapsed w fits =
      omega (arith, ticks-sweep elapsed (record w { ticks = (w.ticks + elapsed) % 2 ^ 64 }) [])

  pub Muted-tick :
      (elapsed : ℕ) (w : TimerService A)
      → Muted i d w
      → w.ticks + elapsed < 2 ^ 64
      → Muted i d (tick elapsed w).1.1 × (count i (tick elapsed w).1.0 ≡ 0)
  Muted-tick elapsed w m fits = (
    record {
      valid = IsValid-tick elapsed w m.valid fits;
      same = Slots-tick (λ s timer. timer.id ≡ i → timer.deadline ≡ d) elapsed w m.same;
      quiet = outcome.0;
    },
    outcome.1,
  )
    where
      outcome : Quiet i d (tick elapsed w).1.1 × (count i (tick elapsed w).1.0 ≡ 0)
      outcome = elim m.quiet [
        | inl n ↦
            (inl (tick_none elapsed w m.valid m.same n).1, (tick_none elapsed w m.valid m.same n).0)
        | inr (n, later, cancelled) ↦
            let fate = tick-count i d elapsed w m.valid m.same (omega arith) fits in
            let now = ticks-tick elapsed w fits in
            elim (Bool-cases (leb d (w.ticks + elapsed))) [
              | inl due ↦ (inl (ground (arith, fate.2)), ground (arith, fate.1))
              | inr not_due ↦ (
                inr (ground (arith, fate.2), ground (arith, now), ground (arith, fate.3)),
                ground (arith, fate.1),
              )
            ]
      ]

  count-add :
      (item : A) (id ticks s : ℕ) (w : TimerService A)
      → id ≢ i
      → count i ((do_add_timer item id ticks w).timers s) ≡ count i (w.timers s)
  unfolding do_add_timer write_slot count
  count-add item id ticks s w other =
      let t : ℕ = (w.ticks + ticks) % 2 ^ 64 in
      let slot : ℕ = t % max_ticks_duration in
      let timer : Timer A = record { deadline = t; id = id; item = item } in
      let at = λ (s : ℕ) (e : s ≡ slot). ap (λ (s : ℕ). count i (w.timers s)) e in
      ground (arith, count-append i (w.timers slot) (timer ∷ []), at s)

  Same-add :
      (item : A) (id ticks : ℕ) (w : TimerService A)
      → Slots (λ s timer. timer.id ≡ i → timer.deadline ≡ d) w
      → id ≢ i
      → Slots (λ s timer. timer.id ≡ i → timer.deadline ≡ d) (do_add_timer item id ticks w)
  unfolding do_add_timer
  Same-add item id ticks w same other s =
      let t : ℕ = (w.ticks + ticks) % 2 ^ 64 in
      let slot : ℕ = t % max_ticks_duration in
      let timer : Timer A = record { deadline = t; id = id; item = item } in
      All-write_slot (λ s timer. timer.id ≡ i → timer.deadline ≡ d) slot
        (w.timers slot ++ timer ∷ []) w.timers s
        (All-snoc (λ timer. timer.id ≡ i → timer.deadline ≡ d) (w.timers slot) timer (same slot)
          (λ e. absurd (other e)))
        (same s)

  pub Muted-add :
      (item : A) (id ticks : ℕ) (w : TimerService A)
      → Muted i d w
      → id ≢ i
      → ticks < max_ticks_duration
      → w.ticks + max_ticks_duration < 2 ^ 64
      → Muted i d (do_add_timer item id ticks w)
  unfolding do_add_timer
  Muted-add item id ticks w m other small fits =
      let counted = count-add item id ticks (d % max_ticks_duration) w other in
      record {
        valid = IsValid-do_add_timer item id ticks w m.valid small (omega arith);
        same = Same-add item id ticks w m.same other;
        quiet = elim m.quiet [
          | inl n ↦ inl (counted ∙ n)
          | inr (n, later, cancelled) ↦ inr (counted ∙ n, later, cancelled)
        ];
      }

  pub ticks-add :
      (item : A) (id ticks : ℕ) (w : TimerService A)
      → (do_add_timer item id ticks w).ticks ≡ w.ticks
  unfolding do_add_timer
  ticks-add item id ticks w = refl
