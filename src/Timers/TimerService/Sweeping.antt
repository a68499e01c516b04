-- ===== src/Timers/TimerService/Sweeping.antt =====
-- The slots that the hand of the wheel passes, and what it takes out of them.
use broadcast_service.Base.{
  ℕ, zero, suc, ◌+◌, ◌-◌, ◌%◌, ◌<◌, ◌≡◌, ◌≢◌, refl, ap, Bool, false, ◌||◌, ◌&&◌, List, [], ◌∷◌,
  ◌++◌, arith, nat_eq, ◌==◌, if◌then◌else◌, leb, All,
}
use broadcast_service.Timers.TimerService.{
  max_ticks_duration, Timer, TimerService, write_slot, advance_slot, expire, expire_slot, sweep,
}
use broadcast_service.Timers.TimerService.Counting.{count, count-append, count-expire}

-- Whether the hand, `elapsed` slots on, has passed `target`.
pub visits : ℕ → ℕ → ℕ → Bool
visits slot zero target = false
visits slot (suc elapsed) target =
    let slot' : ℕ = if slot + 1 == max_ticks_duration then 0 else slot + 1 in
    slot' == target || visits slot' elapsed target

-- How far ahead of the hand a slot is, the hand's own slot being a whole turn ahead.
abbrev pub ahead : ℕ → ℕ → ℕ
ahead slot target = (target + 999 - slot) % 1000 + 1

pub visits-ahead :
    (slot elapsed target : ℕ)
    → slot < 1000
    → target < 1000
    → visits slot elapsed target ≡ leb (ahead slot target) elapsed
unfolding visits
visits-ahead slot zero target h k = ground arith
visits-ahead slot (suc elapsed) target h k =
    let slot' : ℕ = if slot + 1 == 1000 then 0 else slot + 1 in
    let bound : slot' < 1000 = ground arith in
    ground (arith, visits-ahead slot' elapsed target bound k)

module _ {A : Type 0} where
  -- A predicate on the timers of each slot.
  abbrev pub Slots : (ℕ → Timer A → Type 0) → TimerService A → Type 0
  Slots P w = (s : ℕ) → All (P s) (w.timers s)

  pub All-expire :
      (P : Timer A → Type 0) (ticks : ℕ) (xs expired remaining : List (Timer A))
      → All P xs
      → All P expired
      → All P remaining
      → All P (expire ticks xs expired remaining).0 × All P (expire ticks xs expired remaining).1
  unfolding expire
  All-expire P ticks [] expired remaining h e r = (e, r)
  All-expire P ticks (x ∷ xs) expired remaining h e r =
      All-expire P ticks xs (if leb x.deadline ticks then x ∷ expired else expired)
        (if leb x.deadline ticks then remaining else x ∷ remaining) h.1 (ground (arith, h.0, e))
        (ground (arith, h.0, r))

  pub Slots-expire_slot :
      (P : ℕ → Timer A → Type 0) (w : TimerService A) → Slots P w → Slots P (expire_slot w).1
  unfolding expire_slot write_slot
  Slots-expire_slot P w h s =
      let kept = All-expire (P w.slot) w.ticks (w.timers w.slot) [] [] (h w.slot) tt tt in
      ground (arith, h s, kept.1)

  pub Slots-sweep :
      (P : ℕ → Timer A → Type 0) (elapsed : ℕ) (w : TimerService A) (expired : List (Timer A))
      → Slots P w
      → Slots P (sweep elapsed w expired).1
  unfolding sweep advance_slot
  Slots-sweep P zero w expired h = h
  Slots-sweep P (suc elapsed) w expired h =
      let r = expire_slot (advance_slot w) in
      Slots-sweep P elapsed r.1 (expired ++ r.0) (Slots-expire_slot P (advance_slot w) h)

-- A timer of this id has this deadline, and stands in its slot.
abbrev pub Due : {A : Type 0} → ℕ → ℕ → ℕ → Timer A → Type 0
Due i d s timer = timer.id ≡ i → (timer.deadline ≡ d) × (d % max_ticks_duration ≡ s)

module _ {A : Type 0} (i d : ℕ) where
  count-elsewhere :
      (s : ℕ) (xs : List (Timer A))
      → All (Due i d s) xs
      → s ≢ d % max_ticks_duration
      → count i xs ≡ 0
  unfolding count
  count-elsewhere s [] h ne = refl
  count-elsewhere s (x ∷ xs) h ne = ground (arith, h.0, count-elsewhere s xs h.1)

  All-deadline :
      (s : ℕ) (xs : List (Timer A))
      → All (Due i d s) xs
      → All (λ timer. timer.id ≡ i → timer.deadline ≡ d) xs
  All-deadline s [] h = tt
  All-deadline s (x ∷ xs) h = (λ e. (h.0 e).0, All-deadline s xs h.1)

  -- One step of the hand takes the timers out if it comes to their slot and they are due.
  count-expire_slot :
      (w : TimerService A)
      → Slots (Due i d) w
      → let target : ℕ = d % max_ticks_duration in
        let taken = w.slot == target && leb d w.ticks in
        (count i (expire_slot w).0 ≡ (if taken then count i (w.timers target) else 0))
        × (count i ((expire_slot w).1.timers target)
            ≡ (if taken then 0 else count i (w.timers target)))
  unfolding expire_slot write_slot count
  count-expire_slot w h =
      let at = λ (s : ℕ) (e : s ≡ d % max_ticks_duration). ap (λ (s : ℕ). count i (w.timers s)) e in
      let counted =
        count-expire i w.ticks d (w.timers w.slot) [] []
          (All-deadline w.slot (w.timers w.slot) (h w.slot)) in
      ground (
        arith,
        counted.0,
        counted.1,
        count-elsewhere w.slot (w.timers w.slot) (h w.slot),
        at w.slot,
      )

  slot-expire_slot : (w : TimerService A) → (expire_slot w).1.slot ≡ w.slot
  unfolding expire_slot
  slot-expire_slot w = refl

  ticks-expire_slot : (w : TimerService A) → (expire_slot w).1.ticks ≡ w.ticks
  unfolding expire_slot
  ticks-expire_slot w = refl

  pub count-sweep :
      (elapsed : ℕ) (w : TimerService A) (expired : List (Timer A))
      → Slots (Due i d) w
      → let target : ℕ = d % max_ticks_duration in
        let taken = visits w.slot elapsed target && leb d w.ticks in
        (count i (sweep elapsed w expired).0
          ≡ count i expired + (if taken then count i (w.timers target) else 0))
        × (count i ((sweep elapsed w expired).1.timers target)
            ≡ (if taken then 0 else count i (w.timers target)))
  unfolding sweep advance_slot visits
  count-sweep zero w expired h = ground arith
  count-sweep (suc elapsed) w expired h =
      let w' = advance_slot w in
      let r = expire_slot w' in
      let here = count-expire_slot w' h in
      let rest = count-sweep elapsed r.1 (expired ++ r.0) (Slots-expire_slot (Due i d) w' h) in
      ground (
        arith,
        here.0,
        here.1,
        rest.0,
        rest.1,
        count-append i expired r.0,
        ap (λ (s : ℕ). visits s elapsed (d % max_ticks_duration)) (slot-expire_slot w'),
        ticks-expire_slot w',
      )
