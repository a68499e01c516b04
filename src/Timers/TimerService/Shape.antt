-- ===== src/Timers/TimerService/Shape.antt =====
-- The shape of the wheel: where its timers and its hand stand.
use broadcast_service.Base.{
  ℕ, zero, suc, ◌+◌, ◌%◌, ◌^◌, ◌<◌, ◌≡◌, refl, some, List, [], ◌∷◌, ◌++◌, arith, nat_eq, contains,
  if◌then◌else◌, All, All-map, All-snoc, Distinct, Option-cases, inl, inr, subst, sym, ap,
  append_assoc, append-nil,
}
use broadcast_service.Util.HashSet
use broadcast_service.Timers.TimerService.{
  max_ticks_duration, Timer, TimerService, init, write_slot, do_add_timer, tick_duration_of,
  add_timer, add_timer_with_id, cancel_timer, get_id, expire_slot, advance_slot, sweep, sort_out,
  tick, stop_rounds, stop,
}
use broadcast_service.Timers.TimerService.Counting.{}
use broadcast_service.Timers.TimerService.Sweeping.{Slots, Slots-sweep}

-- A timer stands in the slot of its deadline, which is less than a turn of the wheel ahead.
abbrev pub Placed : {A : Type 0} → ℕ → ℕ → Timer A → Type 0
Placed ticks s timer =
    (timer.deadline % max_ticks_duration ≡ s) × (timer.deadline < ticks + max_ticks_duration)

pub record IsValid {A : Type 0} (w : TimerService A) : Type 0 where
  pub hand : w.slot ≡ w.ticks % max_ticks_duration
  pub placed : Slots (Placed w.ticks) w
  pub distinct : Distinct w.cancelled_timers

module _ {A : Type 0} where
  pub All-write_slot :
      (P : ℕ → Timer A → Type 0) (slot : ℕ) (list : List (Timer A)) (timers : ℕ → List (Timer A))
      (s : ℕ)
      → All (P slot) list
      → All (P s) (timers s)
      → All (P s) (write_slot slot list timers s)
  unfolding write_slot
  All-write_slot P slot list timers s h k = ground (arith, h, k)

  Distinct-sort_out :
      (xs : List (Timer A)) (ids : List ℕ) (cancelled fired : List (Timer A))
      → Distinct ids
      → Distinct (sort_out xs ids cancelled fired).1.1
  unfolding sort_out
  Distinct-sort_out [] ids cancelled fired d = d
  Distinct-sort_out (x ∷ xs) ids cancelled fired d =
      let found = contains x.id ids in
      Distinct-sort_out xs (if found then HashSet.erase x.id ids else ids)
        (if found then cancelled ++ x ∷ [] else cancelled)
        (if found then fired else fired ++ x ∷ [])
        (ground (arith, d, HashSet.Distinct-erase x.id ids d))

  slot-sweep :
      (elapsed k : ℕ) (w : TimerService A) (expired : List (Timer A))
      → w.slot ≡ k % max_ticks_duration
      → (sweep elapsed w expired).1.slot ≡ (k + elapsed) % max_ticks_duration
  unfolding sweep advance_slot expire_slot
  slot-sweep zero k w expired e = ground arith
  slot-sweep (suc elapsed) k w expired e =
      let r = expire_slot (advance_slot w) in
      ground (arith, slot-sweep elapsed (k + 1) r.1 (expired ++ r.0) (ground arith))

  pub ticks-sweep :
      (elapsed : ℕ) (w : TimerService A) (expired : List (Timer A))
      → (sweep elapsed w expired).1.ticks ≡ w.ticks
  unfolding sweep advance_slot expire_slot
  ticks-sweep zero w expired = refl
  ticks-sweep (suc elapsed) w expired =
      let r = expire_slot (advance_slot w) in ticks-sweep elapsed r.1 (expired ++ r.0)

  cancelled-sweep :
      (elapsed : ℕ) (w : TimerService A) (expired : List (Timer A))
      → (sweep elapsed w expired).1.cancelled_timers ≡ w.cancelled_timers
  unfolding sweep advance_slot expire_slot
  cancelled-sweep zero w expired = refl
  cancelled-sweep (suc elapsed) w expired =
      let r = expire_slot (advance_slot w) in cancelled-sweep elapsed r.1 (expired ++ r.0)

  pub IsValid-init : (tick_duration : ℕ) → IsValid {A = A} (init tick_duration)
  unfolding init
  IsValid-init tick_duration = record { hand = refl; placed = λ s. tt; distinct = tt }

  pub IsValid-do_add_timer :
      (item : A) (id ticks : ℕ) (w : TimerService A)
      → IsValid w
      → ticks < max_ticks_duration
      → w.ticks + ticks < 2 ^ 64
      → IsValid (do_add_timer item id ticks w)
  unfolding do_add_timer write_slot
  IsValid-do_add_timer item id ticks w v small fits =
      let t : ℕ = (w.ticks + ticks) % 2 ^ 64 in
      let timer : Timer A = record { deadline = t; id = id; item = item } in
      record {
        hand = v.hand;
        placed = λ s.
            let slot : ℕ = t % max_ticks_duration in
            All-write_slot (Placed w.ticks) slot (w.timers slot ++ timer ∷ []) w.timers s
              (All-snoc (Placed w.ticks slot) (w.timers slot) timer (v.placed slot)
                (refl, omega arith))
              (v.placed s);
        distinct = v.distinct;
      }

  pub IsValid-tick :
      (elapsed : ℕ) (w : TimerService A)
      → IsValid w
      → w.ticks + elapsed < 2 ^ 64
      → IsValid (tick elapsed w).1.1
  unfolding tick
  IsValid-tick elapsed w v fits =
      let now : ℕ = (w.ticks + elapsed) % 2 ^ 64 in
      let start : TimerService A = record w { ticks = now } in
      let swept = sweep elapsed start [] in
      let e : swept.1.ticks ≡ w.ticks + elapsed = omega (arith, ticks-sweep elapsed start []) in
      record {
        hand = omega (arith, e, slot-sweep elapsed w.ticks start [] v.hand);
        placed = λ s.
            All-map (Placed w.ticks s) (Placed swept.1.ticks s) (swept.1.timers s)
              (λ timer p. (p.0, omega (arith, e, p.1)))
              (Slots-sweep (Placed w.ticks) elapsed start [] v.placed s);
        distinct = Distinct-sort_out swept.0 w.cancelled_timers [] [] v.distinct;
      }

module _ {A : Type 0} where
  pub sweep-stop_rounds :
      (rounds : ℕ) (w : TimerService A) (expired : List (Timer A))
      → sweep rounds w expired ≡ (expired ++ (stop_rounds rounds w).0, (stop_rounds rounds w).1)
  unfolding sweep stop_rounds
  sweep-stop_rounds zero w expired = rw (append-nil expired) refl
  sweep-stop_rounds (suc rounds) w expired =
      let r = expire_slot (advance_slot w) in
      rw (sweep-stop_rounds rounds r.1 (expired ++ r.0), append_assoc) refl

  -- `Stop` turns the hand once, and takes timers out.
  IsValid-stop : (w : TimerService A) → IsValid w → IsValid (stop w).1
  unfolding stop
  IsValid-stop w v =
      let same : (sweep max_ticks_duration w []).1 ≡ (stop w).1 =
        ap (λ r. r.1) (sweep-stop_rounds max_ticks_duration w []) in
      let swept = sweep max_ticks_duration w [] in
      let e = ticks-sweep max_ticks_duration w [] in
      subst IsValid (same) (record {
        hand = omega (arith, e, slot-sweep max_ticks_duration w.ticks w [] v.hand);
        placed = λ s.
            All-map (Placed w.ticks s) (Placed swept.1.ticks s) (swept.1.timers s)
              (λ timer p. (p.0, omega (arith, e, p.1)))
              (Slots-sweep (Placed w.ticks) max_ticks_duration w [] v.placed s);
        distinct = subst Distinct (sym (cancelled-sweep max_ticks_duration w [])) v.distinct;
      })

-- The states that the operations lead to, while the count of ticks does not wrap around.
pub data Reachable {A : Type 0} : TimerService A → Type 0 where
  start : (tick_duration : ℕ) → Reachable (init tick_duration)
  get : {w : TimerService A} → Reachable w → Reachable (get_id w).1
  add :
      {w w' : TimerService A} (item : A) (id duration : ℕ)
      → Reachable w
      → w.ticks + max_ticks_duration < 2 ^ 64
      → add_timer item duration w ≡ some (id, w')
      → Reachable w'
  add_with_id :
      {w w' : TimerService A} (item : A) (id duration : ℕ)
      → Reachable w
      → w.ticks + max_ticks_duration < 2 ^ 64
      → add_timer_with_id item id duration w ≡ some w'
      → Reachable w'
  cancel : {w : TimerService A} (id : ℕ) → Reachable w → Reachable (cancel_timer id w)
  ticked :
      {w : TimerService A} (elapsed : ℕ)
      → Reachable w
      → w.ticks + elapsed < 2 ^ 64
      → Reachable (tick elapsed w).1.1
  stopped : {w : TimerService A} → Reachable w → Reachable (stop w).1

module _ {A : Type 0} where
  tick_duration_of_bound :
      (duration ticks : ℕ) (w : TimerService A)
      → tick_duration_of duration w ≡ some ticks
      → ticks < max_ticks_duration
  unfolding tick_duration_of
  tick_duration_of_bound duration ticks w e = ground arith

  IsValid-set_id :
      (id : ℕ) (w : TimerService A) → IsValid w → IsValid (record w { current_id = id })
  IsValid-set_id id w v = record { hand = v.hand; placed = v.placed; distinct = v.distinct }

  -- However timers are added, cancelled, ticked and the service stopped, while its count of ticks stays below 2 ^ 64 - 1000, its hand
  -- is at the slot of the present tick, each timer stands in the slot of its deadline, each
  -- deadline is less than a turn of the wheel ahead, and no id is cancelled twice.
  pub Reachable-IsValid : (w : TimerService A) → Reachable w → IsValid w
  unfolding get_id cancel_timer add_timer_with_id add_timer
  Reachable-IsValid w (start tick_duration) = IsValid-init tick_duration
  Reachable-IsValid w (get {w = v} r) =
      let i = Reachable-IsValid v r in
      record { hand = i.hand; placed = i.placed; distinct = i.distinct }
  Reachable-IsValid w (add {w = v} item id duration r fits e) =
      elim (Option-cases (tick_duration_of duration v)) [
        | inl n ↦ absurd (ground arith)
        | inr (ticks, s) ↦
            let small = tick_duration_of_bound duration ticks v s in
            let next : ℕ = (v.current_id + 1) % 2 ^ 64 in
            let made = do_add_timer item v.current_id ticks v in
            let same : record made { current_id = next } ≡ w = ground arith in
            subst IsValid (same) (
              IsValid-set_id next made (
                IsValid-do_add_timer item v.current_id ticks v (Reachable-IsValid v r) small
                  (omega arith)))
      ]
  Reachable-IsValid w (add_with_id {w = v} item id duration r fits e) =
      elim (Option-cases (tick_duration_of duration v)) [
        | inl n ↦ absurd (ground arith)
        | inr (ticks, s) ↦
            let small = tick_duration_of_bound duration ticks v s in
            let same : do_add_timer item id ticks v ≡ w = ground arith in
            subst IsValid (same)
              (IsValid-do_add_timer item id ticks v (Reachable-IsValid v r) small (omega arith))
      ]
  Reachable-IsValid w (cancel {w = v} id r) =
      let i = Reachable-IsValid v r in
      record {
        hand = i.hand;
        placed = i.placed;
        distinct = HashSet.Distinct-insert id v.cancelled_timers i.distinct;
      }
  Reachable-IsValid w (ticked {w = v} elapsed r fits) =
      IsValid-tick elapsed v (Reachable-IsValid v r) fits
  Reachable-IsValid w (stopped {w = v} r) = IsValid-stop v (Reachable-IsValid v r)
