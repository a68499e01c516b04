-- ===== src/Timers/TimerService/Keeping.antt =====
-- Properties of the timers that a tick keeps.
use broadcast_service.Base.{
  ℕ, zero, suc, ◌+◌, ◌%◌, ◌^◌, ◌≡◌, refl, List, [], ◌∷◌, ◌++◌, arith, nat_eq, contains,
  if◌then◌else◌, All,
}
use broadcast_service.Util.HashSet
use broadcast_service.Timers.TimerService.{
  Timer, TimerService, advance_slot, expire_slot, sweep, sort_out, tick,
}
use broadcast_service.Timers.TimerService.Sweeping.{
  Slots, All-expire, Slots-expire_slot, Slots-sweep,
}

module _ {A : Type 0} where
  All-append :
      (P : Timer A → Type 0) (xs ys : List (Timer A)) → All P xs → All P ys → All P (xs ++ ys)
  All-append P [] ys h k = k
  All-append P (x ∷ xs) ys h k = (h.0, All-append P xs ys h.1 k)

  -- What is taken out of the wheel was in it.
  pub All-sweep :
      (P : Timer A → Type 0) (elapsed : ℕ) (w : TimerService A) (expired : List (Timer A))
      → Slots (λ s. P) w
      → All P expired
      → All P (sweep elapsed w expired).0
  unfolding sweep advance_slot expire_slot
  All-sweep P zero w expired h e = e
  All-sweep P (suc elapsed) w expired h e =
      let w' = advance_slot w in
      let r = expire_slot w' in
      let out = All-expire P w'.ticks (w'.timers w'.slot) [] [] (h w'.slot) tt tt in
      All-sweep P elapsed r.1 (expired ++ r.0) (Slots-expire_slot (λ s. P) w' h)
        (All-append P expired r.0 e out.0)

  pub All-sort_out :
      (P : Timer A → Type 0) (xs : List (Timer A)) (ids : List ℕ) (cancelled fired : List (Timer A))
      → All P xs
      → All P fired
      → All P (sort_out xs ids cancelled fired).1.0
  unfolding sort_out
  All-sort_out P [] ids cancelled fired h k = k
  All-sort_out P (x ∷ xs) ids cancelled fired h k =
      let found = contains x.id ids in
      All-sort_out P xs (if found then HashSet.erase x.id ids else ids)
        (if found then cancelled ++ x ∷ [] else cancelled)
        (if found then fired else fired ++ x ∷ []) h.1
        (ground (arith, k, All-append P fired (x ∷ []) k (h.0, tt)))

  pub All-tick_fired :
      (P : Timer A → Type 0) (elapsed : ℕ) (w : TimerService A)
      → Slots (λ s. P) w
      → All P (tick elapsed w).1.0
  unfolding tick
  All-tick_fired P elapsed w h =
      let now : TimerService A = record w { ticks = (w.ticks + elapsed) % 2 ^ 64 } in
      All-sort_out P (sweep elapsed now []).0 w.cancelled_timers [] []
        (All-sweep P elapsed now [] h tt) tt

  pub Slots-tick :
      (P : ℕ → Timer A → Type 0) (elapsed : ℕ) (w : TimerService A)
      → Slots P w
      → Slots P (tick elapsed w).1.1
  unfolding tick
  Slots-tick P elapsed w h =
      Slots-sweep P elapsed (record w { ticks = (w.ticks + elapsed) % 2 ^ 64 }) [] h

  tick_duration-sweep :
      (elapsed : ℕ) (w : TimerService A) (expired : List (Timer A))
      → (sweep elapsed w expired).1.tick_duration ≡ w.tick_duration
  unfolding sweep advance_slot expire_slot
  tick_duration-sweep zero w expired = refl
  tick_duration-sweep (suc elapsed) w expired =
      let r = expire_slot (advance_slot w) in tick_duration-sweep elapsed r.1 (expired ++ r.0)

  pub tick_duration-tick :
      (elapsed : ℕ) (w : TimerService A) → (tick elapsed w).1.1.tick_duration ≡ w.tick_duration
  unfolding tick
  tick_duration-tick elapsed w =
      tick_duration-sweep elapsed (record w { ticks = (w.ticks + elapsed) % 2 ^ 64 }) []
