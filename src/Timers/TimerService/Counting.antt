-- ===== src/Timers/TimerService/Counting.antt =====
-- How many timers of a list have a given id.
use broadcast_service.Base.{
  ℕ, ◌+◌, ◌-◌, ◌≡◌, false, List, [], ◌∷◌, ◌++◌, arith, nat_eq, ◌==◌, contains, if◌then◌else◌, leb,
  All,
}
use broadcast_service.Util.HashSet
use broadcast_service.Timers.TimerService.{Timer, expire, sort_out}

module _ {A : Type 0} (i : ℕ) where
  unfoldable pub count : List (Timer A) → ℕ
  count [] = 0
  count (timer ∷ timers) = (if timer.id == i then 1 else 0) + count timers

  pub count-append : (xs ys : List (Timer A)) → count (xs ++ ys) ≡ count xs + count ys
  unfolding count
  count-append [] ys = omega arith
  count-append (x ∷ xs) ys = ground (arith, count-append xs ys)

  -- Of a slot whose timers with the id have one deadline, all of them expire or none.
  pub count-expire :
      (ticks d : ℕ) (xs expired remaining : List (Timer A))
      → All (λ timer. timer.id ≡ i → timer.deadline ≡ d) xs
      → (count (expire ticks xs expired remaining).0
          ≡ count expired + (if leb d ticks then count xs else 0))
        × (count (expire ticks xs expired remaining).1
            ≡ count remaining + (if leb d ticks then 0 else count xs))
  unfolding count expire
  count-expire ticks d [] expired remaining h = ground arith
  count-expire ticks d (x ∷ xs) expired remaining h = ground (
    arith,
    h.0,
    count-expire ticks d xs (if leb x.deadline ticks then x ∷ expired else expired)
        (if leb x.deadline ticks then remaining else x ∷ remaining) h.1,
  )

  -- One timer with a cancelled id is cancelled, and the others are fired.
  pub count-sort_out :
      (xs : List (Timer A)) (ids : List ℕ) (cancelled fired : List (Timer A))
      → (count (sort_out xs ids cancelled fired).0
          ≡ count cancelled + (if contains i ids then (if count xs == 0 then 0 else 1) else 0))
        × (count (sort_out xs ids cancelled fired).1.0
            ≡ count fired + (if contains i ids then count xs - 1 else count xs))
        × (contains i (sort_out xs ids cancelled fired).1.1
            ≡ (if count xs == 0 then contains i ids else false))
  unfolding count sort_out
  count-sort_out [] ids cancelled fired = ground arith
  count-sort_out (x ∷ xs) ids cancelled fired =
      let found = contains x.id ids in
      ground (
        arith,
        HashSet.contains-erase x.id i ids,
        count-append cancelled (x ∷ []),
        count-append fired (x ∷ []),
        count-sort_out xs (if found then HashSet.erase x.id ids else ids)
            (if found then cancelled ++ x ∷ [] else cancelled)
            (if found then fired else fired ++ x ∷ []),
      )
