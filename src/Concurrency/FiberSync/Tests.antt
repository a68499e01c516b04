-- ===== src/Concurrency/FiberSync/Tests.antt =====
-- A group of two, and a mutex with three fibers.
use broadcast_service.Base.{ℕ, ◌≡◌, refl, true, false, some, [], ◌∷◌, ◌++◌, arith, nat_eq}
use broadcast_service.Concurrency.FiberSync.{
  new_event, new_mutex, lock, unlock, hand_over, add, done, wait_group, wait, done_thread,
}
use broadcast_service.Concurrency.FiberSync.Fairness.{
  System, start, locks, unlocks, awakes, initial, locking, unlocking, Held, Reachable-granted,
}
use broadcast_service.Concurrency.FiberSync.WakeUps.{
  wait_all, done_times, new_group, done_times-wait_all,
}

done_times-wait_all_example :
    ((done_times 1 (wait_all (7 ∷ 9 ∷ []) (add 2 new_group))).0 ≡ [])
    × ((done_times 2 (wait_all (7 ∷ 9 ∷ []) (add 2 new_group))).0 ≡ (7 ∷ 9 ∷ []))
    × ((fiber : ℕ)
        → (wait_group fiber (done_times 2 (wait_all (7 ∷ 9 ∷ []) (add 2 new_group))).1).0 ≡ true)
done_times-wait_all_example = done_times-wait_all 1 (7 ∷ 9 ∷ []) (omega arith)

-- `Done(2)` on a group of two awakes nobody.
done_two : (done 2 (wait_all (7 ∷ []) (add 2 new_group))).0 ≡ []
unfolding done wait_all add new_group new_event wait_group wait
done_two = refl

done_thread_two : (done_thread 2 2 ≡ (true, 0)) × (done_thread 1 2 ≡ (false, 1))
unfolding done_thread
done_thread_two = (refl, refl)

abbrev three : System
three = locks 9 (locks 8 (locks 7 start))

three_locks : (three.holder ≡ some 7) × ((unlocks three).holder ≡ some 8)
unfolding locks lock start new_mutex unlocks unlock hand_over awakes
three_locks = (refl, refl)

Reachable-granted_example :
    ((unlocks three).granted ++ (unlocks three).mutex.sleepers ≡ (unlocks three).called)
    × Held (unlocks three).holder (unlocks three).mutex
Reachable-granted_example =
    Reachable-granted (unlocks three)
      (unlocking 7 (locking 9 (locking 8 (locking 7 initial))) three_locks.0)
