-- ===== src/Concurrency/ThreadPool/Tests.antt =====
-- One task, and one that comes after the stop.
use broadcast_service.Base.{ℕ, ◌≡◌, refl, [], ◌∷◌, ◌++◌, arith, nat_eq}
use broadcast_service.Concurrency.FiberSync.{add_thread, done_thread}
use broadcast_service.Concurrency.Queue
use broadcast_service.Concurrency.ThreadPool.{
  ThreadPool, init, add, put, given, take, done, signal_stop,
}
use broadcast_service.Concurrency.ThreadPool.Pending.{
  Reachable, initial, adds, puts, takes, dones, stops, Reachable-taken,
}

abbrev accepting : ThreadPool ℕ
accepting = put 7 (add init)

abbrev refusing : ThreadPool ℕ
refusing = put 8 (add (signal_stop accepting))

abbrev through : ThreadPool ℕ
through = done (done (take refusing))

counts :
    (init {T = ℕ}).pending_tasks ≡ 0
    × ((add (init {T = ℕ})).adding ≡ 1)
    × ((signal_stop accepting).pending_tasks ≡ 1)
    × ((add (signal_stop accepting)).adding ≡ 1)
    × ((take refusing).owing ≡ 2)
    × ((done (take refusing)).owing ≡ 1)
    × (through.pending_tasks ≡ 0)
    × (through.taken ≡ 7 ∷ [])
unfolding init add put given take done signal_stop add_thread done_thread Queue.init Queue.put
    Queue.take Queue.take_front Queue.waits Queue.close
counts = (refl, refl, refl, refl, refl, refl, refl, refl)

through-Reachable : Reachable through
through-Reachable =
    dones
      (dones
        (takes (
          puts 8
            (adds
              (stops (puts 7 (adds initial (omega (arith, counts.0))) (omega (arith, counts.1))))
              (omega (arith, counts.2)))
            (omega (arith, counts.3))))
        (omega (arith, counts.4)))
      (omega (arith, counts.5))

Reachable-taken_example :
    (through.taken ++ through.tasks.buffer ≡ through.accepted)
    × (through.pending_tasks ≡ 0
        → (through.taken ≡ through.accepted) × (through.adding ≡ 0) × (through.owing ≡ 0))
Reachable-taken_example = Reachable-taken through through-Reachable
