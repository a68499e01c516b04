-- ===== src/Concurrency/Strand/Tests.antt =====
-- Two tasks in one batch, of which one is counted after the batch is done.
use broadcast_service.Base.{ℕ, ◌+◌, ◌<◌, ◌≤◌, ◌≡◌, ◌≢◌, refl, [], ◌∷◌, ◌++◌, arith, length}
use broadcast_service.Concurrency.Strand.{Strand, init, push, count, begin, start, exceeds, finish}
use broadcast_service.Concurrency.Strand.Single.{
  Reachable, initial, pushes, counts, starts, finishes, Reachable-processed,
}

abbrev started : Strand ℕ
started = start (count (push 8 (push 7 init)))

abbrev ended : Strand ℕ
ended = count (finish 2 [] started)

ended_idle : ended.submitted ≡ 0
unfolding init push count begin start exceeds finish
ended_idle = refl

ended-Reachable : Reachable ended
unfolding init push count begin start exceeds finish
ended-Reachable =
    let two : Reachable (push 8 (push 7 init)) =
      pushes 8 (pushes 7 initial (omega arith)) (omega arith) in
    counts
      (finishes {s = started} [] [] (7 ∷ 8 ∷ []) (starts (counts two (omega arith)) (omega arith))
        refl)
      (omega arith)

Reachable-processed_example :
    (ended.scheduled + length ended.running ≤ 1)
    × (0 < ended.scheduled → ended.tasks ≢ [])
    × (ended.processed ++ ended.tasks ≡ ended.pushed)
    × (ended.uncounted ≡ 0
        → ended.scheduled + length ended.running ≡ 0
        → ended.processed ≡ ended.pushed)
Reachable-processed_example = Reachable-processed ended ended-Reachable
