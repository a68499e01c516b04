-- ===== src/Concurrency/Futures/Tests.antt =====
-- Futures that are done in some order.
use broadcast_service.Base.{ℕ, ◌≡◌, refl, some, List, [], ◌∷◌, arith}
use broadcast_service.Util.Result.{Result, err, ok}
use broadcast_service.Concurrency.Futures.{init, write_result, write_callback, meet}
use broadcast_service.Concurrency.Futures.Interleavings
use broadcast_service.Concurrency.Futures.Interleavings.{
  produce_write, produce_meet, consume_write, consume_meet, Reachable-tasks,
}
use broadcast_service.Concurrency.Futures.Combinators.{
  AllCombinator, first_init, first_results, all_init, all_results, all_result, all_value, all_error,
  all_test, all_produce,
}
use broadcast_service.Concurrency.Futures.Promise
use broadcast_service.Concurrency.Futures.Combinators.Racing.{
  Reachable, start, call, produce, values_of, errors_of,
}
use broadcast_service.Concurrency.Futures.Combinators.Giving.{Given, Reachable-Given}
use broadcast_service.Concurrency.Futures.Combinators.Outcomes.{
  first_outcome, all_outcome, first_results-first_outcome, all_results-all_outcome,
}

abbrev outcomes : List (Result ℕ)
outcomes = err 3 ∷ ok 7 ∷ ok 8 ∷ []

Reachable-tasks_example :
    (meet {T = ℕ} (meet (write_callback 5 (write_result (ok 7) init)))).tasks ≡ (some 5, ok 7) ∷ []
Reachable-tasks_example =
    Reachable-tasks (ok 7) 5 _
      (produce_meet (consume_meet (consume_write (produce_write Interleavings.start))))

first_results-first_outcome_example :
    (first_results outcomes (first_init 3)).promise.produced ≡ ok 7 ∷ []
unfolding first_outcome
first_results-first_outcome_example =
    first_results-first_outcome 3 outcomes (omega arith) (omega arith)

all_given : (all_results outcomes (all_init 3)).promise.produced ≡ err 3 ∷ []
unfolding all_outcome
all_given = all_results-all_outcome 3 outcomes (omega arith)

-- An error that is produced after the two values have come.
abbrev late : AllCombinator ℕ
late =
    all_produce [] (err 3) []
      (all_result (ok 8) (all_result (ok 7) (all_result (err 3) (all_init 3))))

late-Reachable : Reachable 3 outcomes late
unfolding all_result all_value all_error all_test all_init Promise.make
late-Reachable =
    produce [] (err 3) []
      (call (ok 8) (call (ok 7) (call (err 3) start (omega arith)) (omega arith)) (omega arith))
      refl

late_alone : late.producing ≡ []
unfolding all_produce
late_alone = refl

Reachable-Given_example : Given 3 (values_of outcomes) (errors_of outcomes) late.promise.produced
Reachable-Given_example = Reachable-Given 3 outcomes late (omega arith) late-Reachable late_alone

-- Two errors whose calls overlap are both produced.
abbrev both_errors : AllCombinator ℕ
both_errors =
    all_produce [] (err 4) []
      (all_produce [] (err 3) (err 4 ∷ []) (all_result (err 4) (all_result (err 3) (all_init 2))))

both_errors-Reachable : Reachable 2 (err 3 ∷ err 4 ∷ []) both_errors
unfolding all_result all_error all_test all_init all_produce Promise.make
both_errors-Reachable =
    produce [] (err 4) []
      (produce [] (err 3) (err 4 ∷ [])
        (call (err 4) (call (err 3) start (omega arith)) (omega arith)) refl)
      refl

both_errors_produced : both_errors.promise.produced ≡ err 3 ∷ err 4 ∷ []
unfolding all_produce all_result all_error all_test all_init Promise.make Promise.produce
both_errors_produced = refl
