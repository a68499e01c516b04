-- ===== src/Concurrency/Futures/Combinators/Outcomes.antt =====
-- What the promise of `First` and of `All` is given.
use broadcast_service.Base.{
  ℕ, ◌-◌, ◌^◌, ◌<◌, ◌≤◌, ◌≡◌, refl, subst, true, false, List, [], ◌∷◌, ◌++◌, arith, nat_eq, ◌==◌,
  if◌then◌else◌, length, length-append,
}
use broadcast_service.Util.Result.{Result, err, ok}
use broadcast_service.Concurrency.Futures.Promise
use broadcast_service.Concurrency.Futures.Promise.{Promise}
use broadcast_service.Concurrency.Futures.Combinators.{
  FirstCombinator, AllCombinator, first_init, first_value, first_error, first_result, first_results,
  all_init, all_value, all_error, all_result, all_results, all_alone, all_test, produce_all,
}

module _ {T : Type 0} where
  -- With the `missing` other futures failed: the first value, or the last error if all have failed.
  unfoldable pub first_outcome : ℕ → List (Result T) → List (Result T)
  first_outcome missing [] = []
  first_outcome missing (ok value ∷ results) = ok value ∷ []
  first_outcome missing (err ec ∷ results) =
      let rest = first_outcome (missing - 1) results in if missing == 1 then err ec ∷ [] else rest

  -- The first error, or all values in order if there are `missing` of them.
  unfoldable pub all_outcome : List T → ℕ → List (Result T) → List (Result (List T))
  all_outcome values missing [] = []
  all_outcome values missing (ok value ∷ results) =
      let rest = all_outcome (values ++ value ∷ []) (missing - 1) results in
      if missing == 1 then ok (values ++ value ∷ []) ∷ [] else rest
  all_outcome values missing (err ec ∷ results) = err ec ∷ []

  first_results_set :
      (results : List (Result T)) (c : FirstCombinator T)
      → c.promise.is_set ≡ true
      → (first_results results c).promise.produced ≡ c.promise.produced
  unfolding first_results first_result first_value first_error Promise.set_value Promise.set_error
      Promise.set
  first_results_set [] c set = refl
  first_results_set (ok value ∷ results) c set =
      ground (arith, first_results_set results (first_value value c))
  first_results_set (err ec ∷ results) c set =
      ground (arith, first_results_set results (first_error ec c))

  all_results_set :
      (results : List (Result T)) (c : AllCombinator T)
      → c.promise.is_set ≡ true
      → c.producing ≡ []
      → (all_results results c).promise.produced ≡ c.promise.produced
  unfolding all_results all_alone all_result all_value all_error all_test produce_all
  all_results_set [] c set alone = refl
  all_results_set (ok value ∷ results) c set alone =
      ground (arith, alone, all_results_set results (all_alone (ok value) c))
  all_results_set (err ec ∷ results) c set alone =
      ground (arith, alone, all_results_set results (all_alone (err ec) c))

  first_results_open :
      (results : List (Result T)) (c : FirstCombinator T)
      → c.promise.is_set ≡ false
      → c.is_completed ≡ false
      → c.counter < 2 ^ 64
      → length results ≤ c.counter
      → c.promise.produced ≡ []
      → (first_results results c).promise.produced ≡ first_outcome c.counter results
  unfolding first_results first_result first_value first_error Promise.set_value Promise.set_error
      Promise.set first_outcome
  first_results_open [] c unset going fits few e = e
  first_results_open (ok value ∷ results) c unset going fits few e =
      ground (arith, first_results_set results (first_value value c))
  first_results_open (err ec ∷ results) c unset going fits few e = ground (
    arith,
    first_results_set results (first_error ec c),
    first_results_open results (first_error ec c),
  )

  all_results_open :
      (results : List (Result T)) (c : AllCombinator T)
      → c.promise.is_set ≡ false
      → c.producing ≡ []
      → length c.results < c.futures_number
      → c.promise.produced ≡ []
      → (all_results results c).promise.produced
        ≡ all_outcome c.results (c.futures_number - length c.results) results
  unfolding all_results all_alone all_result all_value all_error all_test produce_all
      Promise.produce all_outcome
  all_results_open [] c unset alone few e = e
  all_results_open (ok value ∷ results) c unset alone few e = ground (
    arith,
    alone,
    length-append c.results (value ∷ []),
    all_results_set results (all_alone (ok value) c),
    all_results_open results (all_alone (ok value) c),
  )
  all_results_open (err ec ∷ results) c unset alone few e =
      ground (arith, alone, all_results_set results (all_alone (err ec) c))

  -- In whatever order at most `size` futures are done, the promise of `First` is given the first
  -- value that comes, or the last error once all `size` have failed, and nothing else.
  pub first_results-first_outcome :
      (size : ℕ) (results : List (Result T))
      → size < 2 ^ 64
      → length results ≤ size
      → (first_results results (first_init size)).promise.produced ≡ first_outcome size results
  unfolding first_init Promise.make
  first_results-first_outcome size results fits few =
      first_results_open results (first_init size) refl refl fits few refl

  -- If the calls of the futures come one after the other, in whatever order, the promise of `All` over
  -- at least one future is given the first error that comes, or, once `size` values have come with no error before, these values
  -- in the order in which they came, and nothing else.
  pub all_results-all_outcome :
      (size : ℕ) (results : List (Result T))
      → 0 < size
      → (all_results results (all_init size)).promise.produced ≡ all_outcome [] size results
  unfolding all_init Promise.make
  all_results-all_outcome size results positive =
      let e : size - 0 ≡ size = omega arith in
      subst (λ n. (all_results results (all_init size)).promise.produced ≡ all_outcome [] n results)
        (e) (all_results_open results (all_init size) refl refl positive refl)
