-- ===== src/Concurrency/Futures/Combinators.antt =====
-- include/concurrency/combine.hpp: `First` and `All`. The futures call the collector in the order in
-- which they are done. Of `First` a call is one step, since the exchange of `is_completed` decides who
-- sets the promise. `AllCombinator::SetError` has no lock: a call of `All` ends with the test of the
-- promise, or before it, and a call that found the promise unset produces in a step of its own.
pub mod Outcomes
pub mod Racing
pub mod Keeping
pub mod Giving
use broadcast_service.Base.{
  ℕ, zero, suc, ◌+◌, ◌-◌, ◌%◌, ◌^◌, Bool, true, false, not, ◌&&◌, Option, none, some, List, [], ◌∷◌,
  ◌++◌, nat_eq, ◌==◌, if◌then◌else◌, length,
}
use broadcast_service.Util.Result.{Result, err, ok}
use broadcast_service.Concurrency.Futures.Promise
use broadcast_service.Concurrency.Futures.Promise.{Promise}

pub record FirstCombinator (T : Type 0) : Type 0 where
  pub counter : ℕ
  pub is_completed : Bool
  pub promise : Promise T

pub record AllCombinator (T : Type 0) : Type 0 where
  pub results : List T
  pub futures_number : ℕ
  pub promise : Promise (List T)
  -- what the calls that found the promise unset have yet to produce
  pub producing : List (Result (List T))

module _ {T : Type 0} where
  unfoldable pub first_init : ℕ → FirstCombinator T
  first_init size = record { counter = size; is_completed = false; promise = Promise.make }

  unfoldable pub first_value : T → FirstCombinator T → FirstCombinator T
  first_value value c =
      if c.is_completed
      then c
      else record c { is_completed = true; promise = Promise.set_value value c.promise }

  -- `counter.fetch_sub(1) == 1`, and only then the exchange
  unfoldable pub first_error : ℕ → FirstCombinator T → FirstCombinator T
  first_error ec c =
      let counted : FirstCombinator T = record c { counter = (c.counter + 2 ^ 64 - 1) % 2 ^ 64 } in
      if c.counter == 1 && not c.is_completed
      then record counted { is_completed = true; promise = Promise.set_error ec c.promise }
      else counted

  -- The callback of each future in `Combine`.
  unfoldable pub first_result : Result T → FirstCombinator T → FirstCombinator T
  first_result (ok value) c = first_value value c
  first_result (err ec) c = first_error ec c

  unfoldable pub first_results : List (Result T) → FirstCombinator T → FirstCombinator T
  first_results [] c = c
  first_results (result ∷ results) c = first_results results (first_result result c)

  unfoldable pub all_init : ℕ → AllCombinator T
  all_init size = record {
    results = [];
    futures_number = size;
    promise = Promise.make;
    producing = [];
  }

  -- `if (shared_state_ != nullptr)` in `Promise::Set`
  unfoldable pub all_test : Result (List T) → AllCombinator T → AllCombinator T
  all_test result c =
      if c.promise.is_set then c else record c { producing = c.producing ++ result ∷ [] }

  -- The body of that test, by the call with `result`; `before` and `after` are the other calls.
  unfoldable pub all_produce :
      List (Result (List T))
      → Result (List T)
      → List (Result (List T))
      → AllCombinator T
      → AllCombinator T
  all_produce before result after c = record c {
    promise = Promise.produce result c.promise;
    producing = before ++ after;
  }

  -- `SetValue`, up to the test. A vector that is moved from is empty.
  unfoldable pub all_value : T → AllCombinator T → AllCombinator T
  all_value value c =
      let results = c.results ++ value ∷ [] in
      if length results == c.futures_number
      then all_test (ok results) (record c { results = [] })
      else record c { results = results }

  -- `SetError`, up to the test.
  unfoldable pub all_error : ℕ → AllCombinator T → AllCombinator T
  all_error ec c = all_test (err ec) c

  unfoldable pub all_result : Result T → AllCombinator T → AllCombinator T
  all_result (ok value) c = all_value value c
  all_result (err ec) c = all_error ec c

  unfoldable pub produce_all : List (Result (List T)) → Promise (List T) → Promise (List T)
  produce_all [] p = p
  produce_all (result ∷ results) p = produce_all results (Promise.produce result p)

  -- A call that no other overlaps.
  unfoldable pub all_alone : Result T → AllCombinator T → AllCombinator T
  all_alone result c =
      let called = all_result result c in
      record called { promise = produce_all called.producing called.promise; producing = [] }

  -- Calls one after the other.
  unfoldable pub all_results : List (Result T) → AllCombinator T → AllCombinator T
  all_results [] c = c
  all_results (result ∷ results) c = all_results results (all_alone result c)
