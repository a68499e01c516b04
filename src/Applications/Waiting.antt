-- ===== src/Applications/Waiting.antt =====
-- The wait in the loops of include/applications: `All(std::move(futures)).Get()`, and the assertion that
-- its result has a value. The results of the futures, in the order in which they come, are given;
-- where they do not let `All` produce, `Get` does not return.
pub mod Fulfilled
use broadcast_service.Base.{
  ℕ, zero, Bool, Option, none, some, List, [], ◌∷◌, nat_eq, ◌==◌, if◌then◌else◌,
}
use broadcast_service.Util.Result.{Result, err, ok}
use broadcast_service.Concurrency.Futures.Combinators.{all_init, all_results}

-- The code goes on, waits for ever, or has failed an assertion.
pub data Outcome (S : Type 0) : Type 0 where
  finished : S → Outcome S
  waiting : S → Outcome S
  failed : Outcome S

module _ {S : Type 0} where
  unfoldable pub and_then : (S → Outcome S) → Outcome S → Outcome S
  and_then f (finished s) = f s
  and_then f (waiting s) = waiting s
  and_then f failed = failed

  -- `Get`, of what the promise is given, and `assert(result.HasValue())`
  unfoldable pub get : List (Result (List Unit)) → S → Outcome S
  get [] s = waiting s
  get (ok values ∷ produced) s = finished s
  get (err ec ∷ produced) s = failed

  -- `All` asserts that there are futures.
  unfoldable pub settle : ℕ → List (Result Unit) → S → Outcome S
  settle futures results s =
      let all = all_results results (all_init futures) in
      if futures == 0 then failed else get all.promise.produced s
