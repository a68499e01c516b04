-- ===== src/Concurrency/Futures/Combinators/Racing.antt =====
-- What the promise of `All` is given where the calls of its futures overlap.
use broadcast_service.Base.{
  ℕ, ◌+◌, ◌<◌, ◌≤◌, ◌≡◌, refl, ap, true, List, [], ◌∷◌, ◌++◌, nat_eq, ◌==◌, if◌then◌else◌, length,
  contains, All,
}
use broadcast_service.Util.Result.{Result, err, ok}
use broadcast_service.Concurrency.Futures.Combinators.{
  AllCombinator, all_init, all_produce, all_result,
}

module _ {T : Type 0} where
  -- The values and the errors among the results of the calls.
  unfoldable pub values_of : List (Result T) → List T
  values_of [] = []
  values_of (ok value ∷ called) = value ∷ values_of called
  values_of (err ec ∷ called) = values_of called

  unfoldable pub errors_of : List (Result T) → List ℕ
  errors_of [] = []
  errors_of (ok value ∷ called) = errors_of called
  errors_of (err ec ∷ called) = ec ∷ errors_of called

  -- Each of `size` futures calls once, and produces at any time after its test; `called` is the results
  -- of the calls that have been made, in order.
  pub data Reachable (size : ℕ) : List (Result T) → AllCombinator T → Type 0 where
    start : Reachable size [] (all_init size)
    call :
        {called : List (Result T)} {c : AllCombinator T} (result : Result T)
        → Reachable size called c
        → length called < size
        → Reachable size (called ++ result ∷ []) (all_result result c)
    produce :
        {called : List (Result T)} {c : AllCombinator T} (before : List (Result (List T)))
        (result : Result (List T)) (after : List (Result (List T)))
        → Reachable size called c
        → c.producing ≡ before ++ result ∷ after
        → Reachable size called (all_produce before result after c)

  pub values-append :
      (called : List (Result T)) (result : Result T)
      → values_of (called ++ result ∷ []) ≡ values_of called ++ values_of (result ∷ [])
  unfolding values_of
  values-append [] result = refl
  values-append (ok value ∷ called) result = ap (λ xs. value ∷ xs) (values-append called result)
  values-append (err ec ∷ called) result = values-append called result

  pub errors-append :
      (called : List (Result T)) (result : Result T)
      → errors_of (called ++ result ∷ []) ≡ errors_of called ++ errors_of (result ∷ [])
  unfolding errors_of
  errors-append [] result = refl
  errors-append (ok value ∷ called) result = errors-append called result
  errors-append (err ec ∷ called) result = ap (λ xs. ec ∷ xs) (errors-append called result)

  -- What may be produced, if these are the values and errors.
  abbrev pub Came : ℕ → List T → List ℕ → Result (List T) → Type 0
  Came size values errors (ok results) = (results ≡ values) × (length values ≡ size)
  Came size values errors (err ec) = contains ec errors ≡ true

  pub record Racing (size : ℕ) (values : List T) (errors : List ℕ) (c : AllCombinator T)
      : Type 0 where
    pub number : c.futures_number ≡ size
    pub few : length values + length errors ≤ size
    pub results : length values < size → c.results ≡ values
    pub came : All (Came size values errors) c.producing
    pub given : All (Came size values errors) c.promise.produced
    pub most :
        length c.producing + length c.promise.produced
        ≤ length errors + (if length values == size then 1 else 0)
    pub least :
        0 < length errors + (if length values == size then 1 else 0)
        → 0 < length c.producing + length c.promise.produced
    pub set : c.promise.is_set ≡ true → 0 < length c.promise.produced
