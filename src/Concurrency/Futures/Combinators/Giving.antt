-- ===== src/Concurrency/Futures/Combinators/Giving.antt =====
-- What the promise of `All` has been given in the end.
use broadcast_service.Base.{
  ℕ, ◌+◌, ◌<◌, ◌≤◌, ◌≡◌, ap, Bool, true, false, List, [], ◌∷◌, arith, nat_eq, ◌==◌, if◌then◌else◌,
  length, contains, All, All-map,
}
use broadcast_service.Util.Result.{Result, err, ok}
use broadcast_service.Concurrency.Futures.Combinators.{AllCombinator}
use broadcast_service.Concurrency.Futures.Combinators.Racing.{
  values_of, errors_of, Reachable, Came, Racing,
}
use broadcast_service.Concurrency.Futures.Combinators.Keeping.{Reachable-Racing}

module _ {T : Type 0} where
  -- Whether a result is one of these errors.
  unfoldable pub is_error_of : List ℕ → Result (List T) → Bool
  is_error_of errors (ok results) = false
  is_error_of errors (err ec) = contains ec errors

  -- What the promise has been given, if these values and errors came: without an error the values once
  -- they are all there, a single error once, and of several errors at least one.
  abbrev pub Given : ℕ → List T → List ℕ → List (Result (List T)) → Type 0
  Given size values [] produced = produced ≡ (if length values == size then ok values ∷ [] else [])
  Given size values (ec ∷ []) produced = produced ≡ err ec ∷ []
  Given size values (ec ∷ ec' ∷ errors) produced =
      (0 < length produced)
      × (length produced ≤ length errors + 2)
      × All (λ result. is_error_of (ec ∷ ec' ∷ errors) result ≡ true) produced

  only :
      (size : ℕ) (values : List T) (produced : List (Result (List T)))
      → All (Came size values []) produced
      → length produced ≤ (if length values == size then 1 else 0)
      → (0 < (if length values == size then 1 else 0) → 0 < length produced)
      → Given size values [] produced
  unfolding contains
  only size values [] given most least = ground (arith, most, least)
  only size values (ok results ∷ []) given most least = ground (arith, most, given.0.0, given.0.1)
  only size values (err ec ∷ produced) given most least = absurd (ground (arith, given.0))
  only size values (ok results ∷ result ∷ produced) given most least = absurd (ground (arith, most))

  single :
      (size : ℕ) (values : List T) (ec : ℕ) (produced : List (Result (List T)))
      → length values < size
      → All (Came size values (ec ∷ [])) produced
      → length produced ≡ 1
      → produced ≡ err ec ∷ []
  unfolding contains
  single size values ec [] few given one = absurd (omega (arith, one))
  single size values ec (ok results ∷ produced) few given one = absurd (omega (arith, given.0.1))
  single size values ec (err e ∷ []) few given one = ground (arith, given.0)
  single size values ec (err e ∷ result ∷ produced) few given one = absurd (omega (arith, one))

  is_error_of-Came :
      (size : ℕ) (values : List T) (errors : List ℕ) (result : Result (List T))
      → length values < size
      → Came size values errors result
      → is_error_of errors result ≡ true
  unfolding is_error_of
  is_error_of-Came size values errors (ok results) few h = absurd (omega (arith, h.1))
  is_error_of-Came size values errors (err ec) few h = h

  Given-Racing :
      (size : ℕ) (values : List T) (errors : List ℕ) (c : AllCombinator T)
      → c.producing ≡ []
      → Racing size values errors c
      → Given size values errors c.promise.produced
  Given-Racing size values [] c e i =
      let n = ap length e in
      only size values c.promise.produced i.given (omega (arith, i.most, n))
        (λ h. omega (arith, i.least, h, n))
  Given-Racing size values (ec ∷ []) c e i =
      let n = ap length e in
      let few : length values < size = omega (arith, i.few) in
      single size values ec c.promise.produced few i.given (ground (arith, i.most, i.least, few, n))
  Given-Racing size values (ec ∷ ec' ∷ errors) c e i =
      let n = ap length e in
      let few : length values < size = omega (arith, i.few) in
      (
        ground (arith, i.least, n),
        ground (arith, i.most, few, n),
        All-map (Came size values (ec ∷ ec' ∷ errors))
            (λ result. is_error_of (ec ∷ ec' ∷ errors) result ≡ true) c.promise.produced
            (λ result. is_error_of-Came size values (ec ∷ ec' ∷ errors) result few) i.given,
      )

  -- However the calls of at least one future, each of which calls once, and their productions
  -- interleave: when no call has a production before it, the promise of `All` has been given, without an
  -- error, the values in the order in which they came, once, if all futures have called, and else
  -- nothing; with one error, this error, once; with several errors, at least one, at most as many as
  -- there are, and nothing but errors that came.
  pub Reachable-Given :
      (size : ℕ) (called : List (Result T)) (c : AllCombinator T)
      → 0 < size
      → Reachable size called c
      → c.producing ≡ []
      → Given size (values_of called) (errors_of called) c.promise.produced
  Reachable-Given size called c positive r e =
      Given-Racing size (values_of called) (errors_of called) c e
        (Reachable-Racing size called c positive r)
