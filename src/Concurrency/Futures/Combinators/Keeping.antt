-- ===== src/Concurrency/Futures/Combinators/Keeping.antt =====
-- The steps of the calls of `All` keep what has been produced in order.
use broadcast_service.Base.{
  ℕ, ◌+◌, ◌<◌, ◌≤◌, ◌≡◌, refl, sym, ap, subst, inl, inr, true, false, List, [], ◌∷◌, ◌++◌,
  append-nil, arith, nat_eq, ◌==◌, if◌then◌else◌, length, length-append, contains, contains-append,
  All, All-map, All-snoc, Bool-cases,
}
use broadcast_service.Util.Result.{Result, err, ok}
use broadcast_service.Concurrency.Futures.Promise
use broadcast_service.Concurrency.Futures.Promise.{Promise}
use broadcast_service.Concurrency.Futures.Combinators.{
  AllCombinator, all_init, all_test, all_produce, all_value, all_error, all_result,
}
use broadcast_service.Concurrency.Futures.Combinators.Racing.{
  values_of, errors_of, Reachable, start, call, produce, values-append, errors-append, Came, Racing,
}

module _ {T : Type 0} where
  -- More errors.
  Came-more :
      (size : ℕ) (values : List T) (errors : List ℕ) (ec : ℕ) (result : Result (List T))
      → Came size values errors result
      → Came size values (errors ++ ec ∷ []) result
  Came-more size values errors ec (ok results) h = h
  Came-more size values errors ec (err e) h = ground (arith, h, contains-append e errors (ec ∷ []))

  -- With a value missing no values were produced.
  Came-missing :
      (size : ℕ) (values : List T) (errors : List ℕ) (value : T) (result : Result (List T))
      → length values < size
      → Came size values errors result
      → Came size (values ++ value ∷ []) errors result
  Came-missing size values errors value (ok results) few h = absurd (omega (arith, h.1))
  Came-missing size values errors value (err e) few h = h

  -- The test at the end of a call with `result`, whose collector has `results` then.
  Racing-test :
      (size : ℕ) (values : List T) (errors : List ℕ) (c : AllCombinator T)
      (result : Result (List T))
      → c.futures_number ≡ size
      → length values + length errors ≤ size
      → (length values < size → c.results ≡ values)
      → All (Came size values errors) c.producing
      → All (Came size values errors) c.promise.produced
      → length c.producing + length c.promise.produced + 1
        ≤ length errors + (if length values == size then 1 else 0)
      → (c.promise.is_set ≡ true → 0 < length c.promise.produced)
      → Came size values errors result
      → Racing size values errors (all_test result c)
  unfolding all_test
  Racing-test size values errors c result number few results came given most set new =
      elim (Bool-cases c.promise.is_set) [
        | inl is ↦
            let same : c ≡ all_test result c = ground (arith, is) in
            subst (Racing size values errors) same (record {
              number = number;
              few = few;
              results = results;
              came = came;
              given = given;
              most = omega arith;
              least = λ h. omega (arith, set is);
              set = set;
            })
        | inr not ↦
            let same : record c { producing = c.producing ++ result ∷ [] } ≡ all_test result c =
              ground (arith, not) in
            let l = length-append c.producing (result ∷ []) in
            subst (Racing size values errors) same (record {
              number = number;
              few = few;
              results = results;
              came = All-snoc (Came size values errors) c.producing result came new;
              given = given;
              most = omega (arith, l);
              least = λ h. omega (arith, l);
              set = set;
            })
      ]

  Racing-error :
      (size : ℕ) (values : List T) (errors : List ℕ) (ec : ℕ) (c : AllCombinator T)
      → length values + length errors < size
      → Racing size values errors c
      → Racing size values (errors ++ ec ∷ []) (all_error ec c)
  unfolding all_error contains
  Racing-error size values errors ec c few i =
      let more = Came-more size values errors ec in
      let l = length-append errors (ec ∷ []) in
      Racing-test size values (errors ++ ec ∷ []) c (err ec) i.number (omega (arith, l)) i.results
        (All-map (Came size values errors) (Came size values (errors ++ ec ∷ [])) c.producing more
          i.came)
        (All-map (Came size values errors) (Came size values (errors ++ ec ∷ [])) c.promise.produced
          more i.given)
        (omega (arith, l, i.most)) i.set (ground (arith, contains-append ec errors (ec ∷ [])))

  value_full :
      (value : T) (c : AllCombinator T) (size : ℕ) (values : List T)
      → c.futures_number ≡ size
      → c.results ≡ values
      → (length (values ++ value ∷ []) == size) ≡ true
      → all_value value c ≡ all_test (ok (values ++ value ∷ [])) (record c { results = [] })
  unfolding all_value
  value_full value c size values n e full = rw (e, n, full) refl

  value_missing :
      (value : T) (c : AllCombinator T) (size : ℕ) (values : List T)
      → c.futures_number ≡ size
      → c.results ≡ values
      → (length (values ++ value ∷ []) == size) ≡ false
      → all_value value c ≡ record c { results = values ++ value ∷ [] }
  unfolding all_value
  value_missing value c size values n e missing = rw (e, n, missing) refl

  Racing-value :
      (size : ℕ) (values : List T) (errors : List ℕ) (value : T) (c : AllCombinator T)
      → length values + length errors < size
      → Racing size values errors c
      → Racing size (values ++ value ∷ []) errors (all_value value c)
  Racing-value size values errors value c few i =
      let same : c.results ≡ values = i.results (omega arith) in
      let next : List T = values ++ value ∷ [] in
      let l = length-append values (value ∷ []) in
      let keep = Came-missing size values errors value in
      let came : All (Came size next errors) c.producing =
        All-map (Came size values errors) (Came size next errors) c.producing
          (λ r. keep r (omega arith)) i.came in
      let given : All (Came size next errors) c.promise.produced =
        All-map (Came size values errors) (Came size next errors) c.promise.produced
          (λ r. keep r (omega arith)) i.given in
      elim (Bool-cases (length next == size)) [
        | inl full ↦
            let e : length next ≡ size = ground (arith, full) in
            subst (Racing size next errors)
              (sym (value_full value c size values i.number same full))
              (Racing-test size next errors (record c { results = [] }) (ok next) i.number
                (omega (arith, l)) (λ h. absurd (omega (arith, e, h))) came given
                (ground (arith, i.most, full, l)) i.set (refl, e))
        | inr missing ↦
            subst (Racing size next errors)
              (sym (value_missing value c size values i.number same missing))
              (record {
                number = i.number;
                few = omega (arith, l);
                results = λ h. refl;
                came = came;
                given = given;
                most = ground (arith, i.most, missing, l);
                least = λ h. ground (arith, i.least, h, missing, l);
                set = i.set;
              })
      ]

  All-split :
      (P : Result (List T) → Type 0) (before : List (Result (List T))) (result : Result (List T))
      (after : List (Result (List T)))
      → All P (before ++ result ∷ after)
      → P result × All P (before ++ after)
  All-split P [] result after h = h
  All-split P (r ∷ before) result after h =
      let rest = All-split P before result after h.1 in (rest.0, (h.0, rest.1))

  Racing-produce :
      (size : ℕ) (values : List T) (errors : List ℕ) (before : List (Result (List T)))
      (result : Result (List T)) (after : List (Result (List T))) (c : AllCombinator T)
      → c.producing ≡ before ++ result ∷ after
      → Racing size values errors c
      → Racing size values errors (all_produce before result after c)
  unfolding all_produce Promise.produce
  Racing-produce size values errors before result after c e i =
      let P = Came size values errors in
      let came : All P (before ++ result ∷ after) = subst (All P) e i.came in
      let parts = All-split P before result after came in
      let n = ap length e in
      let l = length-append before (result ∷ after) in
      let l' = length-append before after in
      let p = length-append c.promise.produced (result ∷ []) in
      record {
        number = i.number;
        few = i.few;
        results = i.results;
        came = parts.1;
        given = All-snoc P c.promise.produced result i.given parts.0;
        most = omega (arith, i.most, n, l, l', p);
        least = λ h. omega (arith, p);
        set = λ h. omega (arith, p);
      }

  Racing-start : (size : ℕ) → 0 < size → Racing {T = T} size [] [] (all_init size)
  unfolding all_init Promise.make
  Racing-start size positive = record {
    number = refl;
    few = omega arith;
    results = λ h. refl;
    came = tt;
    given = tt;
    most = omega arith;
    least = λ h. ground (arith, h);
    set = λ h. ground (arith, h);
  }

  length-called :
      (called : List (Result T))
      → length called ≡ length (values_of called) + length (errors_of called)
  unfolding values_of errors_of
  length-called [] = refl
  length-called (ok value ∷ called) = omega (arith, length-called called)
  length-called (err ec ∷ called) = omega (arith, length-called called)

  Racing-result :
      (size : ℕ) (called : List (Result T)) (result : Result T) (c : AllCombinator T)
      → length called < size
      → Racing size (values_of called) (errors_of called) c
      → Racing size
          (values_of called ++ values_of (result ∷ []))
          (errors_of called ++ errors_of (result ∷ []))
          (all_result result c)
  unfolding all_result values_of errors_of
  Racing-result size called (ok value) c few i =
      subst (λ es. Racing size (values_of called ++ value ∷ []) es (all_value value c))
        (sym (append-nil (errors_of called)))
        (Racing-value size (values_of called) (errors_of called) value c
          (omega (arith, length-called called)) i)
  Racing-result size called (err ec) c few i =
      subst (λ vs. Racing size vs (errors_of called ++ ec ∷ []) (all_error ec c))
        (sym (append-nil (values_of called)))
        (Racing-error size (values_of called) (errors_of called) ec c
          (omega (arith, length-called called)) i)

  pub Reachable-Racing :
      (size : ℕ) (called : List (Result T)) (c : AllCombinator T)
      → 0 < size
      → Reachable size called c
      → Racing size (values_of called) (errors_of called) c
  unfolding values_of errors_of
  Reachable-Racing size called c positive start = Racing-start size positive
  Reachable-Racing size called c positive (call {called = before} {c = d} result r few) =
      let i = Racing-result size before result d few (Reachable-Racing size before d positive r) in
      subst (λ vs. Racing size vs (errors_of (before ++ result ∷ [])) (all_result result d))
        (sym (values-append before result))
        (subst
          (λ es. Racing size (values_of before ++ values_of (result ∷ [])) es (all_result result d))
          (sym (errors-append before result)) i)
  Reachable-Racing size called c positive (produce {c = d} before result after r e) =
      Racing-produce size (values_of called) (errors_of called) before result after d e
        (Reachable-Racing size called d positive r)
