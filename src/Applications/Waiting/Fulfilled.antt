-- ===== src/Applications/Waiting/Fulfilled.antt =====
-- The wait is over once each of the futures has a value.
use broadcast_service.Base.{
  ℕ, zero, suc, replicate, ◌-◌, ◌<◌, ◌≡◌, refl, sym, ap, ◌∙◌, true, false, List, [], ◌∷◌, ◌++◌,
  arith, nat_eq, ◌==◌, length, All,
}
use broadcast_service.Util.Result
use broadcast_service.Util.Result.{Result, err, ok}
use broadcast_service.Concurrency.Futures.Combinators.Outcomes.{
  all_outcome, all_results-all_outcome,
}
use broadcast_service.Applications.Waiting.{finished, get, settle}

-- As many results as there are futures, each with a value.
abbrev pub Valued : ℕ → List (Result Unit) → Type 0
Valued futures results = (length results ≡ futures) × All (λ r. Result.has_value r ≡ true) results

-- However many futures there are at whatever point: each comes to a value.
abbrev pub Fulfilled : {S : Type 0} → (ℕ → S → List (Result Unit)) → Type 0
Fulfilled {S} results = (n : ℕ) (s : S) → Valued n (results n s)

pub Valued-replicate : (n : ℕ) → Valued n (replicate n (ok tt))
unfolding Result.has_value
Valued-replicate zero = (refl, tt)
Valued-replicate (suc n) = let rest = Valued-replicate n in (ap suc rest.0, (refl, rest.1))

all_outcome-values :
    (values : List Unit) (result : Result Unit) (results : List (Result Unit))
    → All (λ r. Result.has_value r ≡ true) (result ∷ results)
    → (all : List Unit) × (all_outcome values (length (result ∷ results)) (result ∷ results)
        ≡ ok all ∷ [])
unfolding all_outcome Result.has_value
all_outcome-values values (err ec) results h = absurd (ground (arith, h.0))
all_outcome-values values (ok value) [] h = (values ++ value ∷ [], refl)
all_outcome-values values (ok value) (result ∷ results) h =
    let rest = all_outcome-values (values ++ value ∷ []) result results h.1 in
    let less : suc (suc (length results)) - 1 ≡ suc (length results) = omega arith in
    (rest.0, ground (arith, rest.1, less))

pub settle-Valued :
    {S : Type 0} (futures : ℕ) (results : List (Result Unit)) (s : S)
    → 0 < futures
    → Valued futures results
    → settle futures results s ≡ finished s
unfolding settle get
settle-Valued futures [] s positive h = absurd (omega (arith, h.0))
settle-Valued futures (result ∷ results) s positive h =
    let given = all_outcome-values [] result results h.1 in
    let produced =
      all_results-all_outcome futures (result ∷ results) positive
      ∙ (ap (λ n. all_outcome [] n (result ∷ results)) (sym h.0) ∙ given.1) in
    let some_futures : (futures == 0) ≡ false = ground (arith, positive) in
    rw (some_futures, produced) refl
