-- ===== src/Concurrency/Futures/Promise.antt =====
-- include/concurrency/promise.hpp: `Promise`. `is_set` is whether its shared state has been given up,
-- and `produced` is what that state was given, in order.
use broadcast_service.Base.{ℕ, Bool, true, false, List, [], ◌∷◌, ◌++◌, if◌then◌else◌}
use broadcast_service.Util.Result.{Result, err, ok}

pub record Promise (T : Type 0) : Type 0 where
  pub is_set : Bool
  pub produced : List (Result T)

module _ {T : Type 0} where
  unfoldable pub make : Promise T
  make = record { is_set = false; produced = [] }

  -- The two lines of `Set` under its test. A call that tests between them can as well test before.
  unfoldable pub produce : Result T → Promise T → Promise T
  produce result p = record { is_set = true; produced = p.produced ++ result ∷ [] }

  unfoldable pub set : Result T → Promise T → Promise T
  set result p =
      if p.is_set then p else record { is_set = true; produced = p.produced ++ result ∷ [] }

  unfoldable pub set_value : T → Promise T → Promise T
  set_value value p = set (ok value) p

  unfoldable pub set_error : ℕ → Promise T → Promise T
  set_error ec p = set (err ec) p
