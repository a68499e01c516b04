-- ===== src/Concurrency/Futures/Future.antt =====
-- include/concurrency/future.hpp: the callbacks of `Then` and `Else`, futures that are done from the
-- start, and `Get`. `forward` is a future that another promise fills.
use broadcast_service.Base.{ℕ, ◌≡◌, refl, Option, none, some, List, [], ◌∷◌}
use broadcast_service.Util.Result.{Result, err, ok}
use broadcast_service.Concurrency.Futures.{
  SharedState, init, write_result, write_callback, exchange, do_callback, meet, produce, consume,
}
use broadcast_service.Concurrency.Futures.Promise
use broadcast_service.Concurrency.Futures.Promise.{Promise}

module _ {A B : Type 0} where
  unfoldable pub then_callback : (A → Result B) → Result A → Promise B → Promise B
  then_callback function (ok value) p = Promise.set (function value) p
  then_callback function (err ec) p = Promise.set_error ec p

  -- The callback of a future runs once for each result that its promise produced.
  unfoldable pub forward :
      (Result A → Promise B → Promise B) → List (Result A) → Promise B → Promise B
  forward callback [] p = p
  forward callback (result ∷ results) p = forward callback results (callback result p)

module _ {A : Type 0} where
  unfoldable pub else_callback : (ℕ → Result A) → Result A → Promise A → Promise A
  else_callback function (ok value) p = Promise.set (ok value) p
  else_callback function (err ec) p = Promise.set (function ec) p

  unfoldable pub just_value : A → SharedState A
  just_value value = produce (ok value) init

  unfoldable pub just_err : ℕ → SharedState A
  just_err ec = produce (err ec) init

  placeholder : List (Option ℕ × Result A) → Option (Result A)
  placeholder [] = none
  placeholder ((callback, result) ∷ tasks) = some result

  -- `Get`: what the callback, run at once, has written. Without a result it waits: `none`.
  unfoldable pub get : SharedState A → Option (Result A)
  unfolding placeholder
  get s = placeholder (consume 0 s).tasks

  pub get-just_value : (value : A) → get (just_value value) ≡ some (ok value)
  unfolding get just_value produce consume write_result write_callback meet exchange do_callback
      init
  get-just_value value = refl

-- The result that a chain hands on.
unfoldable pub bind : {A B : Type 0} → (A → Result B) → Result A → Result B
bind f (ok value) = f value
bind f (err ec) = err ec

module _ {A B C : Type 0} where
  -- `Then(f).Then(g)` hands on what `g` makes of the value that `f` makes of the value, or the first
  -- error on the way, once.
  pub then_then :
      (f : A → Result B) (g : B → Result C) (result : Result A)
      → (forward
          (then_callback g)
          (then_callback f result Promise.make).produced
          Promise.make).produced
        ≡ bind g (bind f result) ∷ []
  unfolding forward then_callback Promise.make Promise.set Promise.set_error bind
  then_then f g (err ec) = refl
  then_then f g (ok value) = after (f value)
    where
      after :
          (result : Result B)
          → (forward (then_callback g) (result ∷ []) Promise.make).produced ≡ bind g result ∷ []
      after (err ec) = refl
      after (ok value) = refl
