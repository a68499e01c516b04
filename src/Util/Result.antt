-- ===== src/Util/Result.antt =====
-- include/util/result.hpp: `Result`, an error code or a value.
use broadcast_service.Base.{ℕ, Bool, true, false, Option, none, some}

pub data Result (T : Type 0) : Type 0 where
  err : ℕ → Result T
  ok : T → Result T

module _ {T : Type 0} where
  -- `Result() = default`: the first alternative, with the code 0
  unfoldable pub default : Result T
  default = err 0

  unfoldable pub has_value : Result T → Bool
  has_value (err ec) = false
  has_value (ok v) = true

  unfoldable pub has_error : Result T → Bool
  has_error (err ec) = true
  has_error (ok v) = false

  -- `Value`: `std::get` of the other alternative throws.
  unfoldable pub value : Result T → Option T
  value (err ec) = none
  value (ok v) = some v

  unfoldable pub error : Result T → Option ℕ
  error (err ec) = some ec
  error (ok v) = none

  unfoldable pub set_value : T → Result T → Result T
  set_value v result = ok v

  unfoldable pub set_error : ℕ → Result T → Result T
  set_error ec result = err ec
