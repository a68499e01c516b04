-- ===== src/Transport/Bytes.antt =====
-- include/io/transport/payload.hpp: primitives and arrays in memory. A byte is a number below 256, and
-- integers are stored with their low byte first, as on the processors that the program is built for.
pub mod RoundTrip
use broadcast_service.Base.{
  ℕ, zero, suc, ◌+◌, ◌*◌, ◌/◌, ◌%◌, ◌≤◌, ◌≡◌, List, [], ◌∷◌, ◌++◌, Option, none, some, ◌>>=◌,
  length, drop, if◌then◌else◌, leb,
}

abbrev pub Bytes : Type 0
Bytes = List ℕ

-- The `size` bytes of a value, as `BinaryMarshalPrimitiveType` stores them.
unfoldable pub marshal_primitive : ℕ → ℕ → Bytes
marshal_primitive zero value = []
marshal_primitive (suc size) value = (value % 256) ∷ marshal_primitive size (value / 256)

-- The value that `size` bytes stand for, and the bytes behind them; `none` reads past the end.
unfoldable pub unmarshal_primitive : ℕ → Bytes → Option (ℕ × Bytes)
unmarshal_primitive zero bytes = some (0, bytes)
unmarshal_primitive (suc size) [] = none
unmarshal_primitive (suc size) (b ∷ bytes) = do
  (high, rest) ← unmarshal_primitive size bytes
  some (b + 256 * high, rest)

module _ {A : Type 0} where
  -- One after another.
  unfoldable pub marshal_all : (A → Bytes) → List A → Bytes
  marshal_all marshal [] = []
  marshal_all marshal (x ∷ xs) = marshal x ++ marshal_all marshal xs

  unfoldable pub unmarshal_all : (Bytes → Option (A × Bytes)) → ℕ → Bytes → Option (List A × Bytes)
  unmarshal_all unmarshal zero bytes = some ([], bytes)
  unmarshal_all unmarshal (suc count) bytes = do
    (x, rest) ← unmarshal bytes
    (xs, end) ← unmarshal_all unmarshal count rest
    some (x ∷ xs, end)

-- `memcpy` of an array of elements of `size` bytes.
unfoldable pub marshal_array : ℕ → List ℕ → Bytes
marshal_array size = marshal_all (marshal_primitive size)

unfoldable pub unmarshal_array : ℕ → ℕ → Bytes → Option (List ℕ × Bytes)
unmarshal_array size = unmarshal_all (unmarshal_primitive size)

-- What a buffer holds after bytes are stored from its start on; `none` writes past the end.
unfoldable pub store : Bytes → Bytes → Option Bytes
store bytes buffer =
    if leb (length bytes) (length buffer) then some (bytes ++ drop (length bytes) buffer) else none
