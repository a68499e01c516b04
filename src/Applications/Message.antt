-- ===== src/Applications/Message.antt =====
-- include/applications/fifo.hpp: `FIFOMessage`, and include/applications/perfect_links.hpp:
-- `PerfectLinksMessage`, which has the same bytes. A message is its eight numbers of 32 bits.
use broadcast_service.Base.{
  ℕ, ◌≡◌, ◌<◌, ◌^◌, subst, Option, none, some, List, [], arith, if◌then◌else◌, leb, length, ◌>>=◌,
  append-nil, All, replicate,
}
use broadcast_service.Transport.Bytes.{Bytes, marshal_array, unmarshal_array, store}
use broadcast_service.Transport.Bytes.RoundTrip.{
  store_exact, length-marshal_array, unmarshal-marshal_array,
}

-- `kNumMessages`
abbrev pub num_messages : ℕ
num_messages = 8

-- `BinaryMarshalArrayType(messages, 8, bytes.data())` into a buffer of 32 bytes
unfoldable pub marshal : List ℕ → Option Bytes
marshal messages = store (marshal_array 4 messages) (replicate 32 0)

unfoldable pub read : Option (List ℕ × Bytes) → Option (List ℕ)
read none = none
read (some (messages, rest)) = some messages

-- The assertion on the size fails: `none`.
unfoldable pub unmarshal : Bytes → Option (List ℕ)
unmarshal bytes =
    if leb 32 (length bytes) then read (unmarshal_array 4 num_messages bytes) else none

pub unmarshal-marshal :
    (messages : List ℕ)
    → length messages ≡ num_messages
    → All (λ m. m < 2 ^ 32) messages
    → (marshal messages >>= unmarshal) ≡ some messages
unfolding marshal unmarshal read
unmarshal-marshal messages eight fits =
    let size : length (marshal_array 4 messages) ≡ 32 =
      omega (arith, length-marshal_array 4 messages, eight) in
    let back : unmarshal_array 4 num_messages (marshal_array 4 messages) ≡ some (messages, []) =
      subst (λ n. unmarshal_array 4 n (marshal_array 4 messages) ≡ some (messages, [])) (eight)
        (subst (λ bytes. unmarshal_array 4 (length messages) bytes ≡ some (messages, []))
          (append-nil (marshal_array 4 messages)) (unmarshal-marshal_array 4 messages [] fits)) in
    rw (store_exact (marshal_array 4 messages) 32 size) (ground (arith, size, back))
