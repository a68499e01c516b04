-- ===== src/Concurrency/Queue/Draining.antt =====
-- What a closed queue gives.
use broadcast_service.Base.{
  ◌≡◌, refl, sym, ◌∙◌, ap, append-nil, false, Option, none, some, List, [], ◌∷◌, ◌++◌, append_assoc,
  map, arith, ◌>>=◌,
}
use broadcast_service.Concurrency.Queue.{Queue, init, put, take, take_front, waits, close, clear}

module _ {T : Type 0} where
  unfoldable pub put_all : List T → Queue T → Queue T
  put_all [] q = q
  put_all (value ∷ values) q = put_all values (put value q).1

  -- As many values as the list has elements; the results of all.
  unfoldable pub take_all : List T → Queue T → Option (List (Option T) × Queue T)
  take_all [] q = some ([], q)
  take_all (x ∷ xs) q = do
    (value, q) ← take q
    (values, q) ← take_all xs q
    some (value ∷ values, q)

  buffer-put_all :
      (values : List T) (q : Queue T)
      → q.is_closed ≡ false
      → put_all values q ≡ record q { buffer = q.buffer ++ values }
  unfolding put_all put
  buffer-put_all [] q h =
      ap (λ xs. record { buffer = xs; is_closed = q.is_closed }) (sym (append-nil q.buffer))
  buffer-put_all (value ∷ values) q h =
      let next : Queue T = record { buffer = q.buffer ++ value ∷ []; is_closed = q.is_closed } in
      let step : (put value q).1 ≡ next = ground (arith, h) in
      ap (put_all values) step
      ∙ (buffer-put_all values next h
          ∙ ap (λ xs. record { buffer = xs; is_closed = q.is_closed })
              (append_assoc q.buffer (value ∷ []) values))

  take_all-buffer :
      (values : List T) (q : Queue T)
      → q.buffer ≡ values
      → take_all values q ≡ some (map some values, record q { buffer = [] })
  unfolding take_all take take_front waits
  take_all-buffer [] q e = ground arith
  take_all-buffer (value ∷ values) q e =
      ground (arith, take_all-buffer values (record q { buffer = values }) refl)

  -- Any values that are put into a new queue, which is then closed, are taken in the order in which they
  -- were put, by as many calls; then the queue gives no value, at once, and accepts none, and the
  -- elements of a queue that is cleared are never given.
  pub take_all-put_all :
      (values : List T)
      → (take_all values (close (put_all values (init {T = T})))
          ≡ some (map some values, clear (init {T = T})))
        × (take {T = T} (clear (init {T = T})) ≡ some (none, clear (init {T = T})))
        × ((value : T) → put value (clear (init {T = T})) ≡ (false, clear (init {T = T})))
        × ((q : Queue T) → take {T = T} (clear q) ≡ some (none, clear q))
  unfolding close clear init take take_front waits put
  take_all-put_all values =
      let filled = buffer-put_all values (init {T = T}) refl in
      (
        ap (λ q. take_all values (close q)) filled
            ∙ take_all-buffer values (close (record (init {T = T}) { buffer = values })) refl,
        refl,
        (λ value. refl),
        (λ q. refl),
      )
