-- ===== src/Concurrency/Queue/Tests.antt =====
-- Three values through a queue.
use broadcast_service.Base.{ℕ, ◌≡◌, refl, false, none, some, List, [], ◌∷◌, map}
use broadcast_service.Concurrency.Queue.{Queue, init, put, take, take_front, waits, close, clear}
use broadcast_service.Concurrency.Queue.Draining.{put_all, take_all, take_all-put_all}

abbrev values : List ℕ
values = 3 ∷ 1 ∷ 2 ∷ []

take_all-put_all_example :
    (take_all values (close (put_all values init)) ≡ some (map some values, clear init))
    × (take (clear (init {T = ℕ})) ≡ some (none, clear init))
    × ((value : ℕ) → put value (clear init) ≡ (false, clear init))
    × ((q : Queue ℕ) → take (clear q) ≡ some (none, clear q))
take_all-put_all_example = take_all-put_all values

-- A queue that is open and empty makes its readers wait.
take_open : take (init {T = ℕ}) ≡ none
unfolding take init waits take_front
take_open = refl
