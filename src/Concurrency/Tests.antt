-- ===== src/Concurrency/Tests.antt =====
-- The shared map and the shared set on small contents.
use broadcast_service.Base.{◌++◌, ℕ, ◌≡◌, refl, List, [], ◌∷◌, Distinct, contains, nat_eq}
use broadcast_service.Concurrency.MrmwMap.{}
use broadcast_service.Concurrency.MrmwSet.{}
use broadcast_service.Concurrency.Budget.{Budget}
use broadcast_service.Concurrency.TaskQueue.{push, push_all, try_pop_all, try_pop_all-push}

abbrev one : ℕ
one = 1

abbrev two : ℕ
two = 2

abbrev four : ℕ
four = 4

abbrev five : ℕ
five = 5

abbrev entries : List (ℕ × ℕ)
entries = (1, 10) ∷ (2, 20) ∷ []

abbrev keys : List ℕ
keys = 4 ∷ 5 ∷ []

keys-Distinct : Distinct keys
unfolding contains
keys-Distinct = (refl, (refl, tt))

abbrev budget : Budget
budget = record { counter = 3; max_budget = 10 }

try_pop_all-push_example :
    ((try_pop_all (push one keys)).0 ≡ (try_pop_all keys).0 ++ one ∷ [])
    × ((try_pop_all (push_all keys keys)).0 ≡ (try_pop_all keys).0 ++ keys)
    × ((try_pop_all (try_pop_all keys).1).0 ≡ [])
try_pop_all-push_example = try_pop_all-push one keys keys
