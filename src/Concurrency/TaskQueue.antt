-- ===== src/Concurrency/TaskQueue.antt =====
-- include/concurrency/task_queue.hpp: `BatchedLFStack` and `BatchedLFQueue`. The nodes that hang from
-- `top_` are a list, the last pushed first; a push or a pop that loses a race starts again, and takes
-- effect as one step.
use broadcast_service.Base.{◌≡◌, refl, sym, ◌∙◌, List, [], ◌∷◌, ◌++◌, append_assoc, append-nil}

module _ {ℓ} {A : Type ℓ} where
  -- `BatchedLFStack::Push` of one task.
  abbrev pub push_top : A → List A → List A
  push_top task stack = task ∷ stack

  -- `BatchedLFStack::Push` of a list: its last node points to the old top.
  abbrev pub push_list : List A → List A → List A
  push_list list stack = list ++ stack

  -- The loops of `ReverseList` and `CreateReverseList`, which push each node to the front.
  unfoldable pub push_front_all : List A → List A → List A
  push_front_all [] reversed = reversed
  push_front_all (node ∷ nodes) reversed = push_front_all nodes (node ∷ reversed)

  abbrev pub reverse_list : List A → List A
  reverse_list list = push_front_all list []

  -- `BatchedLFQueue::Push` of one task.
  unfoldable pub push : A → List A → List A
  push task queue = push_top task queue

  -- `BatchedLFQueue::Push` of a list.
  unfoldable pub push_all : List A → List A → List A
  push_all list queue = push_list (reverse_list list) queue

  -- `TryPopAll`: the tasks in order, and the empty queue.
  unfoldable pub try_pop_all : List A → List A × List A
  try_pop_all queue = (reverse_list queue, [])

  push_front_all-append :
      (xs ys acc : List A)
      → push_front_all (xs ++ ys) acc ≡ push_front_all ys (push_front_all xs acc)
  unfolding push_front_all
  push_front_all-append [] ys acc = refl
  push_front_all-append (x ∷ xs) ys acc = push_front_all-append xs ys (x ∷ acc)

  push_front_all_nil : (xs acc : List A) → push_front_all xs acc ≡ push_front_all xs [] ++ acc
  unfolding push_front_all
  push_front_all_nil [] acc = refl
  push_front_all_nil (x ∷ xs) acc =
      rw (push_front_all_nil xs (x ∷ acc), push_front_all_nil xs (x ∷ []))
        (sym (append_assoc (push_front_all xs []) (x ∷ []) acc))

  push_front_all_twice :
      (xs acc : List A) → push_front_all (push_front_all xs acc) [] ≡ push_front_all acc [] ++ xs
  unfolding push_front_all
  push_front_all_twice [] acc = sym (append-nil (push_front_all acc []))
  push_front_all_twice (x ∷ xs) acc =
      push_front_all_twice xs (x ∷ acc)
      ∙ rw (push_front_all_nil acc (x ∷ [])) (append_assoc (push_front_all acc []) (x ∷ []) xs)

  -- The queue is first in, first out: a pushed task comes after all that were there, and so does a
  -- pushed list, in its order; to pop takes all of them.
  pub try_pop_all-push :
      (task : A) (list queue : List A)
      → ((try_pop_all (push task queue)).0 ≡ (try_pop_all queue).0 ++ task ∷ [])
        × ((try_pop_all (push_all list queue)).0 ≡ (try_pop_all queue).0 ++ list)
        × ((try_pop_all (try_pop_all queue).1).0 ≡ [])
  unfolding try_pop_all push push_all push_front_all
  try_pop_all-push task list queue = (
    push_front_all_nil queue (task ∷ []),
    push_front_all-append (push_front_all list []) queue []
        ∙ (push_front_all_nil queue (push_front_all (push_front_all list []) [])
            ∙ rw (push_front_all_twice list []) refl),
    refl,
  )
