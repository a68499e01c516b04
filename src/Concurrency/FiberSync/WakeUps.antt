-- ===== src/Concurrency/FiberSync/WakeUps.antt =====
-- Who waits for an event or a wait group.
use broadcast_service.Base.{
  ℕ, suc, zero, ◌^◌, ◌<◌, ◌≡◌, refl, sym, ap, ◌∙◌, true, false, List, [], ◌∷◌, ◌++◌, nat_eq, arith,
  append_assoc, append-nil,
}
use broadcast_service.Concurrency.FiberSync.{
  new_event, wait, fire, FiberWaitGroup, add, done, wait_group,
}

-- The fibers wait, one after the other.
unfoldable pub wait_all : List ℕ → FiberWaitGroup → FiberWaitGroup
wait_all [] g = g
wait_all (fiber ∷ fibers) g = wait_all fibers (wait_group fiber g).1

-- `Done()` as many times.
unfoldable pub done_times : ℕ → FiberWaitGroup → List ℕ × FiberWaitGroup
done_times zero g = ([], g)
done_times (suc n) g =
    let last = done 1 g in let rest = done_times n last.1 in (last.0 ++ rest.0, rest.1)

unfoldable pub new_group : FiberWaitGroup
new_group = record { counter = 0; event = new_event }

waiting : ℕ → List ℕ → FiberWaitGroup
waiting n fibers = record { counter = n; event = record { sleepers = fibers; is_fired = false } }

wait_all_lem :
    (fibers before : List ℕ) (n : ℕ)
    → wait_all fibers (waiting n before) ≡ waiting n (before ++ fibers)
unfolding wait_all wait_group wait waiting
wait_all_lem [] before n = ap (waiting n) (sym (append-nil before))
wait_all_lem (fiber ∷ fibers) before n =
    wait_all_lem fibers (before ++ fiber ∷ []) n
    ∙ ap (waiting n) (append_assoc before (fiber ∷ []) fibers)

fired : FiberWaitGroup
fired = record { counter = 0; event = record { sleepers = []; is_fired = true } }

done_more :
    (n : ℕ) (fibers : List ℕ)
    → suc (suc n) < 2 ^ 64
    → done 1 (waiting (suc (suc n)) fibers) ≡ ([], waiting (suc n) fibers)
unfolding done waiting
done_more n fibers small = ground arith

done_last : (fibers : List ℕ) → done 1 (waiting 1 fibers) ≡ (fibers, fired)
unfolding done waiting fired fire
done_last fibers = refl

done_times_some :
    (n : ℕ) (fibers : List ℕ)
    → suc n < 2 ^ 64
    → done_times n (waiting (suc n) fibers) ≡ ([], waiting 1 fibers)
unfolding done_times
done_times_some zero fibers small = refl
done_times_some (suc n) fibers small =
    ap (λ last. (last.0 ++ (done_times n last.1).0, (done_times n last.1).1))
      (done_more n fibers (omega arith))
    ∙ done_times_some n fibers (omega arith)

done_times_all :
    (n : ℕ) (fibers : List ℕ)
    → suc n < 2 ^ 64
    → done_times (suc n) (waiting (suc n) fibers) ≡ (fibers, fired)
unfolding done_times
done_times_all zero fibers small =
    ap (λ last. (last.0 ++ [], last.1)) (done_last fibers)
    ∙ ap (λ xs. (xs, fired)) (append-nil fibers)
done_times_all (suc n) fibers small =
    ap (λ last. (last.0 ++ (done_times (suc n) last.1).0, (done_times (suc n) last.1).1))
      (done_more n fibers (omega arith))
    ∙ done_times_all n fibers (omega arith)

added : (n : ℕ) → n < 2 ^ 64 → add n new_group ≡ waiting n []
unfolding add new_group new_event waiting
added n small = ground arith

-- A positive number below 2 ^ 64 is added to a new group, and fibers wait for it, all before the first
-- `Done()`. They sleep until as many `Done()` have been called: the last one awakes all of them, in the
-- order in which they waited, the ones before awake none, and after it a wait goes on at once.
pub done_times-wait_all :
    (n : ℕ) (fibers : List ℕ)
    → suc n < 2 ^ 64
    → ((done_times n (wait_all fibers (add (suc n) new_group))).0 ≡ [])
      × ((done_times (suc n) (wait_all fibers (add (suc n) new_group))).0 ≡ fibers)
      × ((fiber : ℕ)
          → (wait_group fiber (done_times (suc n) (wait_all fibers (add (suc n) new_group))).1).0
            ≡ true)
unfolding wait_group wait fired
done_times-wait_all n fibers small =
    let ready : wait_all fibers (add (suc n) new_group) ≡ waiting (suc n) fibers =
      ap (wait_all fibers) (added (suc n) small) ∙ wait_all_lem fibers [] (suc n) in
    let all : done_times (suc n) (wait_all fibers (add (suc n) new_group)) ≡ (fibers, fired) =
      ap (done_times (suc n)) ready ∙ done_times_all n fibers small in
    (
      ap (λ g. (done_times n g).0) ready ∙ ap (λ r. r.0) (done_times_some n fibers small),
      ap (λ r. r.0) all,
      λ fiber. ap (λ r. (wait_group fiber r.1).0) all,
    )
