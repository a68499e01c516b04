-- ===== src/Util/IntrusiveList/Tests.antt =====
-- The lists through pointers at concrete nodes.
use broadcast_service.Base.{◌≡◌, refl, List, [], ◌∷◌, arith, nat_eq, contains}
use broadcast_service.Util.IntrusiveList.{null, Memory, IntrusiveList}
use broadcast_service.Util.IntrusiveList.Chains.{Represents}
use broadcast_service.Util.IntrusiveList.Refinement.{Yields}
use broadcast_service.Util.IntrusiveList.Runs.{
  Command, back, front, pop, run, run_list, run-run_list,
}

abbrev memory : Memory
memory a = null

abbrev empty : IntrusiveList
empty = record { head = null; tail = null; size = 0 }

abbrev commands : List Command
commands = back 5 ∷ front 7 ∷ pop ∷ back 9 ∷ pop ∷ pop ∷ pop ∷ front 5 ∷ []

commands_output : run_list commands [] ≡ (7 ∷ 5 ∷ 9 ∷ null ∷ [], 5 ∷ [])
unfolding run_list
commands_output = refl

run-run_list_example :
    Yields
      (run commands empty memory)
      (λ (out, (m, g)). (out ≡ (run_list commands []).0) × Represents g m (run_list commands []).1)
unfolding contains
run-run_list_example =
    run-run_list commands [] empty memory
      (record { chain = (refl, refl); distinct = tt; size = refl })
      (omega arith, refl, (omega arith, refl, (omega arith, refl, (omega arith, refl, tt))))
