-- ===== src/Concurrency/Futures/Interleavings.antt =====
-- A producer and a consumer of one shared state, in any order of their steps.
use broadcast_service.Base.{ℕ, ◌≡◌, refl, Bool, true, false, Option, some, List, [], ◌∷◌, arith}
use broadcast_service.Util.Result.{Result}
use broadcast_service.Concurrency.Futures.{
  SharedState, init, do_callback, write_result, write_callback, meet, exchange,
}

-- Where a thread stands in `Produce` or `Consume`.
pub data Progress : Type 0 where
  idle : Progress
  written : Progress
  done : Progress

pub record Threads (T : Type 0) : Type 0 where
  pub shared : SharedState T
  pub producer : Progress
  pub consumer : Progress

module _ {T : Type 0} (result : Result T) (callback : ℕ) where
  -- The states that the steps of the two threads lead to, each thread's in its order.
  pub data Reachable : Threads T → Type 0 where
    start : Reachable (record { shared = init; producer = idle; consumer = idle })
    produce_write :
        {s : SharedState T} {c : Progress}
        → Reachable (record { shared = s; producer = idle; consumer = c })
        → Reachable (record { shared = write_result result s; producer = written; consumer = c })
    produce_meet :
        {s : SharedState T} {c : Progress}
        → Reachable (record { shared = s; producer = written; consumer = c })
        → Reachable (record { shared = meet s; producer = done; consumer = c })
    consume_write :
        {s : SharedState T} {p : Progress}
        → Reachable (record { shared = s; producer = p; consumer = idle })
        → Reachable
            (record { shared = write_callback callback s; producer = p; consumer = written })
    consume_meet :
        {s : SharedState T} {p : Progress}
        → Reachable (record { shared = s; producer = p; consumer = written })
        → Reachable (record { shared = meet s; producer = p; consumer = done })

  -- What has been handed to the executor, and what each thread has written.
  abbrev pub expected : Progress → Progress → List (Option ℕ × Result T)
  expected done done = (some callback, result) ∷ []
  expected p c = []

  abbrev pub met_of : Progress → Progress → Bool
  met_of done c = true
  met_of p done = true
  met_of p c = false

  -- What holds from a thread's write on.
  abbrev Wrote : Progress → Type 0 → Type 0
  Wrote idle P = Unit {0}
  Wrote written P = P
  Wrote done P = P

  record Coherent (s : SharedState T) (p c : Progress) : Type 0 where
    produced : Wrote p (s.result_placeholder ≡ result)
    consumed : Wrote c (s.callback ≡ some callback)
    met : s.rendezvous ≡ met_of p c
    tasks : s.tasks ≡ expected p c

  Coherent-write_result :
      (s : SharedState T) (c : Progress)
      → Coherent s idle c
      → Coherent (write_result result s) written c
  unfolding write_result
  Coherent-write_result s idle i = record {
    produced = refl;
    consumed = tt;
    met = i.met;
    tasks = i.tasks;
  }
  Coherent-write_result s written i = record {
    produced = refl;
    consumed = i.consumed;
    met = i.met;
    tasks = i.tasks;
  }
  Coherent-write_result s done i = record {
    produced = refl;
    consumed = i.consumed;
    met = i.met;
    tasks = i.tasks;
  }

  Coherent-write_callback :
      (s : SharedState T) (p : Progress)
      → Coherent s p idle
      → Coherent (write_callback callback s) p written
  unfolding write_callback
  Coherent-write_callback s idle i = record {
    produced = tt;
    consumed = refl;
    met = i.met;
    tasks = i.tasks;
  }
  Coherent-write_callback s written i = record {
    produced = i.produced;
    consumed = refl;
    met = i.met;
    tasks = i.tasks;
  }
  Coherent-write_callback s done i = record {
    produced = i.produced;
    consumed = refl;
    met = i.met;
    tasks = i.tasks;
  }

  Coherent-produce_meet :
      (s : SharedState T) (c : Progress) → Coherent s written c → Coherent (meet s) done c
  unfolding meet exchange do_callback
  Coherent-produce_meet s idle i = record {
    produced = ground (arith, i.met, i.produced);
    consumed = tt;
    met = ground (arith, i.met);
    tasks = ground (arith, i.met, i.tasks);
  }
  Coherent-produce_meet s written i = record {
    produced = ground (arith, i.met, i.produced);
    consumed = ground (arith, i.met, i.consumed);
    met = ground (arith, i.met);
    tasks = ground (arith, i.met, i.tasks);
  }
  Coherent-produce_meet s done i = record {
    produced = ground (arith, i.met, i.produced);
    consumed = ground (arith, i.met, i.consumed);
    met = ground (arith, i.met);
    tasks = rw (i.met, i.tasks, i.consumed, i.produced) refl;
  }

  Coherent-consume_meet :
      (s : SharedState T) (p : Progress) → Coherent s p written → Coherent (meet s) p done
  unfolding meet exchange do_callback
  Coherent-consume_meet s idle i = record {
    produced = tt;
    consumed = ground (arith, i.met, i.consumed);
    met = ground (arith, i.met);
    tasks = ground (arith, i.met, i.tasks);
  }
  Coherent-consume_meet s written i = record {
    produced = ground (arith, i.met, i.produced);
    consumed = ground (arith, i.met, i.consumed);
    met = ground (arith, i.met);
    tasks = ground (arith, i.met, i.tasks);
  }
  Coherent-consume_meet s done i = record {
    produced = ground (arith, i.met, i.produced);
    consumed = ground (arith, i.met, i.consumed);
    met = ground (arith, i.met);
    tasks = rw (i.met, i.tasks, i.consumed, i.produced) refl;
  }

  Reachable-Coherent : (t : Threads T) → Reachable t → Coherent t.shared t.producer t.consumer
  unfolding init
  Reachable-Coherent t start = record { produced = tt; consumed = tt; met = refl; tasks = refl }
  Reachable-Coherent t (produce_write {s} {c} r) =
      Coherent-write_result s c (Reachable-Coherent _ r)
  Reachable-Coherent t (produce_meet {s} {c} r) = Coherent-produce_meet s c (Reachable-Coherent _ r)
  Reachable-Coherent t (consume_write {s} {p} r) =
      Coherent-write_callback s p (Reachable-Coherent _ r)
  Reachable-Coherent t (consume_meet {s} {p} r) = Coherent-consume_meet s p (Reachable-Coherent _ r)

  -- However the steps of a producer and a consumer interleave, nothing has been handed to the
  -- executor until both are through, and then it is the callback with the produced result, once.
  pub Reachable-tasks :
      (t : Threads T) → Reachable t → t.shared.tasks ≡ expected t.producer t.consumer
  Reachable-tasks t r = (Reachable-Coherent t r).tasks
