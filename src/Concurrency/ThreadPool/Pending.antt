-- ===== src/Concurrency/ThreadPool/Pending.antt =====
-- What the counter of pending tasks tells.
use broadcast_service.Base.{
  ◌+◌, ◌-◌, ◌^◌, ◌<◌, ◌≡◌, refl, sym, ap, ◌∙◌, subst, Bool, true, false, Option, List, [], ◌∷◌,
  ◌++◌, append_assoc, append-nil, arith, length, length-append, Bool-cases, inl, inr,
}
use broadcast_service.Concurrency.FiberSync.{add_thread, done_thread}
use broadcast_service.Concurrency.Queue
use broadcast_service.Concurrency.Queue.{Queue}
use broadcast_service.Concurrency.ThreadPool.{
  ThreadPool, init, add, put, given, take, done, signal_stop,
}

module _ {T : Type 0} where
  -- The steps of the threads that call `Execute` and `SignalStop`, and of the workers, in any order.
  pub data Reachable : ThreadPool T → Type 0 where
    initial : Reachable init
    adds : {s : ThreadPool T} → Reachable s → s.pending_tasks + 1 < 2 ^ 32 → Reachable (add s)
    puts : {s : ThreadPool T} (task : T) → Reachable s → 0 < s.adding → Reachable (put task s)
    takes : {s : ThreadPool T} → Reachable s → Reachable (take s)
    dones : {s : ThreadPool T} → Reachable s → 0 < s.owing → Reachable (done s)
    stops : {s : ThreadPool T} → Reachable s → Reachable (signal_stop s)

  record Counted (s : ThreadPool T) : Type 0 where
    value : s.pending_tasks ≡ s.adding + s.owing + length s.tasks.buffer
    order : s.taken ++ s.tasks.buffer ≡ s.accepted
    few : s.pending_tasks < 2 ^ 32

  Counted-add : (s : ThreadPool T) → s.pending_tasks + 1 < 2 ^ 32 → Counted s → Counted (add s)
  unfolding add add_thread
  Counted-add s small i = record {
    value = omega (arith, i.value);
    order = i.order;
    few = omega arith;
  }

  put_open :
      (task : T) (s : ThreadPool T)
      → s.tasks.is_closed ≡ false
      → put task s ≡ record s {
        tasks = record { buffer = s.tasks.buffer ++ task ∷ []; is_closed = s.tasks.is_closed };
        adding = s.adding - 1;
        accepted = s.accepted ++ task ∷ [];
      }
  unfolding put Queue.put
  put_open task s h = ground (arith, h)

  put_closed :
      (task : T) (s : ThreadPool T)
      → s.tasks.is_closed ≡ true
      → put task s ≡ record s { adding = s.adding - 1; owing = s.owing + 1 }
  unfolding put Queue.put
  put_closed task s h = ground (arith, h)

  Counted-put : (task : T) (s : ThreadPool T) → 0 < s.adding → Counted s → Counted (put task s)
  Counted-put task s some_adding i = elim (Bool-cases s.tasks.is_closed) [
    | inl closed ↦
        subst Counted (sym (put_closed task s closed))
          (record { value = omega (arith, i.value); order = i.order; few = i.few })
    | inr not_closed ↦ subst Counted (sym (put_open task s not_closed)) (record {
      value = omega (arith, i.value, length-append s.tasks.buffer (task ∷ []));
      order =
          sym (append_assoc s.taken s.tasks.buffer (task ∷ []))
          ∙ ap (λ xs. xs ++ task ∷ []) i.order;
      few = i.few;
    })
  ]

  -- A take with the buffer given.
  take_from : (buffer : List T) (closed : Bool) → Option (Option T × Queue T)
  take_from buffer closed = Queue.take (record { buffer = buffer; is_closed = closed })

  Counted-given :
      (buffer : List T) (closed : Bool) (s : ThreadPool T)
      → s.tasks ≡ record { buffer = buffer; is_closed = closed }
      → Counted s
      → Counted (given (take_from buffer closed) s)
  unfolding given take_from Queue.take Queue.take_front Queue.waits
  Counted-given [] false s e i = i
  Counted-given [] true s e i = record {
    value = i.value ∙ ap (λ q. s.adding + s.owing + length q.buffer) e;
    order = sym (ap (λ q. s.taken ++ q.buffer) e) ∙ i.order;
    few = i.few;
  }
  Counted-given (task ∷ buffer) closed s e i =
      let n = ap (λ q. length q.buffer) e in
      record {
        value = omega (arith, i.value, n);
        order =
            append_assoc s.taken (task ∷ []) buffer
            ∙ (sym (ap (λ q. s.taken ++ q.buffer) e) ∙ i.order);
        few = i.few;
      }

  Counted-take : (s : ThreadPool T) → Counted s → Counted (take s)
  unfolding take take_from
  Counted-take s i = Counted-given s.tasks.buffer s.tasks.is_closed s refl i

  Counted-done : (s : ThreadPool T) → 0 < s.owing → Counted s → Counted (done s)
  unfolding done done_thread
  Counted-done s some_owing i = record {
    value = omega (arith, i.value, i.few);
    order = i.order;
    few = omega arith;
  }

  Counted-signal_stop : (s : ThreadPool T) → Counted s → Counted (signal_stop s)
  unfolding signal_stop Queue.close
  Counted-signal_stop s i = record { value = i.value; order = i.order; few = i.few }

  Counted-init : Counted init
  unfolding init Queue.init
  Counted-init = record { value = refl; order = refl; few = omega arith }

  Reachable-Counted : (s : ThreadPool T) → Reachable s → Counted s
  Reachable-Counted s initial = Counted-init
  Reachable-Counted s (adds {s = v} r small) = Counted-add v small (Reachable-Counted v r)
  Reachable-Counted s (puts {s = v} task r h) = Counted-put task v h (Reachable-Counted v r)
  Reachable-Counted s (takes {s = v} r) = Counted-take v (Reachable-Counted v r)
  Reachable-Counted s (dones {s = v} r h) = Counted-done v h (Reachable-Counted v r)
  Reachable-Counted s (stops {s = v} r) = Counted-signal_stop v (Reachable-Counted v r)

  all_taken :
      (buffer : List T) (s : ThreadPool T)
      → s.tasks.buffer ≡ buffer
      → Counted s
      → s.pending_tasks ≡ 0
      → (s.taken ≡ s.accepted) × (s.adding ≡ 0) × (s.owing ≡ 0)
  all_taken [] s e i none_pending =
      let order : s.taken ++ s.tasks.buffer ≡ s.accepted = i.order in
      (
        sym (append-nil s.taken) ∙ (sym (ap (λ xs. s.taken ++ xs) e) ∙ order),
        omega (arith, i.value),
        omega (arith, i.value),
      )
  all_taken (task ∷ buffer) s e i none_pending = absurd (omega (arith, i.value, ap length e))

  -- In whatever order the threads take their steps, with fewer than 2 ^ 32 - 1 tasks pending before each
  -- addition, and without a shutdown: the tasks are taken in the order in which they were accepted, and
  -- those in the queue are the others; and if none is pending, so that `Wait` returns, all tasks that
  -- were accepted have been taken and run, and no call of `Execute` is under way.
  pub Reachable-taken :
      (s : ThreadPool T)
      → Reachable s
      → (s.taken ++ s.tasks.buffer ≡ s.accepted)
        × (s.pending_tasks ≡ 0 → (s.taken ≡ s.accepted) × (s.adding ≡ 0) × (s.owing ≡ 0))
  Reachable-taken s r =
      let i = Reachable-Counted s r in (i.order, λ e. all_taken s.tasks.buffer s refl i e)
