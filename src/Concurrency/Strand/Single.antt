-- ===== src/Concurrency/Strand/Single.antt =====
-- One run at a time, and no task left behind.
use broadcast_service.Base.{
  ℕ, ◌+◌, ◌-◌, ◌%◌, ◌^◌, ◌<◌, ◌≤◌, ◌≡◌, ◌≢◌, refl, sym, ap, ◌∙◌, List, [], ◌∷◌, ◌++◌, append_assoc,
  append-nil, arith, nat_eq, if◌then◌else◌, ltb, length, length-append,
}
use broadcast_service.Concurrency.Strand.{Strand, init, push, count, begin, start, exceeds, finish}

module _ {T : Type 0} where
  -- The states that the threads' steps lead to, with fewer than 2 ^ 63 tasks.
  pub data Reachable : Strand T → Type 0 where
    initial : Reachable init
    pushes :
        {s : Strand T} (task : T)
        → Reachable s
        → length s.pushed + 1 < 2 ^ 63
        → Reachable (push task s)
    counts : {s : Strand T} → Reachable s → 0 < s.uncounted → Reachable (count s)
    starts : {s : Strand T} → Reachable s → 0 < s.scheduled → Reachable (start s)
    finishes :
        {s : Strand T} (before after : List (List T)) (batch : List T)
        → Reachable s
        → s.running ≡ before ++ batch ∷ after
        → Reachable (finish (length batch) (before ++ after) s)

  abbrev pub in_flight : List (List T) → ℕ
  in_flight [] = 0
  in_flight (batch ∷ batches) = length batch + in_flight batches

  no_flight : (running : List (List T)) → length running ≡ 0 → in_flight running ≡ 0
  no_flight [] e = refl
  no_flight (batch ∷ running) e = absurd (omega arith)

  record Counted (s : Strand T) : Type 0 where
    value : s.submitted ≡ (length s.tasks + in_flight s.running + 2 ^ 64 - s.uncounted) % 2 ^ 64
    active :
        s.scheduled + length s.running
        ≡ (if ltb s.uncounted (length s.tasks + in_flight s.running) then 1 else 0)
    order : s.processed ++ s.tasks ≡ s.pushed
    held : length s.tasks + in_flight s.running ≤ length s.pushed
    uncounted : s.uncounted ≤ length s.pushed
    few : length s.pushed < 2 ^ 63

  Counted-push :
      (task : T) (s : Strand T) → length s.pushed + 1 < 2 ^ 63 → Counted s → Counted (push task s)
  unfolding push
  Counted-push task s few i =
      let n = length-append s.tasks (task ∷ []) in
      let m = length-append s.pushed (task ∷ []) in
      record {
        value = omega (arith, n, i.value, i.held, i.uncounted);
        active = ground (arith, n, i.active);
        order =
            sym (append_assoc s.processed s.tasks (task ∷ [])) ∙ ap (λ xs. xs ++ task ∷ []) i.order;
        held = omega (arith, n, m, i.held);
        uncounted = omega (arith, m, i.uncounted);
        few = omega (arith, m);
      }

  Counted-count : (s : Strand T) → 0 < s.uncounted → Counted s → Counted (count s)
  unfolding count
  Counted-count s some_uncounted i = record {
    value = omega (arith, i.value, i.held, i.uncounted, i.few);
    active = ground (arith, i.active, i.value, i.held, i.uncounted, i.few);
    order = i.order;
    held = i.held;
    uncounted = omega (arith, i.uncounted);
    few = i.few;
  }

  Counted-begin :
      (batch : List T) (s : Strand T)
      → s.tasks ≡ batch
      → 0 < s.scheduled
      → Counted s
      → Counted (begin batch (record s { scheduled = s.scheduled - 1 }))
  unfolding begin
  Counted-begin [] s e some_scheduled i =
      absurd (ground (arith, i.active, ap length e, no_flight s.running))
  Counted-begin (task ∷ batch) s e some_scheduled i =
      let n = ap length e in
      record {
        value = omega (arith, i.value, n);
        active = ground (arith, i.active, n);
        order =
            append-nil (s.processed ++ task ∷ batch)
            ∙ (sym (ap (λ xs. s.processed ++ xs) e) ∙ i.order);
        held = omega (arith, i.held, n);
        uncounted = i.uncounted;
        few = i.few;
      }

  in_flight-append :
      (before after : List (List T))
      → in_flight (before ++ after) ≡ in_flight before + in_flight after
  in_flight-append [] after = omega arith
  in_flight-append (b ∷ before) after = omega (arith, in_flight-append before after)

  Counted-finish :
      (before after : List (List T)) (batch : List T) (s : Strand T)
      → s.running ≡ before ++ batch ∷ after
      → Counted s
      → Counted (finish (length batch) (before ++ after) s)
  unfolding finish exceeds
  Counted-finish before after batch s e i =
      let n = ap length e in
      let flying = ap in_flight e in
      let l = length-append before (batch ∷ after) in
      let f = in_flight-append before (batch ∷ after) in
      let l' = length-append before after in
      let f' = in_flight-append before after in
      record {
        value = omega (arith, i.value, flying, f, f', i.held, i.uncounted, i.few);
        active =
            ground (arith, i.active, i.value, n, flying, l, f, l', f', i.held, i.uncounted, i.few);
        order = i.order;
        held = omega (arith, i.held, flying, f, f');
        uncounted = i.uncounted;
        few = i.few;
      }

  Counted-init : Counted init
  unfolding init
  Counted-init = record {
    value = refl;
    active = refl;
    order = refl;
    held = omega arith;
    uncounted = omega arith;
    few = omega arith;
  }

  Reachable-Counted : (s : Strand T) → Reachable s → Counted s
  unfolding start
  Reachable-Counted s initial = Counted-init
  Reachable-Counted s (pushes {s = v} task r few) = Counted-push task v few (Reachable-Counted v r)
  Reachable-Counted s (counts {s = v} r some_uncounted) =
      Counted-count v some_uncounted (Reachable-Counted v r)
  Reachable-Counted s (starts {s = v} r some_scheduled) =
      Counted-begin v.tasks v refl some_scheduled (Reachable-Counted v r)
  Reachable-Counted s (finishes {s = v} before after batch r e) =
      Counted-finish before after batch v e (Reachable-Counted v r)

  no_task : (tasks : List T) → length tasks ≡ 0 → tasks ≡ []
  no_task [] e = refl
  no_task (task ∷ tasks) e = absurd (omega arith)

  -- In whatever order the threads take their steps, with fewer than 2 ^ 63 tasks: at most one run of
  -- the strand is with the executor or has started; a run that starts finds a task; the tasks are
  -- processed in the order of their pushes, the others waiting; and when each push has been counted
  -- and no run is left, all tasks have been processed.
  pub Reachable-processed :
      (s : Strand T)
      → Reachable s
      → (s.scheduled + length s.running ≤ 1)
        × (0 < s.scheduled → s.tasks ≢ [])
        × (s.processed ++ s.tasks ≡ s.pushed)
        × (s.uncounted ≡ 0 → s.scheduled + length s.running ≡ 0 → s.processed ≡ s.pushed)
  Reachable-processed s r =
      let i = Reachable-Counted s r in
      (
        ground (arith, i.active),
        λ h e. ground (arith, i.active, ap length e, no_flight s.running),
        i.order,
        λ counted idle.
            let e : s.tasks ≡ [] =
              no_task s.tasks (ground (arith, i.active, no_flight s.running)) in
            sym (append-nil s.processed) ∙ (sym (ap (λ xs. s.processed ++ xs) e) ∙ i.order),
      )
