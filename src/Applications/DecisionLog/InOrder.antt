-- ===== src/Applications/DecisionLog/InOrder.antt =====
-- The order of the log.
use broadcast_service.Base.{
  ℕ, ◌+◌, ◌-◌, ◌^◌, ◌<◌, ◌≤◌, ◌≡◌, ◌≢◌, refl, sym, ap, subst, inl, inr, true, false, ◌||◌, List, [],
  ◌∷◌, arith, nat_eq, ◌==◌, contains, length, Distinct, Bool-cases,
}
use broadcast_service.Util.Dict
use broadcast_service.Applications.DecisionLog.{
  DecisionLog, init, log_next, drain, decided, decide_all,
}
use broadcast_service.Applications.DecisionLog.Draining.{
  first, Logged, Small, CaughtUp, Logged-drain, drain_done, Logged-log_next, cache-log_next,
}

module _ {S : Type 0} (set : ℕ → S) where
  -- Between two calls of the callback.
  record Settled (rounds : List ℕ) (l : DecisionLog S) : Type 0 where
    logged : Logged set rounds l
    caught_up : contains l.next_round_to_log rounds ≡ false

  decided_next :
      (round : ℕ) (s : S) (l : DecisionLog S)
      → round ≡ l.next_round_to_log
      → decided round s l ≡ drain (length l.out_of_order_cache + 1) (log_next s l)
  unfolding decided
  decided_next round s l e = ground arith

  decided_later :
      (round : ℕ) (s : S) (l : DecisionLog S)
      → round ≢ l.next_round_to_log
      → decided round s l
        ≡ record l { out_of_order_cache = Dict.assign round s l.out_of_order_cache }
  unfolding decided
  decided_later round s l n = ground arith

  Settled-Logged :
      (rounds : List ℕ) (l : DecisionLog S)
      → Logged set rounds l
      → CaughtUp set l
      → Settled rounds l
  Settled-Logged rounds l i e = record {
    logged = i;
    caught_up = ground (arith, i.cached l.next_round_to_log, e);
  }

  Settled-cached :
      (rounds : List ℕ) (round : ℕ) (l : DecisionLog S)
      → contains round rounds ≡ false
      → round ≢ l.next_round_to_log
      → Settled rounds l
      → Settled
          (round ∷ rounds)
          (record l { out_of_order_cache = Dict.assign round (set round) l.out_of_order_cache })
  unfolding contains
  Settled-cached rounds round l fresh other i =
      let beyond : l.next_round_to_log ≤ round = ground (arith, i.logged.below round, fresh) in
      record {
        logged = record {
          output = i.logged.output;
          cached = λ r. ground (
            arith,
            beyond,
            Dict.lookup-assign round r (set round) l.out_of_order_cache,
            i.logged.cached r,
            ap set {x = round} {y = r},
          );
          below = λ r h. ground (arith, i.logged.below r);
        };
        caught_up = ground (arith, i.caught_up);
      }

  Settled-decided :
      (rounds : List ℕ) (round : ℕ) (l : DecisionLog S)
      → Small (round ∷ rounds)
      → contains round rounds ≡ false
      → Settled rounds l
      → Settled (round ∷ rounds) (decided round (set round) l)
  Settled-decided rounds round l small fresh i = elim (Bool-cases (round == l.next_round_to_log)) [
    | inl e ↦
        let same : round ≡ l.next_round_to_log = ground arith in
        let made : Logged set (round ∷ rounds) (log_next (set round) l) =
          subst (λ k. Logged set (k ∷ rounds) (log_next (set k) l)) (sym same)
            (Logged-log_next set rounds l (subst (λ k. Small (k ∷ rounds)) same small) i.caught_up
              i.logged) in
        let fuel : ℕ = length l.out_of_order_cache + 1 in
        subst (Settled (round ∷ rounds)) (sym (decided_next round (set round) l same)) (
          Settled-Logged (round ∷ rounds) (drain fuel (log_next (set round) l))
            (Logged-drain set (round ∷ rounds) fuel (log_next (set round) l) small made)
            (drain_done set fuel (log_next (set round) l) (cache-log_next set (set round) l)))
    | inr n ↦
        let other : round ≢ l.next_round_to_log = ground arith in
        subst (Settled (round ∷ rounds)) (sym (decided_later round (set round) l other))
          (Settled-cached rounds round l fresh other i)
  ]

  Settled-init : Settled [] init
  unfolding init contains Dict.lookup
  Settled-init = record {
    logged = record { output = refl; cached = λ r. refl; below = λ r h. ground arith };
    caught_up = refl;
  }

  -- The rounds decided before, and the others in front.
  rev_append : List ℕ → List ℕ → List ℕ
  rev_append [] before = before
  rev_append (round ∷ rounds) before = rev_append rounds (round ∷ before)

  contains-rev_append :
      (r : ℕ) (rounds before : List ℕ)
      → contains r (rev_append rounds before) ≡ (contains r before || contains r rounds)
  unfolding rev_append contains
  contains-rev_append r [] before = ground arith
  contains-rev_append r (round ∷ rounds) before =
      ground (arith, contains-rev_append r rounds (round ∷ before))

  Settled-decide_all :
      (before rounds : List ℕ) (l : DecisionLog S)
      → Small before
      → Small rounds
      → Distinct rounds
      → ((r : ℕ) → contains r before ≡ true → contains r rounds ≡ false)
      → Settled before l
      → Settled (rev_append rounds before) (decide_all set rounds l)
  unfolding decide_all rev_append contains
  Settled-decide_all before [] l old small d apart i = i
  Settled-decide_all before (round ∷ rounds) l old small d apart i =
      let more : Small (round ∷ before) = λ r h. ground (arith, old r, small r) in
      Settled-decide_all (round ∷ before) rounds (decided round (set round) l) more
        (λ r h. small r (ground arith)) d.1 (λ r h. ground (arith, apart r, d.0))
        (Settled-decided before round l more (ground (arith, apart round)) i)

  -- In whatever order the decisions of different rounds come, each round below 2 ^ 32 - 1, the log
  -- holds the decisions of the rounds before the next one to log, each once and in their order; all
  -- of these have come, and the next one has not.
  pub decide_all-first :
      (rounds : List ℕ)
      → Distinct rounds
      → ((r : ℕ) → contains r rounds ≡ true → r < 2 ^ 32 - 1)
      → let l = decide_all set rounds init in
        (l.output ≡ first set l.next_round_to_log)
        × ((r : ℕ) → r < l.next_round_to_log → contains r rounds ≡ true)
        × (contains l.next_round_to_log rounds ≡ false)
  unfolding contains
  decide_all-first rounds d small =
      let l = decide_all set rounds init in
      let made =
        Settled-decide_all [] rounds init (λ r h. ground arith) small d (λ r h. ground arith)
          Settled-init in
      (
        made.logged.output,
        λ r h. ground (arith, made.logged.below r, contains-rev_append r rounds []),
        ground (arith, made.caught_up, contains-rev_append l.next_round_to_log rounds []),
      )
