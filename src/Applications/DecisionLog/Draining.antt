-- ===== src/Applications/DecisionLog/Draining.antt =====
-- What the log and the cache hold while decisions come in.
use broadcast_service.Base.{
  ℕ, zero, suc, ◌+◌, ◌-◌, ◌%◌, ◌^◌, ◌<◌, ◌≤◌, ◌≡◌, refl, sym, ap, subst, inl, inr, true, false,
  ◌&&◌, none, some, List, [], ◌∷◌, ◌++◌, arith, nat_eq, contains, if◌then◌else◌, leb, length,
  Option-cases, is_some,
}
use broadcast_service.Util.Dict
use broadcast_service.Applications.DecisionLog.{DecisionLog, log_next, log_cached, drain}

length-erase : {S : Type 0} (k : ℕ) (m : List (ℕ × S)) → length (Dict.erase k m) ≤ length m
unfolding Dict.erase
length-erase k [] = omega arith
length-erase k ((j, v) ∷ m) = ground (arith, length-erase k m)

length-erase_found :
    {S : Type 0} (k : ℕ) (m : List (ℕ × S))
    → is_some (Dict.lookup k m) ≡ true
    → length (Dict.erase k m) < length m
unfolding Dict.erase Dict.lookup
length-erase_found k [] h = ground arith
length-erase_found k ((j, v) ∷ m) h = ground (arith, length-erase k m, length-erase_found k m)

abbrev pub Small : List ℕ → Type 0
Small rounds = (r : ℕ) → contains r rounds ≡ true → r < 2 ^ 32 - 1

module _ {S : Type 0} (set : ℕ → S) where
  -- The decisions of the first `n` rounds.
  abbrev pub first : ℕ → List S
  first zero = []
  first (suc n) = first n ++ set n ∷ []

  first-add : (n : ℕ) → first (n + 1) ≡ first n ++ set n ∷ []
  first-add n = let e : n + 1 ≡ suc n = omega arith in rw e refl

  -- The rounds decided so far are logged up to the next one, and cached beyond.
  pub record Logged (rounds : List ℕ) (l : DecisionLog S) : Type 0 where
    pub output : l.output ≡ first l.next_round_to_log
    pub cached :
        (r : ℕ)
        → Dict.lookup r l.out_of_order_cache
          ≡ (if contains r rounds && leb l.next_round_to_log r then some (set r) else none)
    pub below : (r : ℕ) → r < l.next_round_to_log → contains r rounds ≡ true

  Logged-log_cached :
      (rounds : List ℕ) (l : DecisionLog S) (s : S)
      → Small rounds
      → Logged rounds l
      → Dict.lookup l.next_round_to_log l.out_of_order_cache ≡ some s
      → Logged rounds (log_cached s l)
  unfolding log_cached log_next
  Logged-log_cached rounds l s small i found =
      let n : ℕ = l.next_round_to_log in
      let now = i.cached n in
      let next : (n + 1) % 2 ^ 32 ≡ n + 1 = ground (arith, now, small n) in
      let is_set : s ≡ set n = ground (arith, now) in
      record {
        output = ground (arith, i.output, is_set, ap first next, first-add n);
        cached = λ r. ground (arith, next, Dict.lookup-erase n r l.out_of_order_cache, i.cached r);
        below = λ r h. ground (arith, next, i.below r, now);
      }

  drain-none :
      (fuel : ℕ) (l : DecisionLog S)
      → Dict.lookup l.next_round_to_log l.out_of_order_cache ≡ none
      → drain (suc fuel) l ≡ l
  unfolding drain
  drain-none fuel l e = ground arith

  drain-some :
      (fuel : ℕ) (l : DecisionLog S) (s : S)
      → Dict.lookup l.next_round_to_log l.out_of_order_cache ≡ some s
      → drain (suc fuel) l ≡ drain fuel (log_cached s l)
  unfolding drain
  drain-some fuel l s e = ground arith

  pub Logged-drain :
      (rounds : List ℕ) (fuel : ℕ) (l : DecisionLog S)
      → Small rounds
      → Logged rounds l
      → Logged rounds (drain fuel l)
  unfolding drain
  Logged-drain rounds zero l small i = i
  Logged-drain rounds (suc fuel) l small i =
      elim (Option-cases (Dict.lookup l.next_round_to_log l.out_of_order_cache)) [
        | inl n ↦ subst (Logged rounds) (sym (drain-none fuel l n)) i
        | inr (s, found) ↦ subst (Logged rounds) (sym (drain-some fuel l s found)) (
            Logged-drain rounds fuel (log_cached s l) small
              (Logged-log_cached rounds l s small i found))
      ]

  -- The next round is not in the cache.
  abbrev pub CaughtUp : DecisionLog S → Type 0
  CaughtUp l = Dict.lookup l.next_round_to_log l.out_of_order_cache ≡ none

  length-log_cached :
      (l : DecisionLog S) (s : S)
      → Dict.lookup l.next_round_to_log l.out_of_order_cache ≡ some s
      → length (log_cached s l).out_of_order_cache < length l.out_of_order_cache
  unfolding log_cached log_next
  length-log_cached l s found =
      ground (arith, length-erase_found l.next_round_to_log l.out_of_order_cache)

  -- The fuel is enough: the loop ends since the next round is not there.
  pub drain_done :
      (fuel : ℕ) (l : DecisionLog S) → length l.out_of_order_cache < fuel → CaughtUp (drain fuel l)
  drain_done zero l h = absurd (omega arith)
  drain_done (suc fuel) l h =
      elim (Option-cases (Dict.lookup l.next_round_to_log l.out_of_order_cache)) [
        | inl n ↦ subst CaughtUp (sym (drain-none fuel l n)) n
        | inr (s, found) ↦
            subst CaughtUp (sym (drain-some fuel l s found))
              (drain_done fuel (log_cached s l) (omega (arith, length-log_cached l s found)))
      ]

  pub cache-log_next :
      (s : S) (l : DecisionLog S)
      → length (log_next s l).out_of_order_cache < length l.out_of_order_cache + 1
  unfolding log_next
  cache-log_next s l = omega arith

  pub Logged-log_next :
      (rounds : List ℕ) (l : DecisionLog S)
      → Small (l.next_round_to_log ∷ rounds)
      → contains l.next_round_to_log rounds ≡ false
      → Logged rounds l
      → Logged (l.next_round_to_log ∷ rounds) (log_next (set l.next_round_to_log) l)
  unfolding log_next contains
  Logged-log_next rounds l small fresh i =
      let n : ℕ = l.next_round_to_log in
      let bound : n < 2 ^ 32 - 1 = small n (ground arith) in
      let next : (n + 1) % 2 ^ 32 ≡ n + 1 = omega arith in
      record {
        output = ground (arith, i.output, ap first next, first-add n);
        cached = λ r. ground (arith, next, fresh, i.cached r, i.cached n);
        below = λ r h. ground (arith, next, i.below r);
      }
