-- ===== src/Applications/Proposing/Complete.antt =====
-- What has been proposed once the loops are through.
use broadcast_service.Base.{
  ℕ, ◌+◌, ◌-◌, ◌%◌, ◌^◌, ◌<◌, ◌≤◌, ◌≡◌, refl, sym, ap, ◌∙◌, subst, true, some, List, [], ◌∷◌, ◌++◌,
  arith, length, min,
}
use broadcast_service.Util.RateLimit
use broadcast_service.Util.RateLimit.{RateLimiter}
use broadcast_service.Util.Result.{Result}
use broadcast_service.Primitives.LatticeAgreement.State.{Future, LatticeAgreement}
use broadcast_service.Primitives.LatticeAgreement.Proposer.{propose}
use broadcast_service.Primitives.LatticeAgreement.Proposer.Starting.{Ready}
use broadcast_service.Primitives.LatticeAgreement.Proposer.Futures.{Proposed-propose}
use broadcast_service.Primitives.LatticeAgreement.Proposer.Handling.{
  Arrival, handle_all, Ready-handle_all,
}
use broadcast_service.Applications.Waiting.{finished}
use broadcast_service.Applications.Waiting.Fulfilled.{Fulfilled}
use broadcast_service.Applications.Batching.Ending.{fire-reset, Sends, run_lem}
use broadcast_service.Applications.Proposing.{
  Proposer, init, fill, filled, message, more, send, propose_all,
}
use broadcast_service.Applications.Proposing.Rounds.{
  after, by_line, numbered, rounds, after-after, by_line-append, rounds-append, Filled, fill-Filled,
}

-- What each message keeps.
record Sent (num : ℕ) (input : List (List ℕ)) (p : Proposer) : Type 0 where
  sent : rounds p.sent ≡ by_line 0 p.current_round input
  rest : p.input ≡ after p.current_round input
  bounded : p.current_round ≤ num
  ready : Ready p.current_round p.la.round_states

filled-Filled :
    (num : ℕ) (p : Proposer)
    → num + 8 < 2 ^ 32
    → p.current_round ≤ num
    → Filled p.current_round (min 8 (num - p.current_round)) p.input (filled num p)
unfolding filled
filled-Filled num p small le =
    let c : ℕ = p.current_round in
    let start : c + 0 ≡ c = omega arith in
    subst (λ k. Filled k (min 8 (num - k)) p.input (fill 8 0 c num p.input)) start
      (fill-Filled 8 0 c num p.input (omega arith))

send_lem :
    (arrivals : ℕ → List Arrival) (num : ℕ) (p : Proposer) (futures : List Future)
    (la : LatticeAgreement)
    → propose (message num p) (handle_all (arrivals p.current_round) p.la) ≡ some (futures, la)
    → send arrivals num p
      ≡ some (
        length futures,
        record {
          current_round = (p.current_round + length futures) % 2 ^ 32;
          input = (filled num p).1;
          sent = p.sent ++ message num p ∷ [];
          la = la;
        },
      )
unfolding send
send_lem arrivals num p futures la e = rw e refl

Sends-send :
    (arrivals : ℕ → List Arrival) (num : ℕ) (input : List (List ℕ))
    → num + 8 < 2 ^ 32
    → (p : Proposer) → more num p ≡ true
    → Sent num input p
    → Sends (Sent num input) (λ p. num - p.current_round) p (send arrivals num p)
unfolding more message
Sends-send arrivals num input small p goes i =
    let c : ℕ = p.current_round in
    let n : ℕ = min 8 (num - c) in
    let within : c < num = ground arith in
    let made = filled-Filled num p small (omega arith) in
    let count : length (message num p).proposals ≡ n = made.count in
    let proposed =
      Proposed-propose (message num p) (handle_all (arrivals p.current_round) p.la)
        (omega (arith, count)) (Ready-handle_all c (arrivals c) p.la i.ready) in
    let number : length proposed.futures ≡ n = proposed.number ∙ count in
    let next : (c + length proposed.futures) % 2 ^ 32 ≡ c + n = omega (arith, number) in
    let from : 0 + c ≡ c = omega arith in
    let values : numbered c (filled num p).0 ≡ by_line (0 + c) n (after c input) =
      made.values ∙ (ap (by_line c n) i.rest ∙ ap (λ k. by_line k n (after c input)) (sym from)) in
    record {
      futures = length proposed.futures;
      next = record {
        current_round = (c + length proposed.futures) % 2 ^ 32;
        input = (filled num p).1;
        sent = p.sent ++ message num p ∷ [];
        la = proposed.next;
      };
      goes = send_lem arrivals num p proposed.futures proposed.next proposed.done;
      some_future = omega (arith, number);
      kept = record {
        sent =
            rounds-append p.sent (message num p)
            ∙ (ap (λ xs. xs ++ numbered c (filled num p).0) i.sent
                ∙ (ap (λ xs. by_line 0 c input ++ xs) values
                    ∙ (sym (by_line-append 0 c n input) ∙ ap (λ k. by_line 0 k input) (sym next))));
        rest =
            made.rest
            ∙ (ap (after n) i.rest ∙ (after-after c n input ∙ ap (λ k. after k input) (sym next)));
        bounded = omega (arith, next);
        ready =
            let last : c + length (message num p).proposals
                ≡ (c + length proposed.futures) % 2 ^ 32 =
              omega (arith, next, number, count) in
            subst (λ k. Ready k proposed.next.round_states) last proposed.ready;
      };
      less = omega (arith, next);
    }

-- With a limiter that lets at least one message through after each reset, a number of proposals below
-- 2 ^ 32 - 8, a state in which no first future has been taken, and if the futures of each batch all come
-- to a value: whatever proposals and answers are handled between the messages, the loops end and fail
-- no assertion, those of `Propose` included; the messages propose, for the rounds 0, 1 and so on below
-- that number, each once and in this order, the value of the round's line.
pub propose_all-by_line :
    (arrivals : ℕ → List Arrival) (results : ℕ → Proposer → List (Result Unit)) (num : ℕ)
    (l : RateLimiter) (input : List (List ℕ)) (la : LatticeAgreement)
    → num + 8 < 2 ^ 32
    → 0 < l.batch_size
    → Fulfilled results
    → Ready 0 la.round_states
    → (r : RateLimiter × Proposer) × (propose_all arrivals results num
          (RateLimit.reset l, init input la)
        ≡ finished r)
      × (rounds r.1.sent ≡ by_line 0 num input)
unfolding propose_all init more rounds by_line after
propose_all-by_line arrivals results num l input la small size fulfilled ready =
    let r =
      run_lem (more num) (send arrivals num) results (Sent num input) (λ p. num - p.current_round)
        (Sends-send arrivals num input small) (num + 1) (num + 1) (RateLimit.reset l)
        (init input la) (omega arith) (omega arith) (fire-reset l size) fulfilled
        (record { sent = refl; rest = refl; bounded = omega arith; ready = ready }) in
    let through : r.0.1.current_round ≡ num = ground (arith, r.2.bounded, r.3) in
    (r.0, r.1, r.2.sent ∙ ap (λ k. by_line 0 k input) through)
