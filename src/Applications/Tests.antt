-- ===== src/Applications/Tests.antt =====
-- Small runs of the applications.
use broadcast_service.Base.{
  ℕ, replicate, ◌+◌, ◌-◌, ◌^◌, ◌<◌, ◌≡◌, refl, true, false, List, [], ◌∷◌, map, arith, nat_eq,
  contains, range,
}
use broadcast_service.Util.Dict
use broadcast_service.Util.RateLimit
use broadcast_service.Util.RateLimit.{RateLimiter}
use broadcast_service.Util.Result.{Result, err, ok}
use broadcast_service.Concurrency.Futures.Promise
use broadcast_service.Concurrency.Futures.Combinators.{
  all_init, all_test, all_value, all_error, all_result, produce_all, all_alone, all_results,
}
use broadcast_service.Applications.Waiting.{
  Outcome, finished, waiting, failed, and_then, get, settle,
}
use broadcast_service.Applications.Waiting.Fulfilled.{Valued-replicate}
use broadcast_service.Applications.Batching
use broadcast_service.Applications.DecisionLog
use broadcast_service.Applications.DecisionLog.{DecisionLog, decide_all}
use broadcast_service.Applications.DecisionLog.Draining.{first}
use broadcast_service.Applications.DecisionLog.InOrder.{decide_all-first}
use broadcast_service.Applications.Fifo
use broadcast_service.Applications.Fifo.{Broadcaster, broadcast_all, deliver_all}
use broadcast_service.Applications.Fifo.Complete.{broadcast_all-range}
use broadcast_service.Applications.PerfectLinks
use broadcast_service.Applications.PerfectLinks.{Sender, send_all, receive_all}
use broadcast_service.Applications.PerfectLinks.Log.{send_all-range}

abbrev decision : ℕ → List ℕ
decision round = (round + 10) ∷ []

abbrev rounds : List ℕ
rounds = 2 ∷ 0 ∷ 4 ∷ 1 ∷ []

log_output :
    (decide_all decision rounds DecisionLog.init).output ≡ (10 ∷ []) ∷ (11 ∷ []) ∷ (12 ∷ []) ∷ []
unfolding decide_all DecisionLog.init DecisionLog.decided DecisionLog.drain DecisionLog.log_next
    DecisionLog.log_cached Dict.lookup Dict.assign Dict.erase
log_output = refl

small : (r : ℕ) → contains r rounds ≡ true → r < 2 ^ 32 - 1
unfolding contains
small r h = ground arith

decide_all-first_example :
    let l = decide_all decision rounds DecisionLog.init in
    (l.output ≡ first decision l.next_round_to_log)
    × ((r : ℕ) → r < l.next_round_to_log → contains r rounds ≡ true)
    × (contains l.next_round_to_log rounds ≡ false)
unfolding contains
decide_all-first_example = decide_all-first decision rounds (refl, (refl, (refl, (refl, tt)))) small

abbrev limiter : RateLimiter
limiter = record { batch_size = 2; current_fire = 0 }

sent_of : Outcome (RateLimiter × Broadcaster) → List (List ℕ)
sent_of (finished (l, b)) = b.sent
sent_of (waiting (l, b)) = []
sent_of failed = []

-- Each future comes to a value.
abbrev values : {S : Type 0} → ℕ → S → List (Result Unit)
values n s = replicate n (ok tt)

-- The second future of a batch has failed, or has not come to a result.
abbrev second_failed : {S : Type 0} → ℕ → S → List (Result Unit)
second_failed n s = ok tt ∷ err 5 ∷ []

abbrev one_value : {S : Type 0} → ℕ → S → List (Result Unit)
one_value n s = ok tt ∷ []

sent_output :
    sent_of (broadcast_all 19 values (limiter, Fifo.init))
    ≡ (1 ∷ 2 ∷ 3 ∷ 4 ∷ 5 ∷ 6 ∷ 7 ∷ 8 ∷ [])
      ∷ (9 ∷ 10 ∷ 11 ∷ 12 ∷ 13 ∷ 14 ∷ 15 ∷ 16 ∷ [])
      ∷ (17 ∷ 18 ∷ 19 ∷ 0 ∷ 0 ∷ 0 ∷ 0 ∷ 0 ∷ [])
      ∷ []
unfolding sent_of broadcast_all Fifo.broadcast Fifo.init Fifo.more Batching.run Batching.batch
    Batching.wait settle get and_then all_results all_alone all_result all_value all_error all_test
    all_init produce_all Promise.make Promise.produce Fifo.send Fifo.fill RateLimit.fire
    RateLimit.reset
sent_output = refl

broadcast_all-range_example :
    (r : RateLimiter × Broadcaster) × (broadcast_all 19 values (RateLimit.reset limiter, Fifo.init)
      ≡ finished r)
    × (r.1.output ≡ range 1 19)
    × ((peer : ℕ) → deliver_all peer r.1.sent ≡ map (λ m. (peer, m)) (range 1 19))
broadcast_all-range_example =
    broadcast_all-range 19 limiter values (omega arith) (omega arith) (λ n s. Valued-replicate n)

-- A failed future fails the assertion, and one that never comes to a result makes the sender wait.
settle_failed :
    (settle 2 (second_failed 2 Fifo.init) Fifo.init ≡ failed)
    × (settle 2 (one_value 2 Fifo.init) Fifo.init ≡ waiting Fifo.init)
unfolding settle get all_results all_alone all_result all_value all_error all_test all_init
    produce_all Promise.make Promise.produce
settle_failed = (refl, refl)

send_all-range_example :
    (s : Sender) × (send_all 3 values 20 19 PerfectLinks.init ≡ finished s)
    × (s.output ≡ range 1 24)
    × ((source : ℕ) → receive_all source s.sent ≡ map (λ m. (source, m)) (range 1 24))
send_all-range_example = send_all-range 2 19 values (omega arith) (λ n s. Valued-replicate n)
