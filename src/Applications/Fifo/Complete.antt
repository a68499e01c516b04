-- ===== src/Applications/Fifo/Complete.antt =====
-- What is logged and sent once the loops are through.
use broadcast_service.Base.{
  ℕ, ◌+◌, ◌-◌, ◌^◌, ◌<◌, ◌≤◌, ◌≡◌, refl, sym, ap, ◌∙◌, true, List, map, arith, nat_eq, range, min,
}
use broadcast_service.Util.RateLimit
use broadcast_service.Util.RateLimit.{RateLimiter}
use broadcast_service.Util.Result.{Result}
use broadcast_service.Applications.Waiting.{finished}
use broadcast_service.Applications.Waiting.Fulfilled.{Fulfilled}
use broadcast_service.Applications.Batching.Ending.{fire-reset, Sends, run_lem}
use broadcast_service.Applications.Message.{}
use broadcast_service.Applications.Fifo.{
  Broadcaster, init, more, send, broadcast, broadcast_all, deliver_all,
}
use broadcast_service.Applications.Fifo.Filling.{left_of}
use broadcast_service.Applications.Fifo.Sending.{
  all_numbers, deliver_all-all_numbers, Sent, Sent-send,
}

Sends-broadcast :
    (limit : ℕ)
    → limit + 16 < 2 ^ 32
    → (b : Broadcaster) → more limit b ≡ true
    → Sent limit b
    → Sends (Sent limit) (λ b. left_of b.current_payload limit) b (broadcast limit b)
unfolding more broadcast
Sends-broadcast limit small b goes i =
    let le : b.current_payload ≤ limit = ground arith in
    let made = Sent-send limit b small le i in
    record {
      futures = 1;
      next = send limit b;
      goes = refl;
      some_future = omega arith;
      kept = made.0;
      less = omega (arith, made.1);
    }

-- With a limiter that lets at least one message through after each reset, a number of messages below
-- 2 ^ 32 - 16, and if the futures of each batch all come to a value, the broadcaster's loops end and
-- fail no assertion; its log is 1, 2 and so on to that number, and so is what any peer's callback logs
-- when it is given the messages in order.
pub broadcast_all-range :
    (limit : ℕ) (l : RateLimiter) (results : ℕ → Broadcaster → List (Result Unit))
    → limit + 16 < 2 ^ 32
    → 0 < l.batch_size
    → Fulfilled results
    → (r : RateLimiter × Broadcaster) × (broadcast_all limit results (RateLimit.reset l, init)
        ≡ finished r)
      × (r.1.output ≡ range 1 limit)
      × ((peer : ℕ) → deliver_all peer r.1.sent ≡ map (λ m. (peer, m)) (range 1 limit))
unfolding broadcast_all init more all_numbers
broadcast_all-range limit l results small size fulfilled =
    let start : Sent limit init = record {
      output = let e : min 0 limit ≡ 0 = omega arith in ap (range 1) (sym e);
      sent = refl;
      positive = omega arith;
      bounded = omega arith;
    } in
    let r =
      run_lem (more limit) (broadcast limit) results (Sent limit)
        (λ b. left_of b.current_payload limit) (Sends-broadcast limit small) (limit + 1) (limit + 1)
        (RateLimit.reset l) init (omega arith) (omega arith) (fire-reset l size) fulfilled start in
    let over : limit < r.0.1.current_payload = ground (arith, r.3) in
    let count : min (r.0.1.current_payload - 1) limit ≡ limit = omega (arith, over) in
    let output = r.2.output ∙ ap (range 1) count in
    (
      r.0,
      r.1,
      output,
      λ peer.
          deliver_all-all_numbers peer r.0.1.sent ∙ ap (map (λ m. (peer, m))) (r.2.sent ∙ output),
    )
