-- ===== src/Applications/Batching/Ending.antt =====
-- The loops end if each message leaves less to send, and its futures get their values.
use broadcast_service.Base.{
  ℕ, zero, suc, ◌+◌, ◌<◌, ◌≤◌, ◌≡◌, sym, ap, ◌∙◌, subst, inl, inr, ◌⊎◌, Bool, true, false, Option,
  some, List, arith, Bool-cases,
}
use broadcast_service.Util.RateLimit
use broadcast_service.Util.RateLimit.{RateLimiter}
use broadcast_service.Util.Result.{Result}
use broadcast_service.Applications.Waiting.{finished, and_then}
use broadcast_service.Applications.Waiting.Fulfilled.{Fulfilled, settle-Valued}
use broadcast_service.Applications.Batching.{batch, wait, run}

size-fire : (l : RateLimiter) → (RateLimit.fire l).1.batch_size ≡ l.batch_size
unfolding RateLimit.fire
size-fire l = ground arith

fire_full : (l : RateLimiter) → (RateLimit.fire l).0 ≡ false → (RateLimit.fire l).1 ≡ l
unfolding RateLimit.fire
fire_full l h = ground arith

pub fire-reset :
    (l : RateLimiter)
    → 0 < l.batch_size
    → ((RateLimit.fire (RateLimit.reset l)).0 ≡ true) × (0 < (RateLimit.reset l).batch_size)
unfolding RateLimit.fire RateLimit.reset
fire-reset l h = (ground arith, h)

-- A message that is sent leaves the state `next`, with `futures` of its own.
pub record Sends {S : Type 0} (Inv : S → Type 0) (left : S → ℕ) (s : S) (sent : Option (ℕ × S))
    : Type 0 where
  pub futures : ℕ
  pub next : S
  pub goes : sent ≡ some (futures, next)
  pub some_future : 0 < futures
  pub kept : Inv next
  pub less : left next < left s

-- `left s` bounds the messages that are left to send, and `Inv` is kept by each.
module _ {S : Type 0} (more : S → Bool) (send : S → Option (ℕ × S))
    (results : ℕ → S → List (Result Unit)) (Inv : S → Type 0) (left : S → ℕ)
    (step : (s : S) → more s ≡ true → Inv s → Sends Inv left s (send s)) where
  -- What the inner loop leaves behind.
  record Batched (futures : ℕ) (l : RateLimiter) (s : S) (b : Option (ℕ × RateLimiter × S))
      : Type 0 where
    count : ℕ
    limiter : RateLimiter
    last : S
    done : b ≡ some (count, limiter, last)
    inv : Inv last
    size : limiter.batch_size ≡ l.batch_size
    shrinks : left last ≤ left s
    grows : futures ≤ count
    started : (RateLimit.fire l).0 ≡ true → more s ≡ true → (futures < count) × (left last < left s)
    -- the fuel was enough
    ended : ((RateLimit.fire limiter).0 ≡ false) ⊎ (more last ≡ false)

  batch_stops :
      (fuel futures : ℕ) (l : RateLimiter) (s : S)
      → ((RateLimit.fire l).0 ≡ false) ⊎ (more s ≡ false)
      → batch more send results (suc fuel) futures l s ≡ some (futures, (RateLimit.fire l).1, s)
  unfolding batch
  batch_stops fuel futures l s (inl h) = ground (arith, h)
  batch_stops fuel futures l s (inr h) = ground (arith, h)

  batch_goes :
      (fuel futures n : ℕ) (l : RateLimiter) (s s' : S)
      → (RateLimit.fire l).0 ≡ true
      → more s ≡ true
      → send s ≡ some (n, s')
      → batch more send results (suc fuel) futures l s
        ≡ batch more send results fuel (futures + n) (RateLimit.fire l).1 s'
  unfolding batch
  batch_goes fuel futures n l s s' h m e = ground (arith, h, m, e)

  Batched-batch :
      (fuel futures : ℕ) (l : RateLimiter) (s : S)
      → left s < fuel
      → Inv s
      → Batched futures l s (batch more send results fuel futures l s)
  Batched-batch zero futures l s enough i = absurd (omega arith)
  Batched-batch (suc fuel) futures l s enough i = elim (Bool-cases (RateLimit.fire l).0) [
    | inr full ↦ record {
      count = futures;
      limiter = (RateLimit.fire l).1;
      last = s;
      done = batch_stops fuel futures l s (inl full);
      inv = i;
      size = size-fire l;
      shrinks = omega arith;
      grows = omega arith;
      started = λ h m. ground (arith, h, full);
      ended = inl (subst (λ k. (RateLimit.fire k).0 ≡ false) (sym (fire_full l full)) full);
    }
    | inl fires ↦ elim (Bool-cases (more s)) [
      | inr over ↦ record {
        count = futures;
        limiter = (RateLimit.fire l).1;
        last = s;
        done = batch_stops fuel futures l s (inr over);
        inv = i;
        size = size-fire l;
        shrinks = omega arith;
        grows = omega arith;
        started = λ h m. ground (arith, m, over);
        ended = inr over;
      }
      | inl goes ↦
          let sent = step s goes i in
          let rest =
            Batched-batch fuel (futures + sent.futures) (RateLimit.fire l).1 sent.next
              (omega (arith, sent.less)) sent.kept in
          record {
            count = rest.count;
            limiter = rest.limiter;
            last = rest.last;
            done =
                batch_goes fuel futures sent.futures l s sent.next fires goes sent.goes ∙ rest.done;
            inv = rest.inv;
            size = rest.size ∙ size-fire l;
            shrinks = omega (arith, rest.shrinks, sent.less);
            grows = omega (arith, rest.grows);
            started = λ h m. (
              omega (arith, rest.grows, sent.some_future),
              omega (arith, rest.shrinks, sent.less),
            );
            ended = rest.ended;
          }
    ]
  ]

  run_stops :
      (fuel inner : ℕ) (l : RateLimiter) (s : S)
      → more s ≡ false
      → run more send results (suc fuel) inner (l, s) ≡ finished (l, s)
  unfolding run
  run_stops fuel inner l s h = ground (arith, h)

  run_goes :
      (fuel inner : ℕ) (l : RateLimiter) (s : S) (c : RateLimiter × S)
      → more s ≡ true
      → wait more send results (batch more send results inner 0 l s) ≡ finished c
      → run more send results (suc fuel) inner (l, s) ≡ run more send results fuel inner c
  unfolding run and_then
  run_goes fuel inner l s c h e = ground (arith, h, e)

  wait_over :
      (n : ℕ) (l : RateLimiter) (s : S)
      → 0 < n
      → Fulfilled results
      → wait more send results (some (n, l, s)) ≡ finished (RateLimit.reset l, s)
  unfolding wait
  wait_over n l s positive fulfilled =
      settle-Valued n (results n s) (RateLimit.reset l, s) positive (fulfilled n s)

  -- With enough fuel, a limiter that lets a message through, now and after each reset, and futures that
  -- all get their values, the loops end and fail no assertion; nothing is left to send, and what
  -- each message keeps holds.
  pub run_lem :
      (fuel inner : ℕ) (l : RateLimiter) (s : S)
      → left s < fuel
      → left s < inner
      → ((RateLimit.fire l).0 ≡ true) × (0 < l.batch_size)
      → Fulfilled results
      → Inv s
      → (r : RateLimiter × S) × (run more send results fuel inner (l, s) ≡ finished r)
        × Inv r.1
        × (more r.1 ≡ false)
  run_lem zero inner l s enough within ready fulfilled i = absurd (omega arith)
  run_lem (suc fuel) inner l s enough within ready fulfilled i = elim (Bool-cases (more s)) [
    | inr over ↦ ((l, s), run_stops fuel inner l s over, i, over)
    | inl goes ↦
        let made = Batched-batch inner 0 l s within i in
        let began = made.started ready.0 goes in
        let full : 0 < made.limiter.batch_size = omega (arith, ready.1, made.size) in
        let rest =
          run_lem fuel inner (RateLimit.reset made.limiter) made.last (omega (arith, began.1))
            (omega (arith, began.1)) (fire-reset made.limiter full) fulfilled made.inv in
        let c : RateLimiter × S = (RateLimit.reset made.limiter, made.last) in
        let waited =
          ap (wait more send results) made.done
          ∙ wait_over made.count made.limiter made.last (omega (arith, began.0)) fulfilled in
        (rest.0, run_goes fuel inner l s c goes waited ∙ rest.1, rest.2, rest.3)
  ]
