-- ===== src/Applications/PerfectLinks/Log.antt =====
-- What the sender logs, and what the receiver logs of it.
use broadcast_service.Base.{
  ℕ, zero, suc, ◌+◌, ◌-◌, ◌*◌, ◌/◌, ◌%◌, ◌^◌, ◌<◌, ◌≤◌, ◌≡◌, refl, sym, ap, ◌∙◌, subst, inl, inr,
  List, [], ◌∷◌, ◌++◌, append_assoc, append-nil, map, arith, leb, range, range-append, Bool-cases,
}
use broadcast_service.Util.Result.{Result}
use broadcast_service.Applications.Waiting.{finished, and_then}
use broadcast_service.Applications.Waiting.Fulfilled.{Fulfilled, settle-Valued}
use broadcast_service.Applications.Message.{}
use broadcast_service.Applications.PerfectLinks.{
  Sender, init, payload, send, batch, wait, send_all, receive, receive_all,
}

payload-range :
    (left k current : ℕ)
    → current + k + left < 2 ^ 32
    → payload left k current ≡ range (current + k) left
unfolding payload
payload-range zero k current fits = refl
payload-range (suc left) k current fits =
    let number : (current + k) % 2 ^ 32 ≡ current + k = omega arith in
    let next : current + (k + 1) ≡ current + k + 1 = omega arith in
    ground
      (arith, number, payload-range left (k + 1) current (omega arith), ap (λ s. range s left) next)

map-append : (f : ℕ → ℕ × ℕ) (xs ys : List ℕ) → map f (xs ++ ys) ≡ map f xs ++ map f ys
map-append f [] ys = refl
map-append f (x ∷ xs) ys = ap (λ zs. f x ∷ zs) (map-append f xs ys)

receive_all-append :
    (source : ℕ) (sent : List (List ℕ)) (messages : List ℕ)
    → receive_all source (sent ++ messages ∷ [])
      ≡ receive_all source sent ++ map (λ m. (source, m)) messages
unfolding receive_all receive
receive_all-append source [] messages = append-nil (map (λ m. (source, m)) messages)
receive_all-append source (m ∷ sent) messages =
    ap (λ xs. map (λ m. (source, m)) m ++ xs) (receive_all-append source sent messages)
    ∙ sym (
        append_assoc (map (λ m. (source, m)) m) (receive_all source sent)
          (map (λ m. (source, m)) messages))

record Sent (limit : ℕ) (s : Sender) : Type 0 where
  output : s.output ≡ range 1 (s.current_payload - 1)
  received : (source : ℕ) → receive_all source s.sent ≡ map (λ m. (source, m)) s.output
  eighth : s.current_payload % 8 ≡ 1
  bounded : s.current_payload ≤ limit + 8

Sent-send :
    (limit : ℕ) (s : Sender)
    → limit + 16 < 2 ^ 32
    → s.current_payload ≤ limit
    → Sent limit s
    → Sent limit (send s) × ((send s).current_payload ≡ s.current_payload + 8)
unfolding send
Sent-send limit s small within i =
    let c : ℕ = s.current_payload in
    let made = payload-range 8 0 c (omega arith) in
    let next : (c + 8) % 2 ^ 32 ≡ c + 8 = omega arith in
    let start : c + 0 ≡ 1 + (c - 1) = omega (arith, i.eighth) in
    let total : c - 1 + 8 ≡ (c + 8) % 2 ^ 32 - 1 = omega (arith, i.eighth) in
    (
      record {
        output = rw (i.output, made, start) (range-append 1 (c - 1) 8 ∙ ap (range 1) total);
        received = λ source.
            receive_all-append source s.sent (payload 8 0 c)
            ∙ (ap (λ xs. xs ++ map (λ m. (source, m)) (payload 8 0 c)) (i.received source)
                ∙ sym (map-append (λ m. (source, m)) s.output (payload 8 0 c)));
        eighth = omega (arith, next, i.eighth);
        bounded = omega (arith, next);
      },
      next,
    )

batch_stops :
    (left limit acks : ℕ) (s : Sender)
    → limit < s.current_payload
    → batch left limit acks s ≡ (acks, s)
unfolding batch
batch_stops zero limit acks s h = refl
batch_stops (suc left) limit acks s h = ground arith

batch_goes :
    (left limit acks : ℕ) (s : Sender)
    → s.current_payload ≤ limit
    → batch (suc left) limit acks s ≡ batch left limit (acks + 1) (send s)
unfolding batch
batch_goes left limit acks s h = ground arith

-- What a batch leaves behind.
record Batched (limit acks : ℕ) (s : Sender) (b : ℕ × Sender) : Type 0 where
  sent : Sent limit b.1
  shrinks : s.current_payload ≤ b.1.current_payload
  grows : acks ≤ b.0

Batched-batch :
    (left limit acks : ℕ) (s : Sender)
    → limit + 16 < 2 ^ 32
    → Sent limit s
    → Batched limit acks s (batch left limit acks s)
unfolding batch
Batched-batch zero limit acks s small i = record {
  sent = i;
  shrinks = omega arith;
  grows = omega arith;
}
Batched-batch (suc left) limit acks s small i = elim (Bool-cases (leb s.current_payload limit)) [
  | inl within ↦
      let made = Sent-send limit s small (ground arith) i in
      let rest = Batched-batch left limit (acks + 1) (send s) small made.0 in
      subst (Batched limit acks s) (sym (batch_goes left limit acks s (ground arith))) (record {
        sent = rest.sent;
        shrinks = omega (arith, rest.shrinks, made.1);
        grows = omega (arith, rest.grows);
      })
  | inr beyond ↦
      subst (Batched limit acks s) (sym (batch_stops (suc left) limit acks s (ground arith)))
        (record { sent = i; shrinks = omega arith; grows = omega arith })
]

send_all_stops :
    (batch_size fuel limit : ℕ) (results : ℕ → Sender → List (Result Unit)) (s : Sender)
    → limit < s.current_payload
    → send_all batch_size results (suc fuel) limit s ≡ finished s
unfolding send_all
send_all_stops batch_size fuel limit results s h = ground arith

send_all_goes :
    (batch_size fuel limit : ℕ) (results : ℕ → Sender → List (Result Unit)) (s b : Sender)
    → s.current_payload ≤ limit
    → wait results (batch batch_size limit 0 s) ≡ finished b
    → send_all batch_size results (suc fuel) limit s ≡ send_all batch_size results fuel limit b
unfolding send_all and_then
send_all_goes batch_size fuel limit results s b h e = ground (arith, e)

wait_over :
    (results : ℕ → Sender → List (Result Unit)) (b : ℕ × Sender)
    → 0 < b.0
    → Fulfilled results
    → wait results b ≡ finished b.1
unfolding wait
wait_over results (acks, s) positive fulfilled =
    settle-Valued acks (results acks s) s positive (fulfilled acks s)

Sent-send_all :
    (left fuel limit : ℕ) (results : ℕ → Sender → List (Result Unit)) (s : Sender)
    → limit + 16 < 2 ^ 32
    → limit + 1 - s.current_payload < fuel
    → Fulfilled results
    → Sent limit s
    → (r : Sender) × (send_all (suc left) results fuel limit s ≡ finished r)
      × Sent limit r
      × (limit < r.current_payload)
Sent-send_all left zero limit results s small enough fulfilled i = absurd (omega arith)
Sent-send_all left (suc fuel) limit results s small enough fulfilled i =
    elim (Bool-cases (leb s.current_payload limit)) [
      | inl within ↦
          let le : s.current_payload ≤ limit = ground arith in
          let first = Sent-send limit s small le i in
          let b = batch left limit 1 (send s) in
          let made = Batched-batch left limit 1 (send s) small first.0 in
          let rest =
            Sent-send_all left fuel limit results b.1 small (omega (arith, made.shrinks, first.1))
              fulfilled made.sent in
          let waited =
            ap (wait results) (batch_goes left limit 0 s le)
            ∙ wait_over results b (omega (arith, made.grows)) fulfilled in
          (
            rest.0,
            send_all_goes (suc left) fuel limit results s b.1 le waited ∙ rest.1,
            rest.2,
            rest.3,
          )
      | inr beyond ↦
          let over : limit < s.current_payload = ground arith in
          (s, send_all_stops (suc left) fuel limit results s over, i, over)
    ]

-- With batches of at least one message, a number of messages below 2 ^ 32 - 16, and if the futures of
-- each batch all come to a value, the sender's loops end and fail no assertion; it logs 1, 2 and so on
-- to the least multiple of 8 that is not below that number, and the receiver logs the same if it is
-- given the messages in order.
pub send_all-range :
    (left limit : ℕ) (results : ℕ → Sender → List (Result Unit))
    → limit + 16 < 2 ^ 32
    → Fulfilled results
    → (s : Sender) × (send_all (suc left) results (limit + 1) limit init ≡ finished s)
      × (s.output ≡ range 1 ((limit + 7) / 8 * 8))
      × ((source : ℕ)
          → receive_all source s.sent ≡ map (λ m. (source, m)) (range 1 ((limit + 7) / 8 * 8)))
unfolding init receive_all
send_all-range left limit results small fulfilled =
    let start : Sent limit init = record {
      output = refl;
      received = λ source. refl;
      eighth = refl;
      bounded = omega arith;
    } in
    let r = Sent-send_all left (limit + 1) limit results init small (omega arith) fulfilled start in
    let count : r.0.current_payload - 1 ≡ (limit + 7) / 8 * 8 =
      omega (arith, r.3, r.2.eighth, r.2.bounded) in
    let output = r.2.output ∙ ap (range 1) count in
    (r.0, r.1, output, λ source. r.2.received source ∙ ap (map (λ m. (source, m))) output)
