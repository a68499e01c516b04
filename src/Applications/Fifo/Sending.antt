-- ===== src/Applications/Fifo/Sending.antt =====
-- What has been logged and sent so far.
use broadcast_service.Base.{
  ℕ, ◌+◌, ◌-◌, ◌%◌, ◌^◌, ◌<◌, ◌≤◌, ◌≡◌, refl, sym, ap, ◌∙◌, List, [], ◌∷◌, ◌++◌, append_assoc,
  append-nil, map, arith, nat_eq, range, range-append, min,
}
use broadcast_service.Util.RateLimit.{}
use broadcast_service.Applications.Message.{}
use broadcast_service.Applications.Fifo.{Broadcaster, fill, send, numbers, deliver, deliver_all}
use broadcast_service.Applications.Fifo.Filling.{left_of, fill_lem}

-- The numbers of all messages, as they are logged where they are delivered.
unfoldable pub all_numbers : List (List ℕ) → List ℕ
all_numbers [] = []
all_numbers (messages ∷ rest) = numbers messages ++ all_numbers rest

all_numbers-append :
    (sent : List (List ℕ)) (messages : List ℕ)
    → all_numbers (sent ++ messages ∷ []) ≡ all_numbers sent ++ numbers messages
unfolding all_numbers
all_numbers-append [] messages = append-nil (numbers messages)
all_numbers-append (m ∷ sent) messages =
    ap (λ xs. numbers m ++ xs) (all_numbers-append sent messages)
    ∙ sym (append_assoc (numbers m) (all_numbers sent) (numbers messages))

map-append : (f : ℕ → ℕ × ℕ) (xs ys : List ℕ) → map f (xs ++ ys) ≡ map f xs ++ map f ys
map-append f [] ys = refl
map-append f (x ∷ xs) ys = ap (λ zs. f x ∷ zs) (map-append f xs ys)

pub deliver_all-all_numbers :
    (peer : ℕ) (sent : List (List ℕ))
    → deliver_all peer sent ≡ map (λ m. (peer, m)) (all_numbers sent)
unfolding deliver_all deliver all_numbers
deliver_all-all_numbers peer [] = refl
deliver_all-all_numbers peer (m ∷ sent) =
    rw (deliver_all-all_numbers peer sent)
      (sym (map-append (λ m. (peer, m)) (numbers m) (all_numbers sent)))

-- The numbers up to the current one have been logged and sent.
pub record Sent (limit : ℕ) (b : Broadcaster) : Type 0 where
  pub output : b.output ≡ range 1 (min (b.current_payload - 1) limit)
  pub sent : all_numbers b.sent ≡ b.output
  pub positive : 0 < b.current_payload
  pub bounded : b.current_payload ≤ limit + 8

pub Sent-send :
    (limit : ℕ) (b : Broadcaster)
    → limit + 16 < 2 ^ 32
    → b.current_payload ≤ limit
    → Sent limit b
    → Sent limit (send limit b) × ((send limit b).current_payload ≡ b.current_payload + 8)
unfolding send
Sent-send limit b small within i =
    let c : ℕ = b.current_payload in
    let filled = fill_lem 8 0 c limit i.positive (omega (arith, i.bounded)) in
    let next : (c + 8) % 2 ^ 32 ≡ c + 8 = omega arith in
    let m : ℕ = min 8 (left_of (1 + (c - 1)) limit) in
    let before : min (c - 1) limit ≡ c - 1 = omega arith in
    let start : c + 0 ≡ 1 + (c - 1) = omega (arith, i.positive) in
    let total : c - 1 + m ≡ min ((c + 8) % 2 ^ 32 - 1) limit = omega (arith, i.positive) in
    let output : b.output ++ (fill 8 0 c limit).1 ≡ range 1 (min ((c + 8) % 2 ^ 32 - 1) limit) =
      rw (i.output, before, filled.0, start) (range-append 1 (c - 1) m ∙ ap (range 1) total) in
    (
      record {
        output = output;
        sent = all_numbers-append b.sent (fill 8 0 c limit).0 ∙ rw (i.sent, filled.1) refl;
        positive = omega (arith, next);
        bounded = omega (arith, next);
      },
      next,
    )
