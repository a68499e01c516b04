-- ===== src/Transport/FairLossChannel/Writing.antt =====
-- include/io/transport/fairloss_channel.hpp: lemmas on the write handler.
use broadcast_service.Base.{
  ℕ, ◌+◌, ◌^◌, ◌<◌, ◌≤◌, ◌≡◌, refl, sym, ◌∙◌, ◌⊎◌, List, [], ◌∷◌, ◌++◌, false, ◌&&◌, not, some, eqb,
  ltb, nat_eq, contains, arith, append_assoc, append-nil, Bool-cases, inl, inr,
}
use broadcast_service.Concurrency.Budget
use broadcast_service.Concurrency.Budget.{Budget}
use broadcast_service.Concurrency.MrmwSet
use broadcast_service.Concurrency.MrmwSet.{has-delete}
use broadcast_service.Concurrency.TaskQueue.{
  push_front_all, push_all, try_pop_all, try_pop_all-push,
}
use broadcast_service.Transport.Bytes.{Bytes}
use broadcast_service.Transport.Packet
use broadcast_service.Transport.Packet.{Packet}
use broadcast_service.Transport.Packet.RoundTrip.{to_bytes_lem}
use broadcast_service.Transport.RetryPolicy.{reset}
use broadcast_service.Transport.FairLossChannel.{
  WriteStatus, would_block, conn_refused, ok, FairLoss, WriteLoop, cost, sent_one, write_batch,
  write_popped, start_write, rearm_write, reschedule_empty, finish_write, handle_write,
}

-- The credits that packets cost.
abbrev pub costs : List Packet → ℕ
costs [] = 0
costs (packet ∷ packets) = cost packet + costs packets

abbrev pub buffers : List Packet → List Bytes
buffers [] = []
buffers (packet ∷ packets) = Packet.contents packet ∷ buffers packets

abbrev pub packet_ids : List Packet → List ℕ
packet_ids [] = []
packet_ids (packet ∷ packets) = packet.id ∷ packet_ids packets

-- The packets `sent` left the batch.
pub record Wrote (batch sent left : List Packet) (w w' : WriteLoop) : Type 0 where
  pub order : batch ≡ sent ++ left
  pub written : w'.written ≡ w.written ++ buffers sent
  pub spent : w'.budget + costs sent ≡ w.budget
  pub ids :
      (id : ℕ)
      → MrmwSet.has id w'.ids ≡ (MrmwSet.has id w.ids && not (contains id (packet_ids sent)))

nothing-Wrote :
    (batch : List Packet) (w w' : WriteLoop)
    → w'.written ≡ w.written
    → w'.budget ≡ w.budget
    → w'.ids ≡ w.ids
    → Wrote batch [] batch w w'
unfolding contains
nothing-Wrote batch w w' written budget ids = record {
  order = refl;
  written = written ∙ sym (append-nil w.written);
  spent = ground arith;
  ids = λ id. ground (arith, ids);
}

status_cases : (s : WriteStatus) → (s ≡ would_block) ⊎ ((s ≡ conn_refused) ⊎ (s ≡ ok))
status_cases would_block = inl refl
status_cases conn_refused = inr (inl refl)
status_cases ok = inr (inr refl)

sent_one-Wrote :
    (packet : Packet) (batch sent left : List Packet) (w w' : WriteLoop)
    → ltb w.budget (cost packet) ≡ false
    → Wrote batch sent left (sent_one packet (Packet.contents packet) w) w'
    → Wrote (packet ∷ batch) (packet ∷ sent) left w w'
unfolding contains
sent_one-Wrote packet batch sent left w w' enough wrote = record {
  order = ground (arith, wrote.order);
  written = wrote.written ∙ append_assoc w.written (Packet.contents packet ∷ []) (buffers sent);
  spent = ground (arith, wrote.spent);
  ids = λ id. ground (arith, wrote.ids id, has-delete packet.id id w.ids);
}

write_batch-Wrote :
    (socket : ℕ → WriteStatus) (batch : List Packet) (w : WriteLoop)
    → (sent left : List Packet) × (w' : WriteLoop) × (write_batch socket batch w ≡ some (left, w'))
      × Wrote batch sent left w w'
unfolding write_batch contains
write_batch-Wrote socket [] w = ([], [], w, refl, nothing-Wrote [] w w refl refl refl)
write_batch-Wrote socket (packet ∷ batch) w = elim (Bool-cases (ltb w.budget (cost packet))) [
  | inl poor ↦
      ([], packet ∷ batch, w, rw poor refl, nothing-Wrote (packet ∷ batch) w w refl refl refl)
  | inr enough ↦
      let next = sent_one packet (Packet.contents packet) w in
      let (sent, left, w', done, wrote) = write_batch-Wrote socket batch next in
      elim (status_cases (socket w.writes)) [
        | inl full ↦ (
          [],
          packet ∷ batch,
          record w { writes = w.writes + 1; status = would_block },
          rw (enough, to_bytes_lem packet, full) refl,
          nothing-Wrote (packet ∷ batch) w
              (record w { writes = w.writes + 1; status = would_block }) refl refl refl,
        )
        | inr (inl refused) ↦ (
          [],
          packet ∷ batch,
          record w { writes = w.writes + 1; status = conn_refused },
          rw (enough, to_bytes_lem packet, refused) refl,
          nothing-Wrote (packet ∷ batch) w
              (record w { writes = w.writes + 1; status = conn_refused }) refl refl refl,
        )
        | inr (inr fine) ↦ (
          packet ∷ sent,
          left,
          w',
          rw (enough, to_bytes_lem packet, fine) done,
          sent_one-Wrote packet batch sent left w w' enough wrote,
        )
      ]
]

-- What one write event does, for the packets `sent`.
pub record WroteEvent (ch ch' : FairLoss) (sent : List Packet) : Type 0 where
  pub order : (try_pop_all ch.outgoing_packets).0 ≡ sent ++ (try_pop_all ch'.outgoing_packets).0
  pub written : ch'.written ≡ ch.written ++ buffers sent
  pub spent : ch'.send_budget.counter + costs sent ≡ ch.send_budget.counter
  pub ids :
      (id : ℕ)
      → MrmwSet.has id ch'.outgoing_message_ids
        ≡ (MrmwSet.has id ch.outgoing_message_ids && not (contains id (packet_ids sent)))

-- The next event changes nothing else.
rearm-WroteEvent :
    (backoff : ℕ → ℕ) (status : WriteStatus) (ch ch' : FairLoss) (sent : List Packet)
    → WroteEvent ch ch' sent
    → WroteEvent ch (rearm_write backoff status ch') sent
rearm-WroteEvent backoff would_block ch ch' sent e = record {
  order = e.order;
  written = e.written;
  spent = e.spent;
  ids = e.ids;
}
rearm-WroteEvent backoff conn_refused ch ch' sent e = record {
  order = e.order;
  written = e.written;
  spent = e.spent;
  ids = e.ids;
}
rearm-WroteEvent backoff ok ch ch' sent e = record {
  order = e.order;
  written = e.written;
  spent = e.spent;
  ids = e.ids;
}

push_all_nil : (left : List Packet) → (try_pop_all (push_all left [])).0 ≡ left
unfolding try_pop_all push_front_all
push_all_nil left =
    (try_pop_all-push (record { type = 0; id = 0; source = 0; message = [] }) left []).1

popped_nil : (queue : List Packet) → (try_pop_all queue).1 ≡ []
unfolding try_pop_all
popped_nil queue = refl

-- The rest of a write event, for the batch that was popped and a budget that is all there was.
module _ (backoff : ℕ → ℕ) (socket : ℕ → WriteStatus) (budget : ℕ) (ch : FairLoss)
    (empty : ch.outgoing_packets ≡ []) (taken : ch.send_budget.counter ≡ 0)
    (within : budget ≤ ch.send_budget.max_budget) (limit : ch.send_budget.max_budget < 2 ^ 64) where
  abbrev Popped : List Packet → List Packet → FairLoss → Type 0
  Popped batch sent ch' =
      (batch ≡ sent ++ (try_pop_all ch'.outgoing_packets).0)
      × (ch'.written ≡ ch.written ++ buffers sent)
      × (ch'.send_budget.counter + costs sent ≡ budget)
      × ((id : ℕ)
          → MrmwSet.has id ch'.outgoing_message_ids
            ≡ (MrmwSet.has id ch.outgoing_message_ids && not (contains id (packet_ids sent))))

  rearm-Popped :
      (status : WriteStatus) (batch sent : List Packet) (ch' : FairLoss)
      → Popped batch sent ch'
      → Popped batch sent (rearm_write backoff status ch')
  rearm-Popped would_block batch sent ch' e = e
  rearm-Popped conn_refused batch sent ch' e = e
  rearm-Popped ok batch sent ch' e = e

  -- What is left is in the queue again.
  back :
      (batch sent left : List Packet)
      → batch ≡ sent ++ left
      → batch ≡ sent ++ (try_pop_all (push_all left ch.outgoing_packets)).0
  back batch sent left e = rw (empty, push_all_nil left) e

  write_popped-Popped :
      (batch : List Packet)
      → (ch' : FairLoss) × (sent : List Packet) × (write_popped backoff socket budget batch ch
          ≡ some ch')
        × Popped batch sent ch'
  unfolding write_popped Budget.top_up try_pop_all push_all push_front_all contains
  write_popped-Popped [] = (
    _,
    [],
    refl,
    (ground (arith, empty), sym (append-nil ch.written), ground arith, λ id. ground arith),
  )
  write_popped-Popped (packet ∷ batch) =
      let opened = record ch { empty_write_policy = reset ch.empty_write_policy } in
      let (sent, left, w, done, wrote) =
        write_batch-Wrote socket (packet ∷ batch) (start_write budget opened) in
      (
        rearm_write backoff w.status (finish_write opened left w),
        sent,
        rw done refl,
        rearm-Popped w.status (packet ∷ batch) sent (finish_write opened left w) (
          back (packet ∷ batch) sent left wrote.order,
          wrote.written,
          ground (arith, wrote.spent),
          wrote.ids,
        ),
      )

-- With a budget within its limit, a write event is handled to the end. The packets that it sends are
-- the first ones of the queue, in order; what was not sent stays in the queue. They are written as
-- bytes, their identifiers are free again and no others, and each payload costs one credit.
pub handle_write-WroteEvent :
    (backoff : ℕ → ℕ) (socket : ℕ → WriteStatus) (ch : FairLoss)
    → ch.send_budget.counter ≤ ch.send_budget.max_budget
    → ch.send_budget.max_budget < 2 ^ 64
    → (ch' : FairLoss) × (sent : List Packet) × (handle_write backoff socket ch ≡ some ch')
      × WroteEvent ch ch' sent
unfolding handle_write contains
handle_write-WroteEvent backoff socket ch within limit =
    let all = Budget.credit_all_lem ch.send_budget (omega arith) in
    elim (Bool-cases (eqb ch.send_budget.counter 0)) [
      | inl broke ↦ (
        reschedule_empty backoff
            (record ch { send_budget = record ch.send_budget { counter = 0 } }),
        [],
        rw (all, broke) refl,
        record {
          order = refl;
          written = sym (append-nil ch.written);
          spent = ground arith;
          ids = λ id. ground arith;
        },
      )
      | inr funded ↦
          let popped = record ch {
            send_budget = record ch.send_budget { counter = 0 };
            outgoing_packets = (try_pop_all ch.outgoing_packets).1;
          } in
          let (ch', sent, done, (order, written, spent, ids)) =
            write_popped-Popped backoff socket ch.send_budget.counter popped
              (popped_nil ch.outgoing_packets) refl within limit
              (try_pop_all ch.outgoing_packets).0 in
          (
            ch',
            sent,
            rw (all, funded) done,
            record { order = order; written = written; spent = spent; ids = ids },
          )
    ]
