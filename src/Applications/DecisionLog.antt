-- ===== src/Applications/DecisionLog.antt =====
-- include/applications/lattice_agreement.hpp: the callback that logs the decisions, which may come out of
-- order. A round is a 32-bit number.
pub mod Draining
pub mod InOrder
use broadcast_service.Base.{
  ℕ, zero, suc, ◌+◌, ◌%◌, ◌^◌, Bool, true, false, Option, none, some, List, [], ◌∷◌, ◌++◌, nat_eq,
  ◌==◌, if◌then◌else◌, length,
}
use broadcast_service.Util.Dict

-- `output` is the proposals that have been written.
pub record DecisionLog (S : Type 0) : Type 0 where
  pub next_round_to_log : ℕ
  pub out_of_order_cache : List (ℕ × S)
  pub output : List S

module _ {S : Type 0} where
  unfoldable pub init : DecisionLog S
  init = record { next_round_to_log = 0; out_of_order_cache = []; output = [] }

  -- `++next_round_to_log; WriteProposalToOutput(set)`
  unfoldable pub log_next : S → DecisionLog S → DecisionLog S
  log_next set l = record l {
    next_round_to_log = (l.next_round_to_log + 1) % 2 ^ 32;
    output = l.output ++ set ∷ [];
  }

  -- The entry that has been found is logged and erased.
  unfoldable pub log_cached : S → DecisionLog S → DecisionLog S
  log_cached set l = record (log_next set l) {
    out_of_order_cache = Dict.erase l.next_round_to_log l.out_of_order_cache;
  }

  -- The loop over what follows in the cache.
  unfoldable pub drain : ℕ → DecisionLog S → DecisionLog S
  drain zero l = l
  drain (suc fuel) l = elim (Dict.lookup l.next_round_to_log l.out_of_order_cache) [
    | none ↦ l
    | some set ↦ drain fuel (log_cached set l)
  ]

  -- Each round of the loop erases an entry.
  unfoldable pub decided : ℕ → S → DecisionLog S → DecisionLog S
  decided round set l =
      if round == l.next_round_to_log
      then drain (length l.out_of_order_cache + 1) (log_next set l)
      else record l { out_of_order_cache = Dict.assign round set l.out_of_order_cache }

  -- The decisions of `rounds`, in the order in which they come.
  unfoldable pub decide_all : (ℕ → S) → List ℕ → DecisionLog S → DecisionLog S
  decide_all set [] l = l
  decide_all set (round ∷ rounds) l = decide_all set rounds (decided round (set round) l)
