-- ===== src/Concurrency/Budget.antt =====
-- include/concurrency/budget.hpp: `SharedBudget`, whose counters are of type size_t.
use broadcast_service.Base.{ℕ, ◌+◌, ◌-◌, ◌%◌, ◌^◌, ◌<◌, ◌≤◌, ◌≡◌, refl, if◌then◌else◌, ltb, arith}

pub record Budget : Type 0 where
  pub counter : ℕ
  pub max_budget : ℕ

abbrev max_counter : ℕ
max_counter = 2 ^ 64 - 1

abbrev smaller : ℕ → ℕ → ℕ
smaller a b = if ltb b a then b else a

-- The constructors, with and without a largest budget.
abbrev pub init : ℕ → ℕ → Budget
init initial_budget max_budget = record { counter = initial_budget; max_budget = max_budget }

abbrev pub unlimited : ℕ → Budget
unlimited initial_budget = init initial_budget max_counter

-- `Credit(max_credit)`: what is taken from the budget.
unfoldable pub credit : ℕ → Budget → ℕ × Budget
credit max_credit budget =
    let taken = smaller budget.counter max_credit in
    (taken, record budget { counter = budget.counter - taken })

-- `Credit()`
unfoldable pub credit_all : Budget → ℕ × Budget
credit_all budget = credit max_counter budget

unfoldable pub top_up : ℕ → Budget → Budget
top_up amount budget = record budget {
  counter = smaller ((budget.counter + amount) % 2 ^ 64) budget.max_budget;
}

-- A credit is at most what is asked for and what is there, and taken off the budget: nothing is lost.
-- It is less than what was asked for only if the budget is used up.
pub credit_lem :
    (amount : ℕ) (budget : Budget)
    → ((credit amount budget).0 ≤ amount)
      × ((credit amount budget).0 + (credit amount budget).1.counter ≡ budget.counter)
      × ((credit amount budget).0 < amount → (credit amount budget).1.counter ≡ 0)
      × ((credit amount budget).1.max_budget ≡ budget.max_budget)
unfolding credit
credit_lem amount budget = (ground arith, ground arith, ground arith, refl)

-- A budget within its limit stays within it, and takes back all of an amount that was credited before.
pub top_up-credit :
    (amount : ℕ) (budget : Budget)
    → budget.counter ≤ budget.max_budget
    → budget.max_budget < 2 ^ 64
    → top_up (credit amount budget).0 (credit amount budget).1 ≡ budget
unfolding top_up credit
top_up-credit amount budget within limit = ground arith

-- Whatever is added, a budget does not exceed its limit.
pub top_up-le : (amount : ℕ) (budget : Budget) → (top_up amount budget).counter ≤ budget.max_budget
unfolding top_up
top_up-le amount budget = ground arith

-- Without a limit all of the budget is taken.
pub credit_all_lem :
    (budget : Budget)
    → budget.counter < 2 ^ 64
    → credit_all budget ≡ (budget.counter, record budget { counter = 0 })
unfolding credit_all credit
credit_all_lem budget small = ground arith
