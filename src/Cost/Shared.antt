-- ===== src/Cost/Shared.antt =====
-- `SharedBudget`: the cap that the runs of a batch share. Each operation holds the lock and is one step;
-- costs are natural numbers.
use readyagents_core.Common.{
  ℕ, ◌+◌, ◌-◌, ◌||◌, Option, none, some, if◌then◌else◌, ltb, leb, ℤ, pos_part,
}

pub record Shared : Type 0 where
  pub max_spend_micros : ℕ
  pub cost_micros : ℕ
  pub reserved : ℕ

-- `BudgetExceeded`, for a call without a price and for one that is over.
pub data Exceeded : Type 0 where
  unpriced : ℕ → ℕ → Exceeded
  before_call : ℕ → ℕ → Exceeded

unfoldable pub new_shared : ℤ → Shared
new_shared max_spend = record {
  max_spend_micros = pos_part max_spend;
  cost_micros = 0;
  reserved = 0;
}

unfoldable pub remaining_micros : Shared → ℕ
remaining_micros b = b.max_spend_micros - b.cost_micros - b.reserved

unfoldable pub reserve : Option ℕ → Shared → Option Exceeded × Shared
reserve none b = (some (unpriced b.cost_micros b.max_spend_micros), b)
reserve (some cost) b =
    let in_flight = b.cost_micros + b.reserved in
    if leb b.max_spend_micros in_flight || ltb b.max_spend_micros (in_flight + cost)
    then (some (before_call (in_flight + cost) b.max_spend_micros), b)
    else (none, record b { reserved = b.reserved + cost })

unfoldable pub commit : ℕ → ℕ → Shared → Shared
commit actual reserved_cost b = record b {
  reserved = b.reserved - reserved_cost;
  cost_micros = b.cost_micros + actual;
}

unfoldable pub release : ℕ → Shared → Shared
release reserved_cost b = record b { reserved = b.reserved - reserved_cost }
