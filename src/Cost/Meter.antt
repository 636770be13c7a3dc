-- ===== src/Cost/Meter.antt =====
-- `SpendMeter`: what a run has used, and the caps that are consulted before a call. Each operation holds
-- the lock and is one step; counts are natural numbers, and `elapsed` is the time since the run began.
use readyagents_core.Common.{
  ℕ, ◌+◌, ◌-◌, String, Bool, true, false, ◌||◌, Option, none, some, List, [], ◌∷◌, ◌++◌, ◌==◌,
  if◌then◌else◌, str_eq, ltb, leb, contains, Dict, insert, get_or,
}
use readyagents_core.Cost.Shared.{Shared, Exceeded, unpriced, before_call, reserve, commit, release}

pub record Caps : Type 0 where
  pub max_spend_micros : Option ℕ
  pub max_tokens : Option ℕ
  pub max_model_calls : Option ℕ
  pub max_tool_rounds : Option ℕ
  pub max_wall_seconds : Option ℕ

pub record ModelUse : Type 0 where
  pub prompt_tokens : ℕ
  pub completion_tokens : ℕ
  pub total_tokens : ℕ
  pub cost_micros : ℕ

abbrev no_use : ModelUse
no_use = record { prompt_tokens = 0; completion_tokens = 0; total_tokens = 0; cost_micros = 0 }

-- `shared` is the budget of the batch, if the run is part of one.
pub record Meter : Type 0 where
  pub caps : Caps
  pub prompt_tokens : ℕ
  pub completion_tokens : ℕ
  pub total_tokens : ℕ
  pub cost_micros : ℕ
  pub is_unpriced : Bool
  pub unpriced_models : List String
  pub model_calls : ℕ
  pub tool_rounds : ℕ
  pub cache_hits : ℕ
  pub cache_misses : ℕ
  pub cache_savings_micros : ℕ
  pub by_model : Dict ModelUse
  pub reserved_tokens : ℕ
  pub reserved_cost : ℕ
  pub shared : Option Shared

pub data Refusal : Type 0 where
  -- `RunawayGuard`.
  too_long : ℕ → ℕ → Refusal
  too_many_calls : ℕ → ℕ → Refusal
  too_many_rounds : ℕ → ℕ → Refusal
  -- `BudgetExceeded`.
  over_tokens : ℕ → ℕ → Refusal
  over_cost : Exceeded → Refusal
  over_shared : Exceeded → Refusal

unfoldable pub new_meter : Caps → Option Shared → Meter
new_meter caps shared = record {
  caps = caps;
  prompt_tokens = 0;
  completion_tokens = 0;
  total_tokens = 0;
  cost_micros = 0;
  is_unpriced = false;
  unpriced_models = [];
  model_calls = 0;
  tool_rounds = 0;
  cache_hits = 0;
  cache_misses = 0;
  cache_savings_micros = 0;
  by_model = [];
  reserved_tokens = 0;
  reserved_cost = 0;
  shared = shared;
}

-- A step that may refuse, and what follows when it does not.
abbrev pub then_step :
    Option Refusal × Meter → (Meter → Option Refusal × Meter) → Option Refusal × Meter
then_step (some refusal, m) next = (some refusal, m)
then_step (none, m) next = next m

-- `_check_wall_locked`.
abbrev pub check_wall : ℕ → Meter → Option Refusal × Meter
check_wall elapsed m = elim m.caps.max_wall_seconds [
  | none ↦ (none, m)
  | some limit ↦ if leb limit elapsed then (some (too_long elapsed limit), m) else (none, m)
]

abbrev pub check_calls : Meter → Option Refusal × Meter
check_calls m = elim m.caps.max_model_calls [
  | none ↦ (none, m)
  | some limit ↦
      if leb limit m.model_calls then (some (too_many_calls m.model_calls limit), m) else (none, m)
]

abbrev pub reserve_tokens : ℕ → Meter → Option Refusal × Meter
reserve_tokens tokens m = elim m.caps.max_tokens [
  | none ↦ (none, m)
  | some limit ↦
      let in_flight = m.total_tokens + m.reserved_tokens in
      if leb limit in_flight || ltb limit (in_flight + tokens)
      then (some (over_tokens (in_flight + tokens) limit), m)
      else (none, record m { reserved_tokens = m.reserved_tokens + tokens })
]

unfoldable pub mark_unpriced : String → Meter → Meter
unfolding contains
mark_unpriced model m = record m {
  is_unpriced = true;
  unpriced_models =
      if contains model m.unpriced_models
      then m.unpriced_models
      else m.unpriced_models ++ model ∷ [];
}

abbrev pub reserve_cost : String → Option ℕ → Meter → Option Refusal × Meter
reserve_cost model estimate m = elim m.caps.max_spend_micros [
  | none ↦ (none, m)
  | some limit ↦ elim estimate [
    | none ↦ (some (over_cost (unpriced m.cost_micros limit)), mark_unpriced model m)
    | some cost ↦
        let in_flight = m.cost_micros + m.reserved_cost in
        if leb limit in_flight || ltb limit (in_flight + cost)
        then (some (over_cost (before_call (in_flight + cost) limit)), m)
        else (none, record m { reserved_cost = m.reserved_cost + cost })
  ]
]

abbrev pub count_call : Meter → Option Refusal × Meter
count_call m = (none, record m { model_calls = m.model_calls + 1 })

-- What a refusal of the shared budget takes back.
abbrev pub take_back_tokens : ℕ → Option ℕ → ℕ → ℕ
take_back_tokens tokens none reserved = reserved
take_back_tokens tokens (some limit) reserved = reserved - tokens

abbrev pub take_back_cost : Option ℕ → Option ℕ → ℕ → ℕ
take_back_cost (some limit) (some cost) reserved = reserved - cost
take_back_cost limit estimate reserved = reserved

abbrev pub shared_answer : ℕ → Option ℕ → Meter → Option Exceeded × Shared → Option Refusal × Meter
shared_answer tokens estimate m (none, b) = (none, record m { shared = some b })
shared_answer tokens estimate m (some exceeded, b) = (
  some (over_shared exceeded),
  record m {
    shared = some b;
    reserved_tokens = take_back_tokens tokens m.caps.max_tokens m.reserved_tokens;
    reserved_cost = take_back_cost m.caps.max_spend_micros estimate m.reserved_cost;
    model_calls = m.model_calls - 1;
  },
)

abbrev pub reserve_shared : ℕ → Option ℕ → Meter → Option Refusal × Meter
reserve_shared tokens estimate m = elim m.shared [
  | none ↦ (none, m)
  | some b ↦ shared_answer tokens estimate m (reserve estimate b)
]

-- Reserved costs are forgotten when no tokens are reserved.
abbrev pub settle_cost : ℕ → ℕ → ℕ
settle_cost tokens cost = if tokens == 0 then 0 else cost

-- A cost that is missing or 0 is not released.
abbrev pub released_cost : Option ℕ → ℕ
released_cost none = 0
released_cost (some cost) = cost

abbrev pub release_shared : ℕ → Option Shared → Option Shared
release_shared cost none = none
release_shared cost (some b) = if cost == 0 then some b else some (release cost b)

abbrev pub add_use : ℕ → ℕ → ℕ → ℕ → ModelUse → ModelUse
add_use prompt completion total cost u = record {
  prompt_tokens = u.prompt_tokens + prompt;
  completion_tokens = u.completion_tokens + completion;
  total_tokens = u.total_tokens + total;
  cost_micros = u.cost_micros + cost;
}

abbrev pub add_cost : String → Option ℕ → Meter → Meter
add_cost model none m = mark_unpriced model m
add_cost model (some cost) m = record m { cost_micros = m.cost_micros + cost }

abbrev pub commit_shared : ℕ → ℕ → Option Shared → Option Shared
commit_shared actual reserved_cost none = none
commit_shared actual reserved_cost (some b) = some (commit actual reserved_cost b)

abbrev pub named_model : String → String
named_model model = if str_eq model "" then "unknown" else model

-- `price model prompt completion` is the quoted cost, or `none`.
module _ (price : String → ℕ → ℕ → Option ℕ) where
  unfoldable pub consult_before_call : ℕ → String → ℕ → ℕ → Meter → Option Refusal × Meter
  consult_before_call elapsed model prompt completion m =
      let tokens = prompt + completion in
      let estimate = price model prompt completion in
      then_step (check_wall elapsed m) λ m₁. then_step (check_calls m₁) λ m₂.
        then_step (reserve_tokens tokens m₂) λ m₃.
          then_step (reserve_cost model estimate m₃)
            λ m₄. then_step (count_call m₄) (λ m₅. reserve_shared tokens estimate m₅)

  -- The cost is asked for without the name of the model.
  unfoldable pub release_reservation : ℕ → ℕ → Meter → Meter
  release_reservation prompt completion m =
      let tokens = m.reserved_tokens - (prompt + completion) in
      let cost = released_cost (price "" prompt completion) in
      record m {
        reserved_tokens = tokens;
        reserved_cost = settle_cost tokens (m.reserved_cost - cost);
        shared = release_shared cost m.shared;
      }

  -- A missing total, or one of 0, is the sum of the two counts.
  unfoldable pub record_usage : String → ℕ → ℕ → ℕ → ℕ → ℕ → Meter → Meter
  unfolding get_or insert
  record_usage model prompt completion total reserved_prompt reserved_completion m =
      let total' = if total == 0 then prompt + completion else total in
      let tokens = m.reserved_tokens - (reserved_prompt + reserved_completion) in
      let reserved = released_cost (price model reserved_prompt reserved_completion) in
      let spent = price model prompt completion in
      let name = named_model model in
      add_cost model spent (record m {
        prompt_tokens = m.prompt_tokens + prompt;
        completion_tokens = m.completion_tokens + completion;
        total_tokens = m.total_tokens + total';
        reserved_tokens = tokens;
        reserved_cost = settle_cost tokens (m.reserved_cost - reserved);
        shared = commit_shared (released_cost spent) reserved m.shared;
        by_model =
            insert name
              (add_use prompt completion total' (released_cost spent)
                (get_or name no_use m.by_model))
              m.by_model;
      })

  unfoldable pub record_cache_hit : String → ℕ → ℕ → Meter → ℕ × Meter
  record_cache_hit model prompt completion m =
      let saved = released_cost (price model prompt completion) in
      (
        saved,
        record m {
          cache_hits = m.cache_hits + 1;
          cache_savings_micros = m.cache_savings_micros + saved;
        },
      )

unfoldable pub record_cache_miss : Meter → Meter
record_cache_miss m = record m { cache_misses = m.cache_misses + 1 }

abbrev pub check_rounds : Meter → Option Refusal × Meter
check_rounds m = elim m.caps.max_tool_rounds [
  | none ↦ (none, m)
  | some limit ↦
      if leb limit m.tool_rounds then (some (too_many_rounds m.tool_rounds limit), m) else (none, m)
]

unfoldable pub record_tool_round : Meter → Option Refusal × Meter
record_tool_round m =
    then_step (check_rounds m) (λ m'. (none, record m' { tool_rounds = m'.tool_rounds + 1 }))

unfoldable pub consult_tool_round : ℕ → Meter → Option Refusal × Meter
consult_tool_round elapsed m = then_step (check_wall elapsed m) check_rounds
