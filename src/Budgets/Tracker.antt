-- ===== src/Budgets/Tracker.antt =====
-- `RouteBudgetTracker`. Costs are millionths of a dollar: the ceiling is given after `usd_to_micros`, and
-- the quote for a call is `none` when the model has no price.
use readyagents_core.Common.{
  ℕ, ◌+◌, String, Bool, true, false, Option, none, some, List, [], ◌∷◌, ◌++◌, ◌&&◌, not,
  if◌then◌else◌, str_eq, ltb, contains, Dict, lookup, insert, get_or,
}

pub record Budget : Type 0 where
  pub max_tokens : Option ℕ
  pub max_cost_micros : Option ℕ

pub record Used : Type 0 where
  pub cost_micros : ℕ
  pub tokens : ℕ

abbrev pub nothing_used : Used
nothing_used = record { cost_micros = 0; tokens = 0 }

pub record Tracker : Type 0 where
  pub budgets : Dict Budget
  pub used : Dict Used

-- `RouteBudgetExceeded`, with the route.
pub data Exceeded : Type 0 where
  route_tokens : ℕ → ℕ → String → Exceeded
  route_cost_micros : ℕ → ℕ → String → Exceeded
  unpriced : ℕ → ℕ → String → Exceeded

unfoldable pub has_budget : String → Dict Budget → Bool
unfolding lookup
has_budget key budgets = elim (lookup key budgets) [ none ↦ false | some budget ↦ true ]

-- One step of the loop of `keys_for`.
unfoldable pub add_key : Dict Budget → String → List String → List String
unfolding has_budget contains
add_key budgets key found =
    if not (str_eq key "") && has_budget key budgets && not (contains key found)
    then found ++ key ∷ []
    else found

unfoldable pub add_keys : Dict Budget → List String → List String → List String
add_keys budgets [] found = found
add_keys budgets (key ∷ keys) found = add_keys budgets keys (add_key budgets key found)

abbrev rule_keys : Option String → List String
rule_keys none = []
rule_keys (some rule) = rule ∷ []

unfoldable pub keys_for : Tracker → String → List String → Option String → List String
keys_for t node_id tags rule_id = add_keys t.budgets (node_id ∷ tags ++ rule_keys rule_id) []

abbrev pub used_at : String → Dict Used → Used
used_at key used = get_or key nothing_used used

-- The ceilings of one key, the tokens first.
abbrev pub over_tokens : String → Option ℕ → ℕ → ℕ → Option Exceeded
over_tokens key none used prompt = none
over_tokens key (some limit) used prompt =
    if ltb limit (used + prompt) then some (route_tokens (used + prompt) limit key) else none

abbrev pub over_cost : String → Option ℕ → ℕ → Option ℕ → Option Exceeded
over_cost key none used quote = none
over_cost key (some limit) used none = some (unpriced used limit key)
over_cost key (some limit) used (some estimated) =
    if ltb limit (used + estimated)
    then some (route_cost_micros (used + estimated) limit key)
    else none

unfoldable pub check_key : String → Budget → Used → ℕ → Option ℕ → Option Exceeded
check_key key b u prompt quote = elim (over_tokens key b.max_tokens u.tokens prompt) [
  | some exceeded ↦ some exceeded
  | none ↦ over_cost key b.max_cost_micros u.cost_micros quote
]

abbrev pub check_budget_of : String → Option Budget → Used → ℕ → Option ℕ → Option Exceeded
check_budget_of key none u prompt quote = none
check_budget_of key (some b) u prompt quote = check_key key b u prompt quote

-- `self.used.setdefault(key, …)`: an entry that is missing is written.
unfoldable pub set_default : String → Dict Used → Dict Used
unfolding lookup insert
set_default key used = elim (lookup key used) [
  | none ↦ insert key nothing_used used
  | some u ↦ used
]

-- `consult`: the first refusal ends the loop.
unfoldable pub consult_keys :
    Dict Budget → List String → ℕ → Option ℕ → Dict Used → Option Exceeded × Dict Used
unfolding check_key lookup get_or set_default
consult_keys budgets [] prompt quote used = (none, used)
consult_keys budgets (key ∷ keys) prompt quote used =
    let used' = set_default key used in
    let rest = consult_keys budgets keys prompt quote used' in
    elim (check_budget_of key (lookup key budgets) (used_at key used') prompt quote) [
      | some exceeded ↦ (some exceeded, used')
      | none ↦ rest
    ]

unfoldable pub consult :
    Tracker → String → List String → Option String → ℕ → Option ℕ → Option Exceeded × Tracker
consult t node_id tags rule_id prompt quote =
    let (refusal, used) =
      consult_keys t.budgets (keys_for t node_id tags rule_id) prompt quote t.used in
    (refusal, record t { used = used })

-- `record`: each key is charged.
unfoldable pub charge : String → ℕ → ℕ → Dict Used → Dict Used
unfolding insert get_or
charge key tokens cost used =
    let u = used_at key used in
    insert key (record { cost_micros = u.cost_micros + cost; tokens = u.tokens + tokens }) used

unfoldable pub charge_keys : List String → ℕ → ℕ → Dict Used → Dict Used
charge_keys [] tokens cost used = used
charge_keys (key ∷ keys) tokens cost used =
    charge_keys keys tokens cost (charge key tokens cost used)

unfoldable pub record_usage : Tracker → String → List String → Option String → ℕ → ℕ → Tracker
record_usage t node_id tags rule_id tokens cost = record t {
  used = charge_keys (keys_for t node_id tags rule_id) tokens cost t.used;
}
