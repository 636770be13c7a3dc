-- ===== src/Budgets/Tests.antt =====
-- A tracker with the ceilings of a node and a tag.
use readyagents_core.Common.{◌≡◌, ◌↔◌, refl, String, none, some, [], ◌∷◌, contains, lookup, get_or}
use readyagents_core.Budgets.Tracker.{
  Tracker, used_at, has_budget, add_key, add_keys, keys_for, consult, record_usage,
}
use readyagents_core.Budgets.Charges.{used-record_usage}
use readyagents_core.Budgets.Ceilings.{AllWithin, consult-AllWithin}

abbrev tracker : Tracker
tracker = record {
  budgets =
      ("draft", record { max_tokens = some 100; max_cost_micros = none })
      ∷ ("cheap", record { max_tokens = none; max_cost_micros = some 50 })
      ∷ [];
  used = ("draft", record { cost_micros = 7; tokens = 90 }) ∷ [];
}

repeated_tag :
    keys_for tracker "draft" ("cheap" ∷ "draft" ∷ "other" ∷ []) none ≡ "draft" ∷ "cheap" ∷ []
unfolding keys_for add_keys add_key has_budget lookup contains
repeated_tag = refl

used-record_usage_example :
    let after = used_at "draft" (record_usage tracker "draft" ("draft" ∷ []) none 5 3).used in
    (after.tokens ≡ 95) × (after.cost_micros ≡ 10)
unfolding keys_for add_keys add_key has_budget lookup contains get_or
used-record_usage_example = used-record_usage tracker "draft" ("draft" ∷ []) none 5 3 "draft"

consult-AllWithin_example :
    let x = consult tracker "draft" ("cheap" ∷ []) none 11 (some 20) in
    ((x.0 ≡ none) ↔ AllWithin tracker.budgets ("draft" ∷ "cheap" ∷ []) 11 (some 20) tracker.used)
    × ((j : String) → used_at j x.1.used ≡ used_at j tracker.used)
unfolding keys_for add_keys add_key has_budget lookup contains
consult-AllWithin_example = consult-AllWithin tracker "draft" ("cheap" ∷ []) none 11 (some 20)
