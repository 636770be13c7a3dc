-- ===== src/Resilience/Models.antt =====
-- `model_candidates`, `check_budget`, `raise_exhausted`.
use readyagents_core.Common.{
  ℕ, ◌+◌, String, Bool, false, Option, none, some, List, [], ◌∷◌, ◌++◌, leb, if◌then◌else◌, str_eq,
  contains, strip, Dict, get_or,
}

-- One step of the inner loop: `if ref and ref not in seen: seen.append(ref)`.
unfoldable pub add_candidate : String → List String → List String
add_candidate item seen =
    let ref = strip item in
    if str_eq ref "" then seen else if contains ref seen then seen else seen ++ ref ∷ []

unfoldable pub add_group : List String → List String → List String
add_group [] seen = seen
add_group (item ∷ items) seen = add_group items (add_candidate item seen)

unfoldable pub add_groups : List (Option (List String)) → List String → List String
add_groups [] seen = seen
add_groups (none ∷ groups) seen = add_groups groups seen
add_groups (some group ∷ groups) seen = add_groups groups (add_group group seen)

-- `(primary,) if primary else ()`.
abbrev pub primary_group : Option String → List String
primary_group none = []
primary_group (some primary) = if str_eq primary "" then [] else primary ∷ []

unfoldable pub model_candidates : Option String → List (Option (List String)) → List String
model_candidates primary groups = add_groups (some (primary_group primary) ∷ groups) []

-- `BudgetExceeded`, by its kind, what was used and the limit.
pub data Exceeded : Type 0 where
  tokens : ℕ → ℕ → Exceeded
  cost_micros : ℕ → ℕ → Exceeded

abbrev over : Option ℕ → ℕ → Bool
over none used = false
over (some limit) used = leb limit used

abbrev limit_of : Option ℕ → ℕ
limit_of none = 0
limit_of (some limit) = limit

-- `none` when the check passes.
unfoldable pub check_budget : Dict ℕ → Option ℕ → Option ℕ → Option Exceeded
check_budget usage max_tokens max_cost_micros =
    let used = get_or "total_tokens" 0 usage + get_or "estimated_tokens" 0 usage in
    let cost = get_or "cost_micros" 0 usage in
    if over max_tokens used
    then some (tokens used (limit_of max_tokens))
    else if over max_cost_micros cost
    then some (cost_micros cost (limit_of max_cost_micros))
    else none

-- What is raised when no model answered. `E` are the errors of the calls.
pub data Exhausted {ℓ} (E : Type ℓ) : Type ℓ where
  circuit_open : String → Exhausted E
  last_error : E → Exhausted E
  no_model : Exhausted E

unfoldable pub raise_exhausted {ℓ} :
    {E : Type ℓ} → List String → List String → Option E → Exhausted E
raise_exhausted [] (model ∷ skipped) last = circuit_open model
raise_exhausted tried skipped (some error) = last_error error
raise_exhausted tried (model ∷ skipped) none = circuit_open model
raise_exhausted tried [] none = no_model
