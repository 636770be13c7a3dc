-- ===== src/Routing/Tests.antt =====
-- A policy with a local and a hosted model.
use readyagents_core.Common.{
  ℕ, ◌≡◌, ◌↔◌, refl, String, Bool, true, false, none, some, [], ◌∷◌, if◌then◌else◌, str_eq, All,
}
use readyagents_core.Routing.Capabilities.{ModelCapabilities, CapabilityMatrix}
use readyagents_core.Routing.Rules.{
  trusted, indeterminate, cheapest_capable, RouteRule, RoutingSpec, Node, effective_untrusted,
  locks, rule_matches, merged_require,
}
use readyagents_core.Routing.Choice.{
  chosen, Request, passes, resolve_rule, stays_local, local_require, ordered_refs,
}
use readyagents_core.Routing.Route.{
  Workflow, legacy_models, select_route, first_rule, by_rules, legacy_decision,
}
use readyagents_core.Routing.Screening.{Outcome, resolve_rule-Outcome}
use readyagents_core.Routing.Residency.{KeepsLocal, select_route-KeepsLocal}
use readyagents_core.Routing.Cheapest.{IsBest, resolve_rule-IsBest}
use readyagents_core.Routing.Taint.{RunState, provenance_keys, resolve_routing_taint}
use readyagents_core.Routing.Clear.{KeysAreClear, resolve_routing_taint-KeysAreClear}

abbrev model_at : Bool → ModelCapabilities
model_at is_local = record {
  context_window = 8000;
  tool_calling = true;
  structured_output = true;
  media = false;
  streaming = true;
  local = is_local;
  latency_class = "standard";
  quality_class = "standard";
  found_by = "exact";
}

abbrev two_models : CapabilityMatrix
two_models = record {
  models = ("openai:a", model_at false) ∷ ("ollama:b", model_at true) ∷ [];
  prefixes = [];
}

abbrev price : String → ℕ
price ref = if str_eq ref "openai:a" then 3 else 5

abbrev cheapest : RouteRule
cheapest = record {
  id = "cheapest";
  matching = none;
  strategy = some cheapest_capable;
  pin = "";
  require = none;
  pool = "openai:a" ∷ "ollama:b" ∷ [];
}

abbrev for_untrusted : RouteRule
for_untrusted = record cheapest {
  id = "untrusted";
  matching = some (record { node = ""; node_tag = ""; role = ""; taint = some true });
}

abbrev policy : RoutingSpec
policy = record { rules = cheapest ∷ for_untrusted ∷ []; pool = [] }

abbrev node : Node
node = record { id = "n"; tags = []; role = ""; model = ""; fallback_models = [] }

abbrev request : Request
request = record {
  taint = indeterminate;
  tools = true;
  structured = false;
  streaming = false;
  legacy = "openai:a" ∷ [];
}

abbrev workflow : Workflow
workflow = record { default_model = "openai:a"; fallback_models = []; routing = some policy }

select_route-KeepsLocal_example :
    KeepsLocal 0 two_models price policy.rules node indeterminate
      (legacy_decision ("openai:a" ∷ []) "openai:a" "no_matching_rule" indeterminate)
      (select_route 0 two_models price none workflow node "" request none).0
unfolding effective_untrusted locks legacy_models
select_route-KeepsLocal_example =
    select_route-KeepsLocal 0 two_models price policy workflow node "" request none refl refl refl

resolve_rule-Outcome_example :
    let require = merged_require cheapest true false false in
    let local_only = stays_local 0 two_models price cheapest request true require in
    Outcome 0 two_models price cheapest 0 request
      (passes 0 two_models price local_only
        (local_require 0 two_models price cheapest request true require))
      (ordered_refs 0 two_models price cheapest policy request.legacy).0
      (resolve_rule 0 two_models price cheapest 0 node policy request true none).0
resolve_rule-Outcome_example =
    resolve_rule-Outcome 0 two_models price cheapest 0 node policy request true

resolve_rule-IsBest_example :
    IsBest 0 two_models price cheapest
      (resolve_rule 0 two_models price cheapest 0 node policy request false none).0
resolve_rule-IsBest_example =
    resolve_rule-IsBest 0 two_models price cheapest 0 node policy request false none

abbrev with_seed : RunState
with_seed = record {
  inputs = "topic" ∷ [];
  provenance = ("seed", record { is_untrusted = true; source = "tool" }) ∷ [];
}

resolve_routing_taint-KeysAreClear_example :
    (resolve_routing_taint ("topic" ∷ "outputs.seed" ∷ []) (some with_seed) ≡ trusted)
    ↔ All (λ path. KeysAreClear with_seed (provenance_keys path)) ("topic" ∷ "outputs.seed" ∷ [])
resolve_routing_taint-KeysAreClear_example =
    resolve_routing_taint-KeysAreClear ("topic" ∷ "outputs.seed" ∷ []) with_seed

-- Untrusted data for which no rule matches goes where it would go without the policy.
abbrev elsewhere : RouteRule
elsewhere = record for_untrusted {
  matching = some (record { node = "other"; node_tag = ""; role = ""; taint = some true });
}

unmatched :
    (by_rules 0 two_models price
      (some (record { rules = elsewhere ∷ []; pool = [] }))
      node
      request
      "mock"
      none).0
    ≡ chosen (legacy_decision request.legacy "mock" "no_matching_rule" indeterminate)
unfolding by_rules first_rule rule_matches
unmatched = refl
