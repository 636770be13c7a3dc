-- ===== src/Routing/Route.antt =====
-- `select_route`: the model of a call, by an adapter that the node is pinned to, by the first rule that
-- matches, or as without a policy.
use Prim.Native.String.{◌++◌ as concat}
use readyagents_core.Common.{
  ℕ, suc, String, Bool, true, false, ◌&&◌, ◌||◌, not, Option, none, some, List, [], ◌∷◌, ◌++◌,
  if◌then◌else◌, str_eq, strip, contains,
}
use readyagents_core.Resilience.Breaker.{Breaker}
use readyagents_core.Routing.Capabilities.{no_require, CapabilityMatrix}
use readyagents_core.Routing.Rules.{
  Taint, RouteRule, RoutingSpec, Node, rule_matches, residency_locked,
}
use readyagents_core.Routing.Choice.{RouteDecision, Result, chosen, Request, resolve_rule}

pub record Workflow : Type 0 where
  pub default_model : String
  pub fallback_models : List String
  pub routing : Option RoutingSpec

-- `pin_for`: the adapter that a node is pinned to.
pub record AdapterPin : Type 0 where
  pub adapter_id : String
  pub incumbent : String
  pub fallback : Bool

-- The rules from `index` on, of which the first that matches is resolved.
unfoldable pub first_rule :
    ℕ
    → CapabilityMatrix
    → (String → ℕ)
    → List RouteRule
    → ℕ
    → Node
    → RoutingSpec
    → Request
    → Option Breaker
    → Option (Result × Option Breaker)
unfolding rule_matches residency_locked
first_rule now matrix price [] index node policy request breaker = none
first_rule now matrix price (rule ∷ rules) index node policy request breaker =
    let rest = first_rule now matrix price rules (suc index) node policy request breaker in
    if not (rule_matches rule node request.taint)
    then rest
    else some (
        resolve_rule now matrix price rule index node policy request
          (residency_locked policy request.taint) breaker)

abbrev pub or_text : String → String → String
or_text a b = if str_eq a "" then b else a

-- The fallback models that are not in the list yet, after it.
unfoldable add_fallbacks : List String → List String → List String
unfolding strip contains
add_fallbacks legacy [] = legacy
add_fallbacks legacy (item ∷ items) =
    let ref = strip item in
    add_fallbacks (if str_eq ref "" || contains ref legacy then legacy else legacy ++ ref ∷ [])
      items

unfoldable pub legacy_models : String → Workflow → Node → List String → List String
unfolding add_fallbacks
legacy_models default_model workflow node [] =
    add_fallbacks (if str_eq default_model "" then [] else default_model ∷ [])
      (node.fallback_models ++ workflow.fallback_models)
legacy_models default_model workflow node (x ∷ xs) = x ∷ xs

abbrev pub first_or : List String → String → String
first_or [] default_model = or_text default_model "mock"
first_or (x ∷ xs) default_model = x

-- A decision without a rule.
abbrev pub plain : String → String → List String → Bool → Bool → Taint → RouteDecision
plain model reason candidates policy fallback taint = record {
  model = model;
  policy = policy;
  reason = reason;
  strategy = none;
  rule_id = "";
  rule_index = none;
  pin = "";
  fallback = fallback;
  skipped = [];
  candidates = candidates;
  require = no_require;
  taint = taint;
  local_only = false;
}

abbrev or_one : List String → String → List String
or_one [] model = model ∷ []
or_one (x ∷ xs) model = x ∷ xs

abbrev pub legacy_decision : List String → String → String → Taint → RouteDecision
legacy_decision legacy default_model reason taint =
    let model = first_or legacy default_model in
    plain model reason (or_one legacy model) false false taint

unfoldable pub distill_pin : Option AdapterPin → List String → String → Taint → Option RouteDecision
unfolding strip
distill_pin none legacy default_model taint = none
distill_pin (some p) legacy default_model taint =
    let adapter_id = strip p.adapter_id in
    let adapter_ref = concat "adapter:" adapter_id in
    let incumbent = or_text (strip p.incumbent) (first_or legacy default_model) in
    let others =
      if p.fallback && not (str_eq incumbent "") && not (str_eq incumbent adapter_ref)
      then incumbent ∷ []
      else [] in
    if str_eq adapter_id ""
    then none
    else some (plain adapter_ref "distill_adapter" (adapter_ref ∷ others) true p.fallback taint)

-- The first rule that matches; without a policy or such a rule the list of candidates as it was.
unfoldable pub by_rules :
    ℕ
    → CapabilityMatrix
    → (String → ℕ)
    → Option RoutingSpec
    → Node
    → Request
    → String
    → Option Breaker
    → Result × Option Breaker
unfolding first_rule
by_rules now matrix price none node request default_model breaker = (
  chosen (legacy_decision request.legacy default_model "no_routing_policy" request.taint),
  breaker,
)
by_rules now matrix price (some policy) node request default_model breaker = elim policy.rules [
  | [] ↦ (
    chosen (legacy_decision request.legacy default_model "no_routing_policy" request.taint),
    breaker,
  )
  | rule ∷ rules ↦ elim (first_rule now matrix price policy.rules 0 node policy request breaker) [
    | some answer ↦ answer
    | none ↦ (
      chosen (legacy_decision request.legacy default_model "no_matching_rule" request.taint),
      breaker,
    )
  ]
]

unfoldable pub select_route :
    ℕ
    → CapabilityMatrix
    → (String → ℕ)
    → Option AdapterPin
    → Workflow
    → Node
    → String
    → Request
    → Option Breaker
    → Result × Option Breaker
unfolding legacy_models distill_pin
select_route now matrix price adapter workflow node primary request breaker =
    let default_model = or_text primary (or_text node.model workflow.default_model) in
    let legacy = legacy_models default_model workflow node request.legacy in
    elim (distill_pin adapter legacy default_model request.taint) [
      | some decision ↦ (chosen decision, breaker)
      | none ↦
          by_rules now matrix price workflow.routing node (record request { legacy = legacy })
            default_model breaker
    ]
