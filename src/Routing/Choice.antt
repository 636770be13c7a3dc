-- ===== src/Routing/Choice.antt =====
-- `_resolve_rule`: the model that a rule chooses. The breaker is asked about each candidate, which may change it.
-- `price` is the rank by price. `now` is the reading of the clock, one for all the candidates of a call: the
-- breaker, which reads the clock for each, is asked about all of them at that time.
use Prim.Native.String.{◌++◌ as concat}
use readyagents_core.Common.{
  ℕ, String, Bool, true, false, ◌&&◌, ◌||◌, not, Option, none, some, List, [], ◌∷◌, ◌++◌, map,
  if◌then◌else◌, str_eq, strip, filter, contains,
}
use readyagents_core.Resilience.Breaker.{Breaker, allow}
use readyagents_core.Routing.Capabilities.{
  Require, CapabilityMatrix, supports, catalog_refs, lookup_model, is_local_ref, is_hosted_ref,
}
use readyagents_core.Routing.Rules.{
  Taint, Strategy, cheapest_capable, pin, RouteRule, RoutingSpec, Node, effective_untrusted,
  is_local_only, taint_rule, merged_require,
}
use readyagents_core.Routing.Ranking.{rank_pool}

pub record RouteDecision : Type 0 where
  pub model : String
  pub policy : Bool
  pub reason : String
  pub strategy : Option Strategy
  pub rule_id : String
  pub rule_index : Option ℕ
  pub pin : String
  pub fallback : Bool
  pub skipped : List String
  pub candidates : List String
  pub require : Require
  pub taint : Taint
  pub local_only : Bool

pub data Failure : Type 0 where
  -- `RoutingError` and `CapabilityError`.
  unsatisfiable : ℕ → Option Strategy → Taint → List String → Failure
  hosted_pin : String → Failure
  unsupported : String → Failure

pub data Result : Type 0 where
  failed : Failure → Result
  chosen : RouteDecision → Result

-- What a call asks for.
pub record Request : Type 0 where
  pub taint : Taint
  pub tools : Bool
  pub structured : Bool
  pub streaming : Bool
  pub legacy : List String

pub record Screened : Type 0 where
  pub skipped : List String
  pub capable : List String
  pub breaker : Option Breaker

abbrev pub skip : String → Screened → Screened
skip ref rest = record rest { skipped = ref ∷ rest.skipped }

abbrev pub keep : String → Screened → Screened
keep ref rest = record rest { capable = ref ∷ rest.capable }

abbrev pub ask : ℕ → String → Option Breaker → Bool × Option Breaker
ask now ref none = (true, none)
ask now ref (some b) = let (is_allowed, b') = allow ref now b in (is_allowed, some b')

module _ (now : ℕ) (matrix : CapabilityMatrix) (price : String → ℕ) where
  unfoldable pub passes : Bool → Require → String → Bool
  passes local_only require ref =
      if local_only && is_hosted_ref matrix ref then false else elim (lookup_model matrix ref) [
        | none ↦ false
        | some caps ↦
            if not (supports require caps)
            then false
            else not (local_only && not (is_local_ref matrix ref))
      ]

  unfoldable pub screen : Bool → Require → List String → Option Breaker → Screened
  screen local_only require [] breaker = record { skipped = []; capable = []; breaker = breaker }
  screen local_only require (ref ∷ ordered) breaker =
      let answer = ask now ref breaker in
      let rest = screen local_only require ordered answer.1 in
      if not answer.0
      then skip ref rest
      else if passes local_only require ref
      then keep ref rest
      else skip ref rest

  -- `rule.strategy or ("pin" if rule.pin else None)`.
  abbrev pub strategy_of : RouteRule → Option Strategy
  strategy_of rule = elim rule.strategy [
    | some strategy ↦ some strategy
    | none ↦ if str_eq rule.pin "" then none else some pin
  ]

  abbrev pub is_pin : Option Strategy → Bool
  is_pin (some pin) = true
  is_pin strategy = false

  abbrev pub or_cheapest : Option Strategy → Strategy
  or_cheapest none = cheapest_capable
  or_cheapest (some strategy) = strategy

  abbrev pub is_given : String → Bool
  is_given ref = not (str_eq ref "")

  abbrev first_given : List String → List String → List String
  first_given [] other = other
  first_given (x ∷ xs) other = x ∷ xs

  -- The references of `extras` that the pool does not have yet, after it.
  unfoldable with_extras : List String → List String → List String
  unfolding contains
  with_extras pool [] = pool
  with_extras pool (extra ∷ extras) =
      with_extras (if contains extra pool then pool else pool ++ extra ∷ []) extras

  unfoldable pub pool_of : RouteRule → RoutingSpec → List String → List String
  unfolding with_extras filter strip
  pool_of rule policy legacy =
      let pool = filter is_given (map strip (first_given rule.pool policy.pool)) in
      elim pool [ [] ↦ with_extras (catalog_refs matrix) legacy | x ∷ xs ↦ x ∷ xs ]

  unfoldable pub ordered_refs : RouteRule → RoutingSpec → List String → List String × String
  unfolding pool_of
  ordered_refs rule policy legacy =
      if is_pin (strategy_of rule) || is_given rule.pin
      then (strip rule.pin ∷ [], concat "pin " (strip rule.pin))
      else rank_pool matrix price (or_cheapest (strategy_of rule)) (pool_of rule policy legacy)

  -- Whether only local models may be chosen.
  abbrev pub stays_local : RouteRule → Request → Bool → Require → Bool
  stays_local rule request locked require =
      let declared = is_local_only (strategy_of rule) || require.local in
      declared
      || (locked || effective_untrusted request.taint && (declared || taint_rule rule.matching))

  abbrev pub local_require : RouteRule → Request → Bool → Require → Require
  local_require rule request locked require =
      let declared = is_local_only (strategy_of rule) || require.local in
      if locked || effective_untrusted request.taint && (declared || taint_rule rule.matching)
      then record require { local = true }
      else require

  -- `assert_capable`.
  abbrev pub is_capable : String → Require → Bool
  is_capable model require = elim (lookup_model matrix model) [
    | none ↦ false
    | some caps ↦ supports require caps
  ]

  abbrev pub decision_for :
      RouteRule
      → ℕ
      → Request
      → Bool
      → Require
      → String
      → List String
      → String
      → List String
      → RouteDecision
  decision_for rule index request local_only require reason skipped model others = record {
    model = model;
    policy = true;
    reason = reason;
    strategy = strategy_of rule;
    rule_id = rule.id;
    rule_index = some index;
    pin = rule.pin;
    fallback = false;
    skipped = skipped;
    candidates = model ∷ others;
    require = require;
    taint = request.taint;
    local_only = local_only;
  }

  abbrev pub decide : RouteRule → ℕ → Request → Bool → Require → String → Screened → Result
  decide rule index request local_only require reason s = elim s.capable [
    | [] ↦ failed (unsatisfiable index (strategy_of rule) request.taint s.skipped)
    | model ∷ others ↦
        if is_pin (strategy_of rule) && not (is_capable model require)
        then failed (unsupported model)
        else if is_pin (strategy_of rule) && local_only && is_hosted_ref matrix model
        then failed (hosted_pin model)
        else chosen
            (decision_for rule index request local_only require reason s.skipped model others)
  ]

  unfoldable pub resolve_rule :
      RouteRule → ℕ → Node → RoutingSpec → Request → Bool → Option Breaker → Result × Option Breaker
  unfolding merged_require ordered_refs
  resolve_rule rule index node policy request locked breaker =
      let merged = merged_require rule request.tools request.structured request.streaming in
      let local_only = stays_local rule request locked merged in
      let require = local_require rule request locked merged in
      let ordered = ordered_refs rule policy request.legacy in
      let screened = screen local_only require ordered.0 breaker in
      (decide rule index request local_only require ordered.1 screened, screened.breaker)
