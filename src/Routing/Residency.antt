-- ===== src/Routing/Residency.antt =====
-- Where the data of a call may go.
use readyagents_core.Common.{
  ℕ, suc, ◌≡◌, refl, subst, String, true, false, not, Option, none, some, List, [], ◌∷◌, All, ◌⊎◌,
  inl, inr, if_cases, option_cases, list_cases, arith,
}
use readyagents_core.Resilience.Breaker.{Breaker}
use readyagents_core.Routing.Capabilities.{Require, CapabilityMatrix, is_local_ref, is_hosted_ref}
use readyagents_core.Routing.Rules.{
  Taint, RouteRule, RoutingSpec, Node, merged_require, rule_matches, effective_untrusted, locks,
  residency_locked,
}
use readyagents_core.Routing.Choice.{
  RouteDecision, Result, failed, chosen, Request, passes, screen, is_capable, resolve_rule,
  stays_local, local_require, ordered_refs,
}
use readyagents_core.Routing.Matching.{FirstMatch, here, later, Matches, rule_matches-Matches}
use readyagents_core.Routing.Route.{
  legacy_models, legacy_decision, or_text, Workflow, distill_pin, first_rule, by_rules,
  select_route,
}
use readyagents_core.Routing.Screening.{passes-parts, capable-passes, decide-rule}

module _ (now : ℕ) (matrix : CapabilityMatrix) (price : String → ℕ) where
  -- A reference that is local, and in the matrix with what is required.
  pub record Fits (require : Require) (ref : String) : Type 0 where
    pub is_local : is_local_ref matrix ref ≡ true
    pub capable : is_capable now matrix price ref require ≡ true

  -- What a rule decides for locked data: it fails, or each of its candidates fits.
  abbrev Ruled : RouteRule → Result → Type 0
  Ruled rule (failed reason) = Unit
  Ruled rule (chosen d) =
      (d.rule_id ≡ rule.id)
      × (d.policy ≡ true)
      × (d.local_only ≡ true)
      × (d.require.local ≡ true)
      × All (Fits d.require) d.candidates

  -- The first rule that matches decides so; the decision is another one only when no rule matches.
  abbrev pub KeepsLocal : List RouteRule → Node → Taint → RouteDecision → Result → Type 0
  KeepsLocal rules node taint otherwise result =
      ((rule : RouteRule) × FirstMatch node taint rule rules × Ruled rule result)
      ⊎ (All (λ rule. ¬ Matches node taint rule.matching) rules × (result ≡ chosen otherwise))

  passes-Fits :
      (require : Require) (ref : String)
      → passes now matrix price true require ref ≡ true
      → Fits require ref
  unfolding is_hosted_ref
  passes-Fits require ref it_passes =
      let parts = passes-parts now matrix price true require ref it_passes in
      record { is_local = ground (arith, parts); capable = parts.1 }

  passes-All :
      (require : Require) (refs : List String)
      → All (λ ref. passes now matrix price true require ref ≡ true) refs
      → All (Fits require) refs
  passes-All require [] all = tt
  passes-All require (ref ∷ refs) all =
      (passes-Fits require ref all.0, passes-All require refs all.1)

  locked_local :
      (rule : RouteRule) (request : Request) (require : Require)
      → stays_local now matrix price rule request true require ≡ true
  locked_local rule request require = ground arith

  resolve_rule-Ruled :
      (rule : RouteRule) (index : ℕ) (node : Node) (policy : RoutingSpec) (request : Request)
      (breaker : Option Breaker)
      → Ruled rule (resolve_rule now matrix price rule index node policy request true breaker).0
  unfolding resolve_rule
  resolve_rule-Ruled rule index node policy request breaker =
      let merged = merged_require rule request.tools request.structured request.streaming in
      let local_only = stays_local now matrix price rule request true merged in
      let require = local_require now matrix price rule request true merged in
      let ordered = (ordered_refs now matrix price rule policy request.legacy).0 in
      let s = screen now matrix price local_only require ordered breaker in
      let is_locked = locked_local rule request merged in
      decide-rule now matrix price rule index request local_only require (Ruled rule) _ s
        (capable-passes now matrix price local_only require ordered breaker) (λ _. tt)
        (λ model others found. (
          refl,
          refl,
          is_locked,
          refl,
          passes-All require (model ∷ others) (
              subst
                (λ b. All (λ ref. passes now matrix price b require ref ≡ true) (model ∷ others))
                is_locked
                (subst
                  (λ refs. All (λ ref. passes now matrix price local_only require ref ≡ true) refs)
                  found (capable-passes now matrix price local_only require ordered breaker))),
        ))

  abbrev AnswerKeeps : List RouteRule → Node → Taint → Option (Result × Option Breaker) → Type 0
  AnswerKeeps rules node taint none = All (λ rule. ¬ Matches node taint rule.matching) rules
  AnswerKeeps rules node taint (some answer) =
      (rule : RouteRule) × FirstMatch node taint rule rules × Ruled rule answer.0

  one_later :
      (rule : RouteRule) (rules : List RouteRule) (node : Node) (taint : Taint)
      (answer : Option (Result × Option Breaker))
      → ¬ Matches node taint rule.matching
      → AnswerKeeps rules node taint answer
      → AnswerKeeps (rule ∷ rules) node taint answer
  one_later rule rules node taint none other rest = (other, rest)
  one_later rule rules node taint (some answer) other rest = (rest.0, later other rest.1, rest.2)

  first_rule-AnswerKeeps :
      (rules : List RouteRule) (index : ℕ) (node : Node) (policy : RoutingSpec) (request : Request)
      (breaker : Option Breaker)
      → residency_locked policy request.taint ≡ true
      → AnswerKeeps rules node request.taint
          (first_rule now matrix price rules index node policy request breaker)
  unfolding first_rule
  first_rule-AnswerKeeps [] index node policy request breaker is_locked = tt
  first_rule-AnswerKeeps (rule ∷ rules) index node policy request breaker is_locked =
      let test = rule_matches-Matches rule node request.taint in
      if_cases (AnswerKeeps (rule ∷ rules) node request.taint)
        (not (rule_matches rule node request.taint))
        (λ no.
          one_later rule rules node request.taint _
            (λ it_matches. ground (arith, no, test.1 it_matches))
            (first_rule-AnswerKeeps rules (suc index) node policy request breaker is_locked))
        (λ yes. rw is_locked (
          rule,
          here (test.0 (ground (arith, yes))),
          resolve_rule-Ruled rule index node policy request breaker,
        ))

  no_lock : {A : Type 0} {rules : List RouteRule} → rules ≡ [] → locks rules ≡ true → A
  unfolding locks
  no_lock empty some_lock =
      let bad : false ≡ true = subst (λ rs. locks rs ≡ true) empty some_lock in absurd (cc)

  locked_rules :
      (policy : RoutingSpec) (request : Request)
      → effective_untrusted request.taint ≡ true
      → locks policy.rules ≡ true
      → residency_locked policy request.taint ≡ true
  unfolding residency_locked
  locked_rules policy request bad some_lock = rw bad some_lock

  by_rules-KeepsLocal :
      (policy : RoutingSpec) (node : Node) (request : Request) (default_model : String)
      (breaker : Option Breaker)
      → effective_untrusted request.taint ≡ true
      → locks policy.rules ≡ true
      → KeepsLocal policy.rules node request.taint
          (legacy_decision request.legacy default_model "no_matching_rule" request.taint)
          (by_rules now matrix price (some policy) node request default_model breaker).0
  unfolding by_rules
  by_rules-KeepsLocal policy node request default_model breaker bad some_lock =
      let otherwise =
        legacy_decision request.legacy default_model "no_matching_rule" request.taint in
      let Right : Result × Option Breaker → Type 0 =
        λ x. KeepsLocal policy.rules node request.taint otherwise x.0 in
      let decided =
        first_rule-AnswerKeeps policy.rules 0 node policy request breaker
          (locked_rules policy request bad some_lock) in
      list_cases Right policy.rules (λ empty. no_lock empty some_lock)
        (λ rule rules found.
          option_cases Right
            (first_rule now matrix price policy.rules 0 node policy request breaker)
            (λ miss. inr (subst (AnswerKeeps policy.rules node request.taint) miss decided, refl))
            (λ answer hit. inl (subst (AnswerKeeps policy.rules node request.taint) hit decided)))

  -- No adapter is pinned. When the data is not trusted and some rule of the policy speaks of untrusted data or of local models
  -- only, then the first rule that matches the node, whichever it is, fails or decides for candidates of which each is
  -- local, in the matrix and able to do what is required. Only when no rule of the policy matches is the decision
  -- the one without a rule, with the candidates as they were.
  pub select_route-KeepsLocal :
      (policy : RoutingSpec) (workflow : Workflow) (node : Node) (primary : String)
      (request : Request) (breaker : Option Breaker)
      → workflow.routing ≡ some policy
      → effective_untrusted request.taint ≡ true
      → locks policy.rules ≡ true
      → let default_model = or_text primary (or_text node.model workflow.default_model) in
        let legacy = legacy_models default_model workflow node request.legacy in
        KeepsLocal policy.rules node request.taint
          (legacy_decision legacy default_model "no_matching_rule" request.taint)
          (select_route now matrix price none workflow node primary request breaker).0
  unfolding select_route distill_pin
  select_route-KeepsLocal policy workflow node primary request breaker routed bad some_lock =
      rw routed
        (by_rules-KeepsLocal policy node (record request { legacy = _ }) _ breaker bad some_lock)
