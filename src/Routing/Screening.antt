-- ===== src/Routing/Screening.antt =====
-- The candidates that a rule keeps.
use readyagents_core.Common.{
  ℕ, ◌≡◌, refl, sym, ◌∙◌, ap, String, Bool, true, false, not, ◌&&◌, Option, none, List, [], ◌∷◌,
  filter, All, if_cases, option_cases, list_cases, subst, Bool-cases, inl, inr, arith,
}
use readyagents_core.Resilience.Breaker.{Breaker}
use readyagents_core.Routing.Capabilities.{
  Require, CapabilityMatrix, supports, lookup_model, is_hosted_ref,
}
use readyagents_core.Routing.Rules.{RouteRule, RoutingSpec, Node, merged_require}
use readyagents_core.Routing.Choice.{
  Result, failed, chosen, unsatisfiable, Request, Screened, ask, passes, screen, is_pin,
  strategy_of, is_capable, decision_for, decide, resolve_rule, stays_local, local_require,
  ordered_refs,
}

module _ (now : ℕ) (matrix : CapabilityMatrix) (price : String → ℕ) where
  -- What every reference of the list has, every candidate has.
  pub capable-All :
      (P : String → Type 0) (local_only : Bool) (require : Require) (ordered : List String)
      (breaker : Option Breaker)
      → All P ordered
      → All P (screen now matrix price local_only require ordered breaker).capable
  unfolding screen
  capable-All P local_only require [] breaker all = all
  capable-All P local_only require (ref ∷ ordered) breaker all =
      let rest = capable-All P local_only require ordered (ask now ref breaker).1 all.1 in
      if_cases (λ (s : Screened). All P s.capable) (not (ask now ref breaker).0) (λ _. rest)
        (λ _.
          if_cases (λ (s : Screened). All P s.capable)
            (passes now matrix price local_only require ref) (λ _. (all.0, rest)) (λ _. rest))

  -- Every candidate passes.
  pub capable-passes :
      (local_only : Bool) (require : Require) (ordered : List String) (breaker : Option Breaker)
      → All
          (λ ref. passes now matrix price local_only require ref ≡ true)
          (screen now matrix price local_only require ordered breaker).capable
  unfolding screen
  capable-passes local_only require [] breaker = tt
  capable-passes local_only require (ref ∷ ordered) breaker =
      let Passing : Screened → Type 0 =
        λ s. All (λ ref'. passes now matrix price local_only require ref' ≡ true) s.capable in
      let rest = capable-passes local_only require ordered (ask now ref breaker).1 in
      if_cases Passing (not (ask now ref breaker).0) (λ _. rest)
        (λ _.
          if_cases Passing (passes now matrix price local_only require ref)
            (λ it_passes. (it_passes, rest)) (λ _. rest))

  -- Without a breaker the candidates are those that pass.
  pub capable-filter :
      (local_only : Bool) (require : Require) (ordered : List String)
      → (screen now matrix price local_only require ordered none).capable
        ≡ filter (passes now matrix price local_only require) ordered
  unfolding screen filter
  capable-filter local_only require [] = refl
  capable-filter local_only require (ref ∷ ordered) =
      let rest = capable-filter local_only require ordered in
      elim (Bool-cases (passes now matrix price local_only require ref)) [
        | inl kept ↦ rw kept (ap (λ refs. ref ∷ refs) rest)
        | inr refused ↦ rw refused rest
      ]

  -- What passes is not hosted where only local models are wanted, and can do what is required.
  pub passes-parts :
      (local_only : Bool) (require : Require) (ref : String)
      → passes now matrix price local_only require ref ≡ true
      → ((local_only && is_hosted_ref matrix ref) ≡ false)
        × (is_capable now matrix price ref require ≡ true)
  unfolding passes
  passes-parts local_only require ref =
      let Parts : Type 0 =
        ((local_only && is_hosted_ref matrix ref) ≡ false)
        × (is_capable now matrix price ref require ≡ true) in
      let P : Bool → Type 0 = λ b. b ≡ true → Parts in
      if_cases P (local_only && is_hosted_ref matrix ref) (λ _ h. absurd (cc))
        λ not_hosted.
          option_cases P (lookup_model matrix ref) (λ _ h. absurd (cc))
            λ caps known.
              if_cases P (not (supports require caps)) (λ _ h. absurd (cc))
                (λ fits _. (not_hosted, rw (known, is_capable) (ground (arith, fits))))

  module _ (rule : RouteRule) (index : ℕ) (request : Request) (local_only : Bool)
      (require : Require) where
    -- A rule has no candidate and fails, or takes the first: the checks of a pin do not refuse it.
    pub decide-rule :
        (P : Result → Type 0) (reason : String) (s : Screened)
        → All (λ ref. passes now matrix price local_only require ref ≡ true) s.capable
        → (s.capable ≡ []
            → P (
                failed (
                  unsatisfiable index (strategy_of now matrix price rule) request.taint s.skipped)))
        → ((model : String) (others : List String)
            → s.capable ≡ model ∷ others
            → P (
                chosen (
                  decision_for now matrix price rule index request local_only require reason
                    s.skipped model others)))
        → P (decide now matrix price rule index request local_only require reason s)
    decide-rule P reason s all without with_some =
        list_cases P s.capable without λ model others found.
          let parts =
            passes-parts local_only require model
              (subst
                (λ refs. All (λ ref. passes now matrix price local_only require ref ≡ true) refs)
                found all).0 in
          let pinned = is_pin now matrix price (strategy_of now matrix price rule) in
          if_cases P (pinned && not (is_capable now matrix price model require))
            (λ bad. absurd (ground (arith, bad, parts)))
            (λ _.
              if_cases P (pinned && local_only && is_hosted_ref matrix model)
                (λ bad. absurd (ground (arith, bad, parts))) (λ _. with_some model others found))

  -- What a rule comes to, given the references in their order and whether one passes.
  abbrev pub Outcome : RouteRule → ℕ → Request → (String → Bool) → List String → Result → Type 0
  Outcome rule index request passing ordered (failed reason) =
      (skipped : List String) × (reason
        ≡ unsatisfiable index (strategy_of now matrix price rule) request.taint skipped)
      × (filter passing ordered ≡ [])
  Outcome rule index request passing ordered (chosen d) =
      (others : List String) × (d.candidates ≡ d.model ∷ others)
      × (d.candidates ≡ filter passing ordered)

  -- Without a breaker a rule fails exactly when no reference in its order passes, and then as unsatisfiable;
  -- else the candidates are those that pass, in that order, and the model is the first of them.
  pub resolve_rule-Outcome :
      (rule : RouteRule) (index : ℕ) (node : Node) (policy : RoutingSpec) (request : Request)
      (locked : Bool)
      → let require = merged_require rule request.tools request.structured request.streaming in
        let local_only = stays_local now matrix price rule request locked require in
        let passing =
          passes now matrix price local_only
            (local_require now matrix price rule request locked require) in
        Outcome rule index request passing
          (ordered_refs now matrix price rule policy request.legacy).0
          (resolve_rule now matrix price rule index node policy request locked none).0
  unfolding resolve_rule
  resolve_rule-Outcome rule index node policy request locked =
      let merged = merged_require rule request.tools request.structured request.streaming in
      let local_only = stays_local now matrix price rule request locked merged in
      let require = local_require now matrix price rule request locked merged in
      let ordered = (ordered_refs now matrix price rule policy request.legacy).0 in
      let s = screen now matrix price local_only require ordered none in
      let same = capable-filter local_only require ordered in
      decide-rule rule index request local_only require
        (Outcome rule index request (passes now matrix price local_only require) ordered) _ s
        (capable-passes local_only require ordered none)
        (λ nothing. (s.skipped, refl, sym same ∙ nothing))
        (λ model others found. (others, refl, sym found ∙ same))
