-- ===== src/Routing/Cheapest.antt =====
-- The order of the candidates.
use readyagents_core.Common.{
  ℕ, ◌≤◌, subst, String, Bool, not, ◌||◌, Option, List, [], ◌∷◌, All, if_cases, arith,
}
use readyagents_core.Resilience.Breaker.{Breaker}
use readyagents_core.Routing.Capabilities.{Require, CapabilityMatrix}
use readyagents_core.Routing.Rules.{
  RouteRule, RoutingSpec, Node, Strategy, cheapest_capable, fastest, highest_quality, pin,
  merged_require,
}
use readyagents_core.Routing.Ranking.{
  latency_rank, quality_rank, unique_from, comes_before, insert_ref, sort_refs, ranked, rank_pool,
}
use readyagents_core.Routing.Choice.{
  Result, failed, chosen, Request, Screened, ask, passes, screen, is_pin, is_given, or_cheapest,
  strategy_of, pool_of, resolve_rule, stays_local, local_require, ordered_refs,
}
use readyagents_core.Routing.Screening.{capable-All, capable-passes, decide-rule}

-- What a strategy orders by.
abbrev pub rank_by : CapabilityMatrix → (String → ℕ) → Strategy → String → ℕ
rank_by matrix price fastest = latency_rank matrix
rank_by matrix price highest_quality = quality_rank matrix
rank_by matrix price Strategy.local_only = λ ref. 0
rank_by matrix price cheapest_capable = price
rank_by matrix price pin = price

module _ (rank : String → ℕ) where
  abbrev AtMost : String → List String → Type 0
  AtMost a refs = All (λ ref. rank a ≤ rank ref) refs

  abbrev IsOrdered : List String → Type 0
  IsOrdered [] = Unit
  IsOrdered (a ∷ refs) = AtMost a refs × IsOrdered refs

  AtMost-trans :
      (a b : String) (refs : List String) → rank a ≤ rank b → AtMost b refs → AtMost a refs
  AtMost-trans a b [] first all = tt
  AtMost-trans a b (ref ∷ refs) first all =
      (omega (arith, first, all.0), AtMost-trans a b refs first all.1)

  All-insert_ref :
      (before : String → String → Bool) (P : String → Type 0) (a : String) (refs : List String)
      → P a
      → All P refs
      → All P (insert_ref before a refs)
  unfolding insert_ref
  All-insert_ref before P a [] it all = (it, all)
  All-insert_ref before P a (b ∷ refs) it all =
      if_cases (All P) (before b a) (λ _. (all.0, All-insert_ref before P a refs it all.1))
        (λ _. (it, all))

  insert_ref-IsOrdered :
      (unique : List String) (a : String) (refs : List String)
      → IsOrdered refs
      → IsOrdered (insert_ref (comes_before rank unique) a refs)
  unfolding insert_ref comes_before
  insert_ref-IsOrdered unique a [] sorted = (tt, tt)
  insert_ref-IsOrdered unique a (b ∷ refs) sorted =
      if_cases IsOrdered (comes_before rank unique b a)
        (λ earlier. (
          All-insert_ref (comes_before rank unique) (λ ref. rank b ≤ rank ref) a refs
              (ground (arith, earlier)) sorted.0,
          insert_ref-IsOrdered unique a refs sorted.1,
        ))
        (λ later.
          let first : rank a ≤ rank b = ground (arith, later) in
          ((first, AtMost-trans a b refs first sorted.0), sorted))

  ranked-IsOrdered :
      (unique refs : List String) → IsOrdered (sort_refs (comes_before rank unique) refs)
  unfolding sort_refs
  ranked-IsOrdered unique [] = tt
  ranked-IsOrdered unique (a ∷ refs) =
      insert_ref-IsOrdered unique a _ (ranked-IsOrdered unique refs)

  screen-IsOrdered :
      (now : ℕ) (matrix : CapabilityMatrix) (price : String → ℕ) (local_only : Bool)
      (require : Require) (ordered : List String) (breaker : Option Breaker)
      → IsOrdered ordered
      → IsOrdered (screen now matrix price local_only require ordered breaker).capable
  unfolding screen
  screen-IsOrdered now matrix price local_only require [] breaker sorted = tt
  screen-IsOrdered now matrix price local_only require (ref ∷ ordered) breaker sorted =
      let later = (ask now ref breaker).1 in
      let rest = screen-IsOrdered now matrix price local_only require ordered later sorted.1 in
      let P : Screened → Type 0 = λ s. IsOrdered s.capable in
      if_cases P (not (ask now ref breaker).0) (λ _. rest)
        (λ _.
          if_cases P (passes now matrix price local_only require ref)
            (λ _. (
              capable-All now matrix price (λ other. rank ref ≤ rank other) local_only require
                  ordered later sorted.0,
              rest,
            ))
            (λ _. rest))

constant-IsOrdered : (refs : List String) → IsOrdered (λ ref. 0) refs
constant-IsOrdered [] = tt
constant-IsOrdered (a ∷ []) = (tt, tt)
constant-IsOrdered (a ∷ b ∷ refs) =
    let rest = constant-IsOrdered (b ∷ refs) in ((omega arith, rest.0), rest)

module _ (now : ℕ) (matrix : CapabilityMatrix) (price : String → ℕ) where
  rank_pool-IsOrdered :
      (strategy : Strategy) (pool : List String)
      → IsOrdered (rank_by matrix price strategy) (rank_pool matrix price strategy pool).0
  unfolding rank_pool ranked
  rank_pool-IsOrdered fastest pool =
      ranked-IsOrdered (latency_rank matrix) (unique_from [] pool) (unique_from [] pool)
  rank_pool-IsOrdered highest_quality pool =
      ranked-IsOrdered (quality_rank matrix) (unique_from [] pool) (unique_from [] pool)
  rank_pool-IsOrdered Strategy.local_only pool = constant-IsOrdered (unique_from [] pool)
  rank_pool-IsOrdered cheapest_capable pool =
      ranked-IsOrdered price (unique_from [] pool) (unique_from [] pool)
  rank_pool-IsOrdered pin pool = ranked-IsOrdered price (unique_from [] pool) (unique_from [] pool)

  ordered_refs-IsOrdered :
      (rule : RouteRule) (policy : RoutingSpec) (legacy : List String)
      → IsOrdered
          (rank_by matrix price (or_cheapest now matrix price (strategy_of now matrix price rule)))
          (ordered_refs now matrix price rule policy legacy).0
  unfolding ordered_refs
  ordered_refs-IsOrdered rule policy legacy =
      let strategy = or_cheapest now matrix price (strategy_of now matrix price rule) in
      if_cases (λ (x : List String × String). IsOrdered (rank_by matrix price strategy) x.0)
        (is_pin now matrix price (strategy_of now matrix price rule)
          || is_given now matrix price rule.pin)
        (λ _. (tt, tt))
        (λ _. rank_pool-IsOrdered strategy (pool_of now matrix price rule policy legacy))

  abbrev pub IsBest : RouteRule → Result → Type 0
  IsBest rule (failed reason) = Unit
  IsBest rule (chosen d) =
      let rank =
        rank_by matrix price (or_cheapest now matrix price (strategy_of now matrix price rule)) in
      All (λ ref. rank d.model ≤ rank ref) d.candidates

  -- No candidate of a rule's decision ranks before the model that is chosen: by price, by the class of
  -- latency or by that of quality, as the strategy says.
  pub resolve_rule-IsBest :
      (rule : RouteRule) (index : ℕ) (node : Node) (policy : RoutingSpec) (request : Request)
      (locked : Bool) (breaker : Option Breaker)
      → IsBest rule (resolve_rule now matrix price rule index node policy request locked breaker).0
  unfolding resolve_rule
  resolve_rule-IsBest rule index node policy request locked breaker =
      let merged = merged_require rule request.tools request.structured request.streaming in
      let local_only = stays_local now matrix price rule request locked merged in
      let require = local_require now matrix price rule request locked merged in
      let ordered = (ordered_refs now matrix price rule policy request.legacy).0 in
      let rank =
        rank_by matrix price (or_cheapest now matrix price (strategy_of now matrix price rule)) in
      let s = screen now matrix price local_only require ordered breaker in
      decide-rule now matrix price rule index request local_only require (IsBest rule) _ s
        (capable-passes now matrix price local_only require ordered breaker) (λ _. tt)
        (λ model others found.
          let sorted : IsOrdered rank (model ∷ others) = subst (IsOrdered rank) found (
            screen-IsOrdered rank now matrix price local_only require ordered breaker
              (ordered_refs-IsOrdered rule policy request.legacy)) in
          (omega arith, sorted.0))
