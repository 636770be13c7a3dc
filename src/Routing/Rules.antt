-- ===== src/Routing/Rules.antt =====
-- The rules of a routing policy, as the schema leaves them: a text that is missing is the empty one. Which
-- rule a node matches, and what it requires of a model.
use readyagents_core.Common.{
  String, Bool, true, false, ◌&&◌, ◌||◌, not, Option, none, some, List, [], ◌∷◌, str_eq, contains,
}
use readyagents_core.Routing.Capabilities.{Require, no_require}

pub data Taint : Type 0 where
  trusted : Taint
  untrusted : Taint
  indeterminate : Taint

pub data Strategy : Type 0 where
  cheapest_capable : Strategy
  fastest : Strategy
  highest_quality : Strategy
  local_only : Strategy
  pin : Strategy

-- `taint` is set to `trusted` or `untrusted`, or not at all.
pub record RouteMatch : Type 0 where
  pub node : String
  pub node_tag : String
  pub role : String
  pub taint : Option Bool

pub record RouteRule : Type 0 where
  pub id : String
  pub matching : Option RouteMatch
  pub strategy : Option Strategy
  pub pin : String
  pub require : Option Require
  pub pool : List String

pub record RoutingSpec : Type 0 where
  pub rules : List RouteRule
  pub pool : List String

pub record Node : Type 0 where
  pub id : String
  pub tags : List String
  pub role : String
  pub model : String
  pub fallback_models : List String

-- `taint_blocks_hosted`.
unfoldable pub effective_untrusted : Taint → Bool
effective_untrusted trusted = false
effective_untrusted untrusted = true
effective_untrusted indeterminate = true

-- A field that is empty puts no condition.
abbrev wants : String → Bool → Bool
wants field is_met = str_eq field "" || is_met

-- `some true` is a match of untrusted data.
abbrev pub wants_taint : Option Bool → Taint → Bool
wants_taint none taint = true
wants_taint (some true) taint = effective_untrusted taint
wants_taint (some false) taint = not (effective_untrusted taint)

unfoldable pub rule_matches : RouteRule → Node → Taint → Bool
unfolding effective_untrusted contains
rule_matches rule node taint = elim rule.matching [
  | none ↦ true
  | some m ↦
      wants m.node (str_eq m.node node.id)
      && wants m.node_tag (contains m.node_tag node.tags)
      && wants m.role (str_eq m.role node.role)
      && wants_taint m.taint taint
]

abbrev pub is_local_only : Option Strategy → Bool
is_local_only (some local_only) = true
is_local_only strategy = false

-- A rule that matches untrusted data.
abbrev pub taint_rule : Option RouteMatch → Bool
taint_rule none = false
taint_rule (some m) = elim m.taint [ none ↦ false | some is_untrusted ↦ is_untrusted ]

unfoldable pub locks : List RouteRule → Bool
locks [] = false
locks (rule ∷ rules) = is_local_only rule.strategy || taint_rule rule.matching || locks rules

unfoldable pub residency_locked : RoutingSpec → Taint → Bool
unfolding effective_untrusted locks
residency_locked policy taint = effective_untrusted taint && locks policy.rules

abbrev required : Option Require → Require
required none = no_require
required (some require) = require

-- Streaming is required when the rule says so, whether the call streams or not.
unfoldable pub merged_require : RouteRule → Bool → Bool → Bool → Require
merged_require rule tools structured streaming =
    let declared = required rule.require in
    record declared {
      tool_calling = tools || declared.tool_calling;
      structured_output = structured || declared.structured_output;
      streaming = streaming && declared.streaming || declared.streaming;
    }
