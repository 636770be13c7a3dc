-- ===== src/Engine/Graph.antt =====
-- The parts of `WorkflowSpec` and `NodeSpec` that route a run, and `_next_node`.
use readyagents_core.Common.{
  String, Bool, true, false, ◌&&◌, ◌||◌, Option, none, some, List, [], ◌∷◌, if◌then◌else◌, str_eq,
  any, filter, lookup, strip, not,
}
use readyagents_core.Engine.State.{RunState, Output}

pub record NodeSpec : Type 0 where
  pub id : String
  pub type : String
  pub next : Option String
  pub then_ : Option String
  pub else_ : Option String
  -- `routes or route_on`.
  pub has_routes : Bool
  pub output_key : Option String

pub record EdgeSpec : Type 0 where
  pub source : String
  pub to : String
  pub when : Option String

pub record WorkflowSpec : Type 0 where
  pub name : String
  pub nodes : List NodeSpec
  pub edges : List EdgeSpec
  pub start : Option String

-- A Python text that may be missing counts as given when it is neither `None` nor "".
unfoldable pub given : Option String → Option String
given none = none
given (some s) = if str_eq s "" then none else some s

abbrev pub is_given : Option String → Bool
is_given o = elim (given o) [ none ↦ false | some s ↦ true ]

-- `node_map().get(id)`: of two nodes with one id the later stands.
unfoldable pub find_node : String → List NodeSpec → Option NodeSpec
find_node id [] = none
find_node id (n ∷ ns) = elim (find_node id ns) [
  | some m ↦ some m
  | none ↦ if str_eq n.id id then some n else none
]

-- The id after the first place of this id in the list.
unfoldable pub successor : String → List NodeSpec → Option String
successor id [] = none
successor id (n ∷ []) = none
successor id (n ∷ m ∷ ns) = if str_eq n.id id then some m.id else successor id (m ∷ ns)

abbrev routes_explicitly : NodeSpec → Bool
routes_explicitly n =
    is_given n.next
    || is_given n.then_
    || is_given n.else_
    || str_eq n.type "decide" && n.has_routes

abbrev is_empty {ℓ} : {A : Type ℓ} → List A → Bool
is_empty [] = true
is_empty (x ∷ xs) = false

unfoldable pub uses_explicit_routing : WorkflowSpec → Bool
unfolding any given
uses_explicit_routing w = not (is_empty w.edges) || any routes_explicitly w.nodes

-- The types whose output names the next node.
abbrev pub chooses : String → Bool
chooses t = str_eq t "condition" || str_eq t "approval" || str_eq t "wait" || str_eq t "decide"

-- What `_next_node` comes to: an id or the end of the run, or an error of a condition.
pub data Routed : Type 0 where
  goes : Option String → Routed
  raises : String → Routed

-- A condition on an edge holds, does not hold, or raises.
pub data Verdict : Type 0 where
  holds fails_to : Verdict
  condition_error : String → Verdict

abbrev output_next : Option Output → Option String
output_next none = none
output_next (some o) = o.next

-- `evaluate` is the condition language of workflow/conditions.py over `state.mapping()`.
module _ (evaluate : String → RunState → Verdict) where
  -- The first edge whose condition holds; the last edge with none is the default.
  unfoldable pub choose_edge : List EdgeSpec → Option String → RunState → Routed
  choose_edge [] default s = goes default
  choose_edge (e ∷ es) default s = elim e.when [
    | none ↦ choose_edge es (some e.to) s
    | some expr ↦ elim (evaluate expr s) [
      | holds ↦ goes (some e.to)
      | fails_to ↦ choose_edge es default s
      | condition_error message ↦ raises message
    ]
  ]

  in_order : WorkflowSpec → NodeSpec → Option String
  in_order w n = elim (given n.next) [
    | some id ↦ some id
    | none ↦ if uses_explicit_routing w then none else successor n.id w.nodes
  ]

  by_edges : WorkflowSpec → NodeSpec → List EdgeSpec → RunState → Routed
  by_edges w n [] s = goes (in_order w n)
  by_edges w n (e ∷ es) s = choose_edge (e ∷ es) none s

  unfoldable pub route : WorkflowSpec → NodeSpec → RunState → Routed
  unfolding by_edges in_order filter
  route w n s =
      if chooses n.type
      then goes (output_next (lookup n.id s.node_outputs))
      else by_edges w n (filter (λ e. str_eq e.source n.id) w.edges) s

  -- A quarantine's next node comes before all else, and is popped from the metadata.
  quarantine_target : RunState → Option String
  quarantine_target s = elim s.quarantine_next [ none ↦ none | some id ↦ given (some (strip id)) ]

  unfoldable pub next_node : WorkflowSpec → NodeSpec → RunState → Routed × RunState
  unfolding quarantine_target
  next_node w n s =
      let s' : RunState = record s { quarantine_next = none } in
      (elim (quarantine_target s) [ some id ↦ goes (some id) | none ↦ route w n s' ], s')
