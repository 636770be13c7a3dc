-- ===== src/Engine/Resume.antt =====
-- `_is_fresh_start` and `_resume_cursor`: where a stored run goes on.
use readyagents_core.Common.{
  String, Bool, true, false, ◌&&◌, ◌||◌, Option, none, some, List, [], ◌∷◌, if◌then◌else◌, str_eq,
  filter, remove, contains, not,
}
use readyagents_core.Engine.State.{
  Status, succeeded, running, queued, ok, error, NodeResult, Pending, RunState,
}
use readyagents_core.Engine.Graph.{
  WorkflowSpec, given, find_node, Routed, goes, raises, Verdict, next_node,
}

abbrev pub is_ok : NodeResult → Bool
is_ok r = elim r.status [ ok ↦ true | _ ↦ false ]

abbrev pub is_error : NodeResult → Bool
is_error r = elim r.status [ error ↦ true | _ ↦ false ]

abbrev pub may_start : Status → Bool
may_start queued = true
may_start running = true
may_start _ = false

abbrev pub no_results : List NodeResult → Bool
no_results [] = true
no_results (r ∷ rs) = false

abbrev pub is_missing : Option String → Bool
is_missing o = elim (given o) [ none ↦ true | some s ↦ false ]

unfoldable pub is_fresh_start : RunState → Bool
unfolding given
is_fresh_start s = may_start s.status && no_results s.results && is_missing s.pending_node

-- The nodes with a result that is `ok`.
unfoldable pub completed : List NodeResult → List String
completed [] = []
completed (r ∷ rs) = let rest = completed rs in if is_ok r then r.node_id ∷ rest else rest

-- `next(r for r in reversed(results) if test(r))`.
unfoldable pub last_such : (NodeResult → Bool) → List NodeResult → Option NodeResult
last_such test [] = none
last_such test (r ∷ rs) = elim (last_such test rs) [
  | some found ↦ some found
  | none ↦ if test r then some r else none
]

-- A stop that waits for a decision, an event or a reply is handed on to its node.
abbrev keeps_pending : String → Bool
keeps_pending t = str_eq t "approval" || str_eq t "wait" || str_eq t "converse"

preserved : String → Option Pending → Option Pending
preserved current none = none
preserved current (some p) = elim p.node_id [
  | none ↦ none
  | some id ↦ if keeps_pending p.type && str_eq id current then some p else none
]

-- The run goes on at a node: its errors are forgotten, and its output unless it completed.
unfoldable pub reopen : String → List String → RunState → RunState
unfolding filter remove contains preserved
reopen current done s = record s {
  results = filter (λ r. not (str_eq r.node_id current && is_error r)) s.results;
  node_outputs = if contains current done then s.node_outputs else remove current s.node_outputs;
  pending_node = none;
  pending = preserved current s.pending;
  status = running;
  finished = false;
}

unfoldable pub reopen_nowhere : RunState → RunState
reopen_nowhere s = record s {
  pending_node = none;
  pending = none;
  status = running;
  finished = false;
}

-- A refusal to resume, an error of a condition, or the node to go on at with the nodes counted as seen.
pub data Cursor : Type 0 where
  already_succeeded : Cursor
  route_error : String → Cursor
  cursor : Option String → List String → RunState → Cursor

-- The cursor at a node, or nowhere.
abbrev pub place : Option String → RunState → Cursor
place none s = cursor none (completed s.results) (reopen_nowhere s)
place (some current) s =
    cursor (some current) (completed s.results) (reopen current (completed s.results) s)

module _ (evaluate : String → RunState → Verdict) where
  abbrev pub routed_place : Routed × RunState → Cursor
  routed_place (goes next, s) = place (given next) s
  routed_place (raises message, s) = route_error message

  -- Without a pending node or an error: the successor of the last completed node.
  unfoldable pub after_last_ok : WorkflowSpec → RunState → Cursor
  unfolding last_such find_node next_node given
  after_last_ok w s = elim (last_such is_ok s.results) [
    | none ↦ place none s
    | some r ↦ elim (find_node r.node_id w.nodes) [
      | none ↦ place none s
      | some n ↦ routed_place (next_node evaluate w n s)
    ]
  ]

  unfoldable pub last_error_node : RunState → Option String
  last_error_node s = elim (last_such is_error s.results) [
    | none ↦ none
    | some r ↦ given (some r.node_id)
  ]

  abbrev pub find_place : WorkflowSpec → RunState → Cursor
  find_place w s = elim (given s.pending_node) [
    | some current ↦ place (some current) s
    | none ↦ elim (last_error_node s) [
      | some current ↦ place (some current) s
      | none ↦ after_last_ok w s
    ]
  ]

  abbrev pub cursor_of : Status → WorkflowSpec → RunState → Cursor
  cursor_of succeeded w s = already_succeeded
  cursor_of _ w s = find_place w s

  unfoldable pub resume_cursor : WorkflowSpec → RunState → Cursor
  resume_cursor w s = cursor_of s.status w s
