-- ===== src/Engine/Seen.antt =====
-- What `_resume_cursor` counts as seen.
use readyagents_core.Common.{
  arith, ◌≡◌, refl, String, true, Option, none, some, List, [], ◌∷◌, option_cases,
}
use readyagents_core.Engine.State.{Status, succeeded, RunState, NodeResult}
use readyagents_core.Engine.Graph.{
  WorkflowSpec, given, find_node, Verdict, next_node, Routed, goes, raises,
}
use readyagents_core.Engine.Resume.{
  completed, Cursor, cursor, resume_cursor, place, routed_place, after_last_ok, last_such, is_ok,
  last_error_node, find_place, cursor_of, is_fresh_start, no_results,
}

abbrev pub Sees : List String → Cursor → Type 0
Sees done (cursor current seen s) = seen ≡ done
Sees done _ = Unit

place-Sees : (current : Option String) (s : RunState) → Sees (completed s.results) (place current s)
place-Sees none s = refl
place-Sees (some current) s = refl

module _ (evaluate : String → RunState → Verdict) (w : WorkflowSpec) where
  routed_place-Sees :
      (routed : Routed × RunState)
      → Sees (completed routed.1.results) (routed_place evaluate routed)
  routed_place-Sees (goes next, s) = place-Sees (given next) s
  routed_place-Sees (raises message, s) = tt

  after_last_ok-Sees : (s : RunState) → Sees (completed s.results) (after_last_ok evaluate w s)
  unfolding after_last_ok next_node
  after_last_ok-Sees s =
      option_cases (Sees (completed s.results)) (last_such is_ok s.results) (λ _. refl)
        λ r _.
          option_cases (Sees (completed s.results)) (find_node r.node_id w.nodes) (λ _. refl)
            (λ n _. routed_place-Sees (next_node evaluate w n s))

  find_place-Sees : (s : RunState) → Sees (completed s.results) (find_place evaluate w s)
  find_place-Sees s =
      option_cases (Sees (completed s.results)) (given s.pending_node)
        (λ _.
          option_cases (Sees (completed s.results)) (last_error_node evaluate s)
            (λ _. after_last_ok-Sees s) (λ current _. refl))
        (λ current _. refl)

  cursor_of-Sees :
      (status : Status) (s : RunState) → Sees (completed s.results) (cursor_of evaluate status w s)
  cursor_of-Sees succeeded s = tt
  cursor_of-Sees _ s = find_place-Sees s

  pub resume_cursor-Sees : (s : RunState) → Sees (completed s.results) (resume_cursor evaluate w s)
  unfolding resume_cursor
  resume_cursor-Sees s = cursor_of-Sees s.status s

pub no_results-completed : (rs : List NodeResult) → no_results rs ≡ true → completed rs ≡ []
unfolding completed
no_results-completed [] h = refl
no_results-completed (r ∷ rs) h = cc

pub is_fresh_start-completed : (s : RunState) → is_fresh_start s ≡ true → completed s.results ≡ []
unfolding is_fresh_start
is_fresh_start-completed s h = no_results-completed s.results (ground arith)
