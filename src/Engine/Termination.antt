-- ===== src/Engine/Termination.antt =====
-- The loop of `run_workflow` against the step limit and the model's fuel.
use readyagents_core.Common.{
  ℕ, zero, suc, ◌+◌, ◌≤◌, ◌≡◌, refl, String, Option, none, some, List, [], ◌∷◌, arith, if_cases,
  Dict,
}
use readyagents_core.Engine.State.{RunState}
use readyagents_core.Engine.Graph.{WorkflowSpec, given}
use readyagents_core.Engine.Run.{
  Context, Run, Ending, out_of_fuel, is_requested, run_loop, succeed, execute_from, start_run,
  continue_run, first_node, max_steps,
}
use readyagents_core.Engine.Rules.{visit-rule, execute_from-rule, continue_run-rule}

abbrev pub Ends : Ending × Run → Type 0
Ends x = ¬ (x.0 ≡ out_of_fuel)

module _ (ctx : Context) (w : WorkflowSpec) where
  succeed-Ends : (r : Run) → Ends (succeed ctx w r)
  unfolding succeed
  succeed-Ends r = if_cases Ends (is_requested ctx w r) (λ _. cc) (λ _. cc)

  run_loop-Ends :
      (fuel steps : ℕ) (current : Option String) (seen : List String) (r : Run)
      → steps ≤ max_steps
      → fuel + steps ≡ max_steps + 2
      → Ends (run_loop ctx w fuel steps current seen r)
  unfolding run_loop
  run_loop-Ends zero steps current seen r h f = omega arith
  run_loop-Ends (suc fuel) steps none seen r h f = succeed-Ends r
  run_loop-Ends (suc fuel) steps (some current) seen r h f =
      visit-rule ctx w Ends (λ next r'. run_loop ctx w fuel (steps + 1) next (current ∷ seen) r')
        (steps + 1) current seen r (λ e r' _. cc) (λ _ e r' _. cc)
        λ within _ next r' _.
          run_loop-Ends fuel (steps + 1) next (current ∷ seen) r' within (omega arith)

  execute_from-Ends :
      (current : Option String) (seen : List String) (s : RunState)
      → Ends (execute_from ctx w current seen s)
  execute_from-Ends current seen s =
      execute_from-rule ctx w Ends current seen s (cc)
        (run_loop-Ends (max_steps + 2) 0 current seen _ (omega arith) refl)

  -- A new run ends, whatever the nodes' bodies and the conditions do and whenever the run is cancelled:
  -- the model's fuel is enough.
  pub start_run_ends :
      (run_id : String) (inputs metadata : Dict String)
      → ¬ ((start_run ctx w run_id inputs metadata).0 ≡ out_of_fuel)
  unfolding start_run
  start_run_ends run_id inputs metadata = execute_from-Ends (given (first_node ctx w)) [] _

  -- So does a run that goes on from any stored state, with any inputs and metadata added.
  pub continue_run_ends :
      (inputs metadata : Dict String) (s : RunState)
      → ¬ ((continue_run ctx w inputs metadata s).0 ≡ out_of_fuel)
  continue_run_ends inputs metadata s =
      continue_run-rule ctx w Ends inputs metadata s (λ reason. cc)
        (λ current seen s' _. execute_from-Ends current seen s')
