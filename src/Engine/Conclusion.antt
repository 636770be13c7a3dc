-- ===== src/Engine/Conclusion.antt =====
-- The status that a run is left with, by how it ended, and that this is what was saved.
use readyagents_core.Common.{
  ℕ, zero, suc, ◌+◌, ◌≡◌, refl, String, Bool, true, false, Option, none, some, List, [], ◌∷◌, ◌++◌,
  if_cases, Dict,
}
use readyagents_core.Engine.State.{
  Status, cancelled, succeeded, failed, paused, waiting, start_state, RunState, finish, is_terminal,
}
use readyagents_core.Engine.Graph.{WorkflowSpec, given}
use readyagents_core.Engine.Run.{
  Context, Run, Ending, returned, raised, refused, out_of_fuel, Raise, cancellation, approval,
  converse, parked, denied, error, interrupt, crash, throw, handle, finalize_unless,
  finalize_cancelled, fail_run, settle, persist, is_requested, read_token, run_loop, succeed,
  execute_from, start_run, continue_run, first_node, max_steps,
}
use readyagents_core.Engine.Rules.{visit-rule, execute_from-rule, continue_run-rule}

-- The run has this status, and its state is the last one saved.
pub record IsSavedAs (status : Status) (s : RunState) (saved : List RunState) : Type 0 where
  pub has : s.status ≡ status
  pub before : List RunState
  pub last : saved ≡ before ++ s ∷ []

-- The status that belongs to an end. A cancelled run may have been saved as such before; a crash and a
-- refusal leave the state as it was.
abbrev pub Concludes : Ending → Run → Type 0
Concludes returned r = IsSavedAs succeeded r.state r.saved
Concludes (raised cancellation) r = r.state.status ≡ cancelled
Concludes (raised (approval node prompt pause)) r = IsSavedAs paused r.state r.saved
Concludes (raised (converse node say pause)) r = IsSavedAs paused r.state r.saved
Concludes (raised (parked node pending)) r = IsSavedAs waiting r.state r.saved
Concludes (raised (denied message)) r = IsSavedAs failed r.state r.saved
Concludes (raised (error message)) r = IsSavedAs failed r.state r.saved
Concludes (raised interrupt) r = IsSavedAs cancelled r.state r.saved
Concludes (raised crash) r = Unit
Concludes (refused reason) r = Unit
Concludes out_of_fuel r = Unit

abbrev pub IsConcluded : Ending × Run → Type 0
IsConcluded x = Concludes x.0 x.1

module _ (ctx : Context) (w : WorkflowSpec) where
  settle-final :
      (requested : Bool) (s : RunState) → is_terminal s.status ≡ true → settle ctx w requested s ≡ s
  unfolding settle
  settle-final false s h = refl
  settle-final true s h = rw h

  persist-IsSavedAs :
      (status : Status) (r : Run)
      → r.state.status ≡ status
      → is_terminal status ≡ true
      → IsSavedAs status (persist ctx w r).state (persist ctx w r).saved
  unfolding persist
  persist-IsSavedAs status r h t = record {
    has = rw (settle-final (is_requested ctx w r) r.state (rw h t)) h;
    before = r.saved;
    last = refl;
  }

  finalize_unless-status :
      (status : Status) (current : Option String) (r : Run)
      → r.state.status ≡ status
      → (finalize_unless ctx w status current r).state.status ≡ cancelled
  unfolding finish
  finalize_unless-status cancelled current r h = h
  finalize_unless-status _ current r h = refl

  throw-IsConcluded :
      (current : Option String) (e : Raise) (r : Run) → IsConcluded (throw ctx w current e r)
  unfolding handle fail_run finish finalize_cancelled
  throw-IsConcluded current cancellation r = finalize_unless-status r.state.status current r refl
  throw-IsConcluded current (approval node prompt pause) r = persist-IsSavedAs paused _ refl refl
  throw-IsConcluded current (converse node say pause) r = persist-IsSavedAs paused _ refl refl
  throw-IsConcluded current (parked node pending) r = persist-IsSavedAs waiting _ refl refl
  throw-IsConcluded current (denied message) r = persist-IsSavedAs failed _ refl refl
  throw-IsConcluded current (error message) r = persist-IsSavedAs failed _ refl refl
  throw-IsConcluded current interrupt r = persist-IsSavedAs cancelled _ refl refl
  throw-IsConcluded current crash r = tt

  succeed-IsConcluded : (r : Run) → IsConcluded (succeed ctx w r)
  unfolding succeed finish
  succeed-IsConcluded r =
      if_cases IsConcluded (is_requested ctx w r)
        (λ _. throw-IsConcluded none cancellation (read_token ctx w r))
        (λ _. persist-IsSavedAs succeeded _ refl refl)

  run_loop-IsConcluded :
      (fuel steps : ℕ) (current : Option String) (seen : List String) (r : Run)
      → IsConcluded (run_loop ctx w fuel steps current seen r)
  unfolding run_loop
  run_loop-IsConcluded zero steps current seen r = tt
  run_loop-IsConcluded (suc fuel) steps none seen r = succeed-IsConcluded r
  run_loop-IsConcluded (suc fuel) steps (some current) seen r =
      visit-rule ctx w IsConcluded
        (λ next r'. run_loop ctx w fuel (steps + 1) next (current ∷ seen) r') (steps + 1) current
        seen r (λ e r' _. throw-IsConcluded (some current) e r')
        (λ _ e r' _. throw-IsConcluded (some current) e r')
        (λ _ _ next r' _. run_loop-IsConcluded fuel (steps + 1) next (current ∷ seen) r')

  execute_from-IsConcluded :
      (current : Option String) (seen : List String) (s : RunState)
      → IsConcluded (execute_from ctx w current seen s)
  execute_from-IsConcluded current seen s =
      execute_from-rule ctx w IsConcluded current seen s (throw-IsConcluded current cancellation _)
        (run_loop-IsConcluded (max_steps + 2) 0 current seen _)

  -- The status of a new run when it ends: `succeeded` if it returns, `cancelled`, `paused`, `waiting` or
  -- `failed` by the exception that ended it. Unless it is a cancellation or a crash, the state that the run
  -- ends with is the last one saved.
  pub start_run-IsConcluded :
      (run_id : String) (inputs metadata : Dict String)
      → IsConcluded (start_run ctx w run_id inputs metadata)
  unfolding start_run
  start_run-IsConcluded run_id inputs metadata =
      execute_from-IsConcluded (given (first_node ctx w)) []
        (start_state run_id w.name inputs metadata)

  -- The same holds of a run that goes on from a stored state, unless it is refused.
  pub continue_run-IsConcluded :
      (inputs metadata : Dict String) (s : RunState)
      → IsConcluded (continue_run ctx w inputs metadata s)
  continue_run-IsConcluded inputs metadata s =
      continue_run-rule ctx w IsConcluded inputs metadata s (λ reason. tt)
        (λ current seen s' _. execute_from-IsConcluded current seen s')
