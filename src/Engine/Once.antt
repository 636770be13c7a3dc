-- ===== src/Engine/Once.antt =====
-- The nodes that a run starts, against each other and those completed before.
use mathlib.Core.List.{append_assoc, append-nil}
use readyagents_core.Common.{
  sym, ℕ, zero, suc, ◌+◌, ◌≡◌, refl, ◌∙◌, String, false, Option, none, some, List, [], ◌∷◌, ◌++◌,
  if_cases, Dict, contains,
}
use readyagents_core.Engine.State.{Status, cancelled, start_state, RunState}
use readyagents_core.Engine.Graph.{WorkflowSpec, given}
use readyagents_core.Engine.Resume.{completed}
use readyagents_core.Engine.Run.{
  Context, Run, Ending, Raise, cancellation, approval, converse, parked, denied, error, interrupt,
  crash, throw, handle, finalize_unless, finalize_cancelled, fail_run, persist, is_requested,
  read_token, run_loop, begin, succeed, execute_from, start_run, continue_run, first_node,
  max_steps,
}
use readyagents_core.Engine.Rules.{visit-rule, execute_from-rule, continue_run-rule}

-- The ids are apart from each other and from those seen.
abbrev pub AreNew : List String → List String → Type 0
AreNew seen [] = Unit
AreNew seen (id ∷ ids) = (contains id seen ≡ false) × AreNew (id ∷ seen) ids

module _ (ctx : Context) (w : WorkflowSpec) where
  finalize_unless-started :
      (status : Status) (current : Option String) (r : Run)
      → (finalize_unless ctx w status current r).started ≡ r.started
  finalize_unless-started cancelled current r = refl
  finalize_unless-started _ current r = refl

  pub throw-started :
      (current : Option String) (e : Raise) (r : Run)
      → (throw ctx w current e r).1.started ≡ r.started
  unfolding handle fail_run persist finalize_cancelled
  throw-started current cancellation r = finalize_unless-started r.state.status current r
  throw-started current (approval node prompt pause) r = refl
  throw-started current (converse node say pause) r = refl
  throw-started current (parked node pending) r = refl
  throw-started current (denied message) r = refl
  throw-started current (error message) r = refl
  throw-started current interrupt r = refl
  throw-started current crash r = refl

  -- What a run has started, over what it had, is new.
  abbrev StartsNew : List String → List String → Ending × Run → Type 0
  StartsNew seen logged x =
      (later : List String) × (x.1.started ≡ logged ++ later) × AreNew seen later

  throw-StartsNew :
      (seen logged : List String) (current : Option String) (e : Raise) (r : Run)
      → r.started ≡ logged
      → StartsNew seen logged (throw ctx w current e r)
  throw-StartsNew seen logged current e r h =
      ([], throw-started current e r ∙ h ∙ sym (append-nil logged), tt)

  pub begin-started : (s : RunState) → (begin ctx w s).started ≡ []
  unfolding begin persist
  begin-started s = refl

  succeed-StartsNew :
      (seen logged : List String) (r : Run)
      → r.started ≡ logged
      → StartsNew seen logged (succeed ctx w r)
  unfolding succeed persist
  succeed-StartsNew seen logged r h =
      if_cases (StartsNew seen logged) (is_requested ctx w r)
        (λ _. throw-StartsNew seen logged none cancellation (read_token ctx w r) h)
        (λ _. ([], h ∙ sym (append-nil logged), tt))

  visited-StartsNew :
      (seen logged : List String) (current : String) (x : Ending × Run)
      → contains current seen ≡ false
      → StartsNew (current ∷ seen) (logged ++ current ∷ []) x
      → StartsNew seen logged x
  visited-StartsNew seen logged current x new (later, same, news) =
      (current ∷ later, same ∙ append_assoc logged (current ∷ []) later, (new, news))

  run_loop-StartsNew :
      (fuel steps : ℕ) (current : Option String) (seen logged : List String) (r : Run)
      → r.started ≡ logged
      → StartsNew seen logged (run_loop ctx w fuel steps current seen r)
  unfolding run_loop
  run_loop-StartsNew zero steps current seen logged r h = ([], h ∙ sym (append-nil logged), tt)
  run_loop-StartsNew (suc fuel) steps none seen logged r h = succeed-StartsNew seen logged r h
  run_loop-StartsNew (suc fuel) steps (some current) seen logged r h =
      visit-rule ctx w (StartsNew seen logged)
        (λ next r'. run_loop ctx w fuel (steps + 1) next (current ∷ seen) r') (steps + 1) current
        seen r (λ e r' h'. throw-StartsNew seen logged (some current) e r' (h' ∙ h))
        (λ new e r' h'.
          visited-StartsNew seen logged current (throw ctx w (some current) e r') new (
            throw-StartsNew (current ∷ seen) (logged ++ current ∷ []) (some current) e r'
              (rw h at h')))
        (λ _ new next r' h'.
          visited-StartsNew seen logged current
            (run_loop ctx w fuel (steps + 1) next (current ∷ seen) r') new
            (run_loop-StartsNew fuel (steps + 1) next (current ∷ seen) (logged ++ current ∷ []) r'
              (rw h at h')))

  execute_from-StartsNew :
      (current : Option String) (seen : List String) (s : RunState)
      → StartsNew seen [] (execute_from ctx w current seen s)
  execute_from-StartsNew current seen s =
      execute_from-rule ctx w (StartsNew seen []) current seen s
        (throw-StartsNew seen [] current cancellation _ (begin-started s))
        (run_loop-StartsNew (max_steps + 2) 0 current seen [] _ (begin-started s))

  execute_from-AreNew :
      (current : Option String) (seen : List String) (s : RunState)
      → AreNew seen (execute_from ctx w current seen s).1.started
  execute_from-AreNew current seen s = let x = execute_from-StartsNew current seen s in rw x.1 x.2

  -- The nodes that a new run starts are all different.
  pub start_run-AreNew :
      (run_id : String) (inputs metadata : Dict String)
      → AreNew [] (start_run ctx w run_id inputs metadata).1.started
  unfolding start_run
  start_run-AreNew run_id inputs metadata =
      execute_from-AreNew (given (first_node ctx w)) [] (start_state run_id w.name inputs metadata)

  -- A run that goes on from a stored state starts no node that has an `ok` result there, and none twice.
  pub continue_run-AreNew :
      (inputs metadata : Dict String) (s : RunState)
      → AreNew (completed s.results) (continue_run ctx w inputs metadata s).1.started
  continue_run-AreNew inputs metadata s =
      continue_run-rule ctx w (λ x. AreNew (completed s.results) x.1.started) inputs metadata s
        (λ reason. tt) λ current seen s' same. rw (sym same) (execute_from-AreNew current seen s')
