-- ===== src/Engine/Stuck.antt =====
-- Resuming a run whose pending node is among the completed ones.
use readyagents_core.Common.{
  ℕ, ◌≡◌, refl, ◌∙◌, arith, String, true, false, Option, some, List, [], Dict, contains,
}
use readyagents_core.Engine.State.{Status, succeeded, failed, RunState, finish, record_error}
use readyagents_core.Engine.Graph.{WorkflowSpec, given}
use readyagents_core.Engine.Resume.{
  completed, is_fresh_start, resume_cursor, cursor_of, find_place, place, reopen,
}
use readyagents_core.Engine.Once.{throw-started, begin-started}
use readyagents_core.Engine.Run.{
  Context, Run, Ending, raised, error, throw, handle, fail_run, persist, read_token, run_loop,
  visit, begin, execute_from, continue_run, merged, stopped,
}

module _ (ctx : Context) (w : WorkflowSpec) (quiet : (n : ℕ) → ctx.requested n ≡ false) where
  visit-seen :
      (continue : Option String → Run → Ending × Run) (current : String) (seen : List String)
      (r : Run)
      → contains current seen ≡ true
      → visit ctx w continue 1 current seen r ≡ throw ctx w (some current) (error "cycle") r
  unfolding visit
  visit-seen continue current seen r h = rw h

  execute_from-seen :
      (current : String) (seen : List String) (s : RunState)
      → contains current seen ≡ true
      → execute_from ctx w (some current) seen s
        ≡ throw ctx w (some current) (error "cycle") (read_token ctx w (begin ctx w s))
  unfolding execute_from run_loop
  execute_from-seen current seen s h =
      rw (quiet (begin ctx w s).reads) (visit-seen _ current seen _ h)

  find_place-pending :
      (current : String) (s : RunState)
      → given s.pending_node ≡ some current
      → find_place ctx.evaluate w s ≡ place (some current) s
  find_place-pending current s h = rw (h, find_place)

  cursor_of-place :
      (status : Status) (s : RunState)
      → ¬ (status ≡ succeeded)
      → cursor_of ctx.evaluate status w s ≡ find_place ctx.evaluate w s
  cursor_of-place succeeded s h = absurd (h refl)
  cursor_of-place _ s h = refl

  is_fresh_start-pending :
      (current : String) (s : RunState)
      → given s.pending_node ≡ some current
      → is_fresh_start s ≡ false
  unfolding is_fresh_start
  is_fresh_start-pending current s h = ground arith

  continue_run-pending :
      (inputs metadata : Dict String) (s : RunState) (current : String)
      → ¬ (s.status ≡ succeeded)
      → given s.pending_node ≡ some current
      → continue_run ctx w inputs metadata s
        ≡ execute_from ctx w
            (some current)
            (completed s.results)
            (merged ctx w inputs metadata (reopen current (completed s.results) s))
  unfolding continue_run resume_cursor
  continue_run-pending inputs metadata s current unfinished h =
      rw (is_fresh_start-pending current s h)
        (rw (cursor_of-place s.status s unfinished) (rw (find_place-pending current s h)))

  -- The state after a refusal at a node keeps the node pending.
  fail_run-pending :
      (current message : String) (r : Run)
      → let after = (throw ctx w (some current) (error message) r).1.state in
        (after.status ≡ failed) × (after.pending_node ≡ some current)
  unfolding handle fail_run persist finish stopped record_error
  fail_run-pending current message r = rw (quiet r.reads) (refl, refl)

  -- A stored run whose pending node has an `ok` result already, and which has not succeeded, cannot go on:
  -- with no cancellation it fails with the error of a cycle, starts no node, and is saved as failed with the
  -- same node pending.
  pub continue_run_stuck :
      (inputs metadata : Dict String) (s : RunState) (current : String)
      → ¬ (s.status ≡ succeeded)
      → given s.pending_node ≡ some current
      → contains current (completed s.results) ≡ true
      → let x = continue_run ctx w inputs metadata s in
        (x.0 ≡ raised (error "cycle"))
        × (x.1.started ≡ [])
        × (x.1.state.status ≡ failed)
        × (x.1.state.pending_node ≡ some current)
  continue_run_stuck inputs metadata s current unfinished h done =
      let s' = merged ctx w inputs metadata (reopen current (completed s.results) s) in
      let r = read_token ctx w (begin ctx w s') in
      rw (continue_run-pending inputs metadata s current unfinished h) (
        rw (execute_from-seen current (completed s.results) s' done) (
          refl,
          throw-started ctx w (some current) (error "cycle") r ∙ begin-started ctx w s',
          (fail_run-pending current "cycle" r).0,
          (fail_run-pending current "cycle" r).1,
        ))
