-- ===== src/Engine/Cancelled.antt =====
-- What a run is left with that is cancelled when the body of a node has just returned.
use readyagents_core.Common.{
  ℕ, ◌≡◌, refl, arith, String, true, false, Option, none, some, List, [], ◌∷◌, ◌++◌, contains,
  eq_refl, eq_iff, Dict,
}
use readyagents_core.Engine.State.{
  Status, cancelled, failed, RunState, Output, NodeResult, record_output, finish, ok,
}
use readyagents_core.Engine.Graph.{NodeSpec, WorkflowSpec, given}
use readyagents_core.Engine.Resume.{completed, is_ok}
use readyagents_core.Engine.Run.{
  Context, Run, raised, cancellation, error, returns, after_body, after_node, record_node, throw,
  handle, finalize_cancelled, finalize_unless, read_token, with_state, stopped, Continue,
  continue_run,
}
use readyagents_core.Engine.Stuck.{continue_run_stuck}

contains-completed_last :
    (rs : List NodeResult) (r : NodeResult)
    → is_ok r ≡ true
    → contains r.node_id (completed (rs ++ r ∷ [])) ≡ true
unfolding completed contains
contains-completed_last [] r h = ground (arith, eq_refl r.node_id)
contains-completed_last (x ∷ xs) r h = ground (arith, contains-completed_last xs r h)

module _ (ctx : Context) (w : WorkflowSpec) (continue : Continue ctx w) (n : NodeSpec) where
  after_body-cancelled :
      (output : Output) (attempts : ℕ) (s : RunState) (r : Run)
      → ctx.requested r.reads ≡ true
      → after_body ctx w continue n n.id r (returns output attempts s)
        ≡ throw ctx w
            (some n.id)
            cancellation
            (read_token ctx w (with_state (record_node ctx w n output attempts s) r))
  unfolding after_body after_node
  after_body-cancelled output attempts s r h = rw h

  -- The run when the request has been handled.
  abbrev cancelled_run : Output → ℕ → RunState → Run → Run
  cancelled_run output attempts s r =
      handle ctx w (some n.id) cancellation
        (read_token ctx w (with_state (record_node ctx w n output attempts s) r))

  finalize_unless-other :
      (status : Status) (current : Option String) (r : Run)
      → ¬ (status ≡ cancelled)
      → (finalize_unless ctx w status current r).state
        ≡ finish cancelled (stopped ctx w current "cancelled" r.state)
  finalize_unless-other cancelled current r h = absurd (h refl)
  finalize_unless-other _ current r h = refl

  finalized :
      (output : Output) (attempts : ℕ) (s : RunState) (r : Run)
      → ¬ (s.status ≡ cancelled)
      → output.quarantined ≡ none
      → let after = (cancelled_run output attempts s r).state in
        (after.status ≡ cancelled)
        × (after.pending_node ≡ some n.id)
        × (contains n.id (completed after.results) ≡ true)
  unfolding handle finalize_cancelled finish stopped record_node record_output
  finalized output attempts s r h q =
      let result : NodeResult = record {
        node_id = n.id;
        type = n.type;
        status = ok;
        output = some (record output { quarantined = none });
        error_message = none;
        attempts = attempts;
      } in
      let r' = read_token ctx w (with_state (record_node ctx w n output attempts s) r) in
      rw (finalize_unless-other r'.state.status (some n.id) r' h)
        (rw q (refl, refl, contains-completed_last s.results result refl))

  given-id : ¬ (n.id ≡ "") → given (some n.id) ≡ some n.id
  unfolding given
  given-id h = ground (arith, eq_iff n.id "")

  -- A request for cancellation that is read when the body of a node has returned, with an output that is not
  -- quarantined, ends the run with the node pending and completed at once. The state that the body leaves may have any
  -- status but cancelled: it is running when nothing was saved after the request, and cancel_requested when the
  -- request was saved with the body in flight. From the state that is left the run cannot go on: without a further
  -- request it fails with the error of a cycle, and no node is started.
  pub after_body_stuck :
      (output : Output) (attempts : ℕ) (s : RunState) (r : Run)
      → ctx.requested r.reads ≡ true
      → ¬ (s.status ≡ cancelled)
      → output.quarantined ≡ none
      → ¬ (n.id ≡ "")
      → (later : Context) (inputs metadata : Dict String) → ((k : ℕ) → later.requested k ≡ false)
      → let x = after_body ctx w continue n n.id r (returns output attempts s) in
        let y = continue_run later w inputs metadata x.1.state in
        (x.0 ≡ raised cancellation)
        × (x.1.state.status ≡ cancelled)
        × (x.1.state.pending_node ≡ some n.id)
        × (contains n.id (completed x.1.state.results) ≡ true)
        × (y.0 ≡ raised (error "cycle"))
        × (y.1.started ≡ [])
        × (y.1.state.status ≡ failed)
  after_body_stuck output attempts s r requested h q named later inputs metadata quiet =
      let after = finalized output attempts s r h q in
      let stuck =
        continue_run_stuck later w quiet inputs metadata (cancelled_run output attempts s r).state
          n.id (λ done. cc (after.0, done)) (rw (after.1) (given-id named)) (after.2) in
      rw (after_body-cancelled output attempts s r requested)
        (refl, after.0, after.1, after.2, stuck.0, stuck.1, stuck.2)
