-- ===== src/Engine/Rules.antt =====
-- A rule for the loop: what holds of every way in which a round can end.
use readyagents_core.Common.{
  sym, ℕ, ◌+◌, ◌≤◌, ◌≡◌, refl, ◌∙◌, String, false, Option, some, List, [], ◌∷◌, ◌++◌, arith, inl,
  inr, if_cases, ltb, contains, Option-cases, Dict, eq_iff,
}
use readyagents_core.Engine.State.{RunState}
use readyagents_core.Engine.Graph.{
  NodeSpec, WorkflowSpec, find_node, given, next_node, Routed, goes, raises,
}
use readyagents_core.Engine.Run.{
  Context, Run, Ending, Raise, cancellation, error, Execution, returns, throws, max_steps, persist,
  throw, or_cancelled, read_token, is_requested, with_state, throw_from_body, save_node, Continue,
  move_on, after_node, after_body, run_node, visit, fresh, begin, execute_from, continue_run,
  run_from, run_loop, first_node, merged, refused,
}
use readyagents_core.Engine.Resume.{
  is_fresh_start, resume_cursor, Cursor, already_succeeded, route_error, cursor, completed,
}
use readyagents_core.Engine.Seen.{Sees, resume_cursor-Sees, is_fresh_start-completed}

pub find_node-id :
    (id : String) (ns : List NodeSpec) (n : NodeSpec) → find_node id ns ≡ some n → n.id ≡ id
unfolding find_node
find_node-id id [] n h = cc
find_node-id id (m ∷ ms) n h = ground (arith, eq_iff m.id id, find_node-id id ms n)

save_node-started :
    (ctx : Context) (w : WorkflowSpec) (n : NodeSpec) (r : Run)
    → (save_node ctx w n r).started ≡ r.started
unfolding save_node persist
save_node-started ctx w n r = refl

module _ (ctx : Context) (w : WorkflowSpec) (P : Ending × Run → Type 0) (continue : Continue ctx w)
    (current : String) (logged : List String)
    (thrown : (e : Raise) (r : Run) → r.started ≡ logged → P (throw ctx w (some current) e r))
    (continued : (next : Option String) (r : Run) → r.started ≡ logged → P (continue next r)) where
  or_cancelled-rule :
      (r : Run) (then_ : Run → Ending × Run)
      → r.started ≡ logged
      → P (then_ (read_token ctx w r))
      → P (or_cancelled ctx w (some current) r then_)
  or_cancelled-rule r then_ h p =
      if_cases P (is_requested ctx w r) (λ _. thrown cancellation (read_token ctx w r) h) (λ _. p)

  move_on-rule :
      (routed : Routed × RunState) (r : Run)
      → r.started ≡ logged
      → P (move_on ctx w continue current routed r)
  unfolding move_on
  move_on-rule (goes next, s) r h = continued (given next) (with_state s r) h
  move_on-rule (raises message, s) r h = thrown (error message) (with_state s r) h

  after_node-rule :
      (n : NodeSpec) (r : Run) → r.started ≡ logged → P (after_node ctx w continue n current r)
  unfolding after_node
  after_node-rule n r h =
      or_cancelled-rule r
        (λ r'.
          move_on ctx w continue current (next_node ctx.evaluate w n (save_node ctx w n r').state)
            (save_node ctx w n r'))
        h
        (move_on-rule (next_node ctx.evaluate w n (save_node ctx w n (read_token ctx w r)).state)
          (save_node ctx w n (read_token ctx w r)) (save_node-started ctx w n _ ∙ h))

  throw_from_body-rule :
      (e : Raise) (r : Run) → r.started ≡ logged → P (throw_from_body ctx w (some current) e r)
  unfolding throw_from_body
  throw_from_body-rule (error message) r h =
      or_cancelled-rule r (throw ctx w (some current) (error message)) h
        (thrown (error message) (read_token ctx w r) h)
  throw_from_body-rule e r h = thrown e r h

  after_body-rule :
      (n : NodeSpec) (r : Run) (x : Execution)
      → r.started ≡ logged
      → P (after_body ctx w continue n current r x)
  unfolding after_body
  after_body-rule n r (returns output attempts s) h = after_node-rule n _ h
  after_body-rule n r (throws e s) h = throw_from_body-rule e (with_state s r) h

  pub run_node-rule :
      (n : NodeSpec) (r : Run)
      → r.started ++ n.id ∷ [] ≡ logged
      → P (run_node ctx w continue n current r)
  unfolding run_node
  run_node-rule n r h =
      let r' : Run = record r { started = r.started ++ n.id ∷ [] } in
      or_cancelled-rule r'
        (λ r''. after_body ctx w continue n current r'' (ctx.execute n r''.state)) h
        (after_body-rule n (read_token ctx w r') (ctx.execute n r.state) h)

-- What holds of every way in which a round can end: with an exception before the node or after, or with
-- the rest of the run, then with the node logged.
pub visit-rule :
    (ctx : Context) (w : WorkflowSpec) (P : Ending × Run → Type 0) (continue : Continue ctx w)
    (steps : ℕ) (current : String) (seen : List String) (r : Run)
    → ((e : Raise) (r' : Run) → r'.started ≡ r.started → P (throw ctx w (some current) e r'))
    → (contains current seen ≡ false
        → (e : Raise) (r' : Run) → r'.started ≡ r.started ++ current ∷ []
        → P (throw ctx w (some current) e r'))
    → (steps ≤ max_steps
        → contains current seen ≡ false
        → (next : Option String) (r' : Run) → r'.started ≡ r.started ++ current ∷ []
        → P (continue next r'))
    → P (visit ctx w continue steps current seen r)
unfolding visit
visit-rule ctx w P continue steps current seen r before thrown continued =
    if_cases P (ltb max_steps steps) (λ _. before (error "step limit") r refl)
      λ within.
        if_cases P (contains current seen) (λ _. before (error "cycle") r refl)
          λ new. elim (Option-cases (find_node current w.nodes)) [
            | inl none_found ↦ rw none_found (before (error "unknown node") r refl)
            | inr (n, found) ↦
                let same : n.id ≡ current = find_node-id current w.nodes n found in
                rw found (
                  run_node-rule ctx w P continue current (r.started ++ current ∷ []) (thrown new)
                    (continued (ground arith) new) n r (rw same))
          ]

-- What holds of a cancelled run and of the loop holds of a run from a cursor.
pub execute_from-rule :
    (ctx : Context) (w : WorkflowSpec) (P : Ending × Run → Type 0) (current : Option String)
    (seen : List String) (s : RunState)
    → P (throw ctx w current cancellation (read_token ctx w (begin ctx w s)))
    → P (run_loop ctx w (max_steps + 2) 0 current seen (read_token ctx w (begin ctx w s)))
    → P (execute_from ctx w current seen s)
unfolding execute_from
execute_from-rule ctx w P current seen s thrown looped =
    if_cases P (is_requested ctx w (begin ctx w s)) (λ _. thrown) (λ _. looped)

-- What holds of a refusal, and of a run from any cursor that has seen just the completed nodes, holds of
-- a run that goes on.
module _ (ctx : Context) (w : WorkflowSpec) (P : Ending × Run → Type 0)
    (inputs metadata : Dict String) (s : RunState)
    (none_run : (reason : String) → P (refused reason, fresh ctx w s))
    (begun : (current : Option String) (seen : List String) (s' : RunState)
      → seen ≡ completed s.results
      → P (execute_from ctx w current seen s')) where
  run_from-rule :
      (at : Cursor) → Sees (completed s.results) at → P (run_from ctx w inputs metadata s at)
  run_from-rule already_succeeded h = none_run "already succeeded"
  run_from-rule (route_error message) h = none_run message
  run_from-rule (cursor current seen s') h = begun current seen (merged ctx w inputs metadata s') h

  pub continue_run-rule : P (continue_run ctx w inputs metadata s)
  unfolding continue_run
  continue_run-rule =
      if_cases P (is_fresh_start s)
        (λ new. begun (given (first_node ctx w)) [] _ (sym (is_fresh_start-completed s new)))
        λ _. run_from-rule (resume_cursor ctx.evaluate w s) (resume_cursor-Sees ctx.evaluate w s)
