-- ===== src/Engine/Run.antt =====
-- `run_workflow`: the loop over the nodes, the handlers of its exceptions, and what it saves.
use readyagents_core.Common.{
  ℕ, zero, suc, ◌+◌, String, Bool, true, false, ◌||◌, Option, none, some, List, [], ◌∷◌, ◌++◌,
  if◌then◌else◌, str_eq, ltb, contains, Dict, not, filter,
}
use readyagents_core.Engine.State.{
  Status, running, cancelled, succeeded, failed, paused, waiting, is_terminal, Output, Pending,
  RunState, start_state, update_all, finish, record_error, record_output,
}
use readyagents_core.Engine.Graph.{
  NodeSpec, WorkflowSpec, given, find_node, Routed, goes, raises, Verdict, next_node,
}
use readyagents_core.Engine.Resume.{
  is_fresh_start, Cursor, already_succeeded, route_error, cursor, resume_cursor,
}

abbrev pub max_steps : ℕ
max_steps = 500

-- What ends a run by an exception. `denied` stands for `CassetteMiss` and `PolicyDenied`, `error` for
-- any other `ReadyAgentsError`, `interrupt` for Ctrl-C and `crash` for every other exception.
pub data Raise : Type 0 where
  cancellation : Raise
  approval : String → String → Dict String → Raise
  converse : String → String → Dict String → Raise
  parked : String → Option Pending → Raise
  denied : String → Raise
  error : String → Raise
  interrupt : Raise
  crash : Raise

-- How the body of a node ends, with the state that it leaves.
pub data Execution : Type 0 where
  returns : Output → ℕ → RunState → Execution
  throws : Raise → RunState → Execution

-- `ctx.auditor`, called with an event.
pub data Audit : Type 0 where
  run_started : Audit
  node_ok : String → Audit
  run_paused : String → Audit
  run_waiting : String → Audit
  run_finished : Status → Audit

-- What a run works on: its state, the states saved, the audit, the ids logged by `node_start`, and
-- how often the cancellation token has been read.
pub record Run : Type 0 where
  pub state : RunState
  pub saved : List RunState
  pub audit : List Audit
  pub started : List String
  pub reads : ℕ

-- What the engine relies on and does not implement. `requested n` is the answer of the cancellation
-- token at its n-th reading; `execute` is `execute_node_with_policy`; `evaluate` the conditions.
pub record Context : Type 0 where
  pub requested : ℕ → Bool
  pub execute : NodeSpec → RunState → Execution
  pub evaluate : String → RunState → Verdict

-- How a call ends: by returning, by an exception at a node, or before the run begins.
pub data Ending : Type 0 where
  returned : Ending
  raised : Raise → Ending
  refused : String → Ending
  -- The model's fuel ran out.
  out_of_fuel : Ending

abbrev pub note : Audit → Run → Run
note a r = record r { audit = r.audit ++ a ∷ [] }

abbrev pub save : Run → Run
save r = record r { saved = r.saved ++ r.state ∷ [] }

abbrev pub with_state : RunState → Run → Run
with_state s r = record r { state = s }

unfoldable pub type_of : WorkflowSpec → Option String → String
type_of w none = "?"
type_of w (some id) = elim (find_node id w.nodes) [ none ↦ "?" | some n ↦ n.type ]

-- The keys of `pending` that a pause adds, over a first one; `node_id` and `type` are not its to set.
abbrev paused_extra : String → String → Dict String → Dict String
paused_extra key text pause =
    update_all (filter (λ entry. not (str_eq entry.0 "node_id" || str_eq entry.0 "type")) pause)
      ((key, text) ∷ [])

module _ (ctx : Context) (w : WorkflowSpec) where
  abbrev pub is_requested : Run → Bool
  is_requested r = ctx.requested r.reads

  abbrev pub read_token : Run → Run
  read_token r = record r { reads = r.reads + 1 }

  abbrev pending_or : Option String → Option Pending → Option Pending
  pending_or at (some p) = some p
  pending_or at none =
      some (record { node_id = at; type = "?"; error_message = some "cancelled"; extra = [] })

  -- `_persist`, outside of a node's body: a request for cancellation is honoured on the way.
  unfoldable pub settle : Bool → RunState → RunState
  settle true s =
      if is_terminal s.status
      then s
      else finish cancelled (record s { pending = pending_or s.pending_node s.pending })
  settle false s = s

  unfoldable pub persist : Run → Run
  unfolding settle finish
  persist r =
      let s = settle (is_requested r) r.state in
      record r { state = s; saved = r.saved ++ s ∷ []; reads = r.reads + 1 }

  unfoldable pub stopped : Option String → String → RunState → RunState
  stopped current message s = record s {
    pending_node = current;
    pending = some (record {
      node_id = current;
      type = type_of w current;
      error_message = some message;
      extra = [];
    });
  }

  -- `_finalize_cancelled`: a state that was settled as cancelled is left as it is.
  abbrev pub finalize_unless : Status → Option String → Run → Run
  finalize_unless cancelled current r = r
  finalize_unless _ current r =
      note (run_finished cancelled)
        (save (with_state (finish cancelled (stopped current "cancelled" r.state)) r))

  unfoldable pub finalize_cancelled : Option String → Run → Run
  finalize_cancelled current r = finalize_unless r.state.status current r

  abbrev parked_pending : String → Option Pending → Option Pending
  parked_pending node (some p) = some p
  parked_pending node none =
      some (record { node_id = some node; type = "wait"; error_message = none; extra = [] })

  or_mark : Option String → String
  or_mark none = "?"
  or_mark (some id) = id

  -- The handler of a `ReadyAgentsError`.
  unfoldable pub fail_run : Option String → String → Run → Run
  unfolding or_mark finish stopped
  fail_run current message r = note (run_finished failed) (
      persist (
        with_state
          (finish failed (
            stopped current message
              (record_error (or_mark current) (type_of w current) message r.state)))
          r))

  -- The handlers of the exceptions of the loop.
  unfoldable pub handle : Option String → Raise → Run → Run
  unfolding finish stopped
  handle current cancellation r = finalize_cancelled current r
  handle current (approval node prompt pause) r = note (run_paused node) (
      persist (
        with_state
          (finish paused (record r.state {
            pending_node = current;
            pending = some (record {
              node_id = some node;
              type = "approval";
              error_message = none;
              extra = paused_extra "prompt" prompt pause;
            });
          }))
          r))
  handle current (converse node say pause) r = note (run_paused node) (
      persist (
        with_state
          (finish paused (record r.state {
            pending_node = current;
            pending = some (record {
              node_id = some node;
              type = "converse";
              error_message = none;
              extra = paused_extra "say" say pause;
            });
          }))
          r))
  handle current (parked node pending) r = note (run_waiting node) (
      persist (
        with_state
          (finish waiting
            (record r.state { pending_node = some node; pending = parked_pending node pending }))
          r))
  handle current (denied message) r = fail_run current message r
  handle current (error message) r = fail_run current message r
  handle current interrupt r =
      persist (with_state (finish cancelled (stopped current "cancelled" r.state)) r)
  handle current crash r = r

  abbrev pub throw : Option String → Raise → Run → Ending × Run
  throw current e r = (raised e, handle current e r)

  -- `_raise_if_cancelled`, before what follows.
  abbrev pub or_cancelled : Option String → Run → (Run → Ending × Run) → Ending × Run
  or_cancelled current r then_ =
      if is_requested r then throw current cancellation (read_token r) else then_ (read_token r)

  -- What is thrown for an error of a node's body: all but a plain error pass unchanged.
  unfoldable pub throw_from_body : Option String → Raise → Run → Ending × Run
  throw_from_body current (error message) r =
      or_cancelled current r (λ r'. throw current (error message) r')
  throw_from_body current e r = throw current e r

  -- A node that returned is recorded, and the run saved.
  unfoldable pub record_node : NodeSpec → Output → ℕ → RunState → RunState
  record_node n output attempts s = record_output n.id n.type n.output_key output attempts s

  unfoldable pub clear_pending : RunState → RunState
  clear_pending s = record s { pending_node = none; pending = none }

  unfoldable pub save_node : NodeSpec → Run → Run
  save_node n r = note (node_ok n.id) (persist (with_state (clear_pending r.state) r))

  -- The end of the loop.
  unfoldable pub succeed : Run → Ending × Run
  succeed r = or_cancelled none r λ r'. (
    returned,
    note (run_finished succeeded)
        (persist (with_state (finish succeeded (clear_pending r'.state)) r')),
  )

  -- One node: the checks, the body, the record, and where to go. `step` hands the rest of the run to
  -- `continue`, with the next node and the state.
  abbrev pub Continue : Type 0
  Continue = Option String → Run → Ending × Run

  unfoldable pub move_on : Continue → String → Routed × RunState → Run → Ending × Run
  move_on continue current (goes next, s) r = continue (given next) (with_state s r)
  move_on continue current (raises message, s) r =
      throw (some current) (error message) (with_state s r)

  unfoldable pub after_node : Continue → NodeSpec → String → Run → Ending × Run
  after_node continue n current r = or_cancelled (some current) r λ r'.
      let r'' = save_node n r' in
      move_on continue current (next_node ctx.evaluate w n r''.state) r''

  unfoldable pub after_body : Continue → NodeSpec → String → Run → Execution → Ending × Run
  after_body continue n current r (returns output attempts s) =
      after_node continue n current (with_state (record_node n output attempts s) r)
  after_body continue n current r (throws e s) = throw_from_body (some current) e (with_state s r)

  unfoldable pub run_node : Continue → NodeSpec → String → Run → Ending × Run
  run_node continue n current r =
      or_cancelled (some current) (record r { started = r.started ++ n.id ∷ [] })
        λ r'. after_body continue n current r' (ctx.execute n r'.state)

  -- One round of the loop at a node; `seen` are the nodes before it.
  unfoldable pub visit : Continue → ℕ → String → List String → Run → Ending × Run
  visit continue steps current seen r =
      if ltb max_steps steps
      then throw (some current) (error "step limit") r
      else if contains current seen
      then throw (some current) (error "cycle") r
      else elim (find_node current w.nodes) [
        | none ↦ throw (some current) (error "unknown node") r
        | some n ↦ run_node continue n current r
      ]

  unfoldable pub run_loop : ℕ → ℕ → Option String → List String → Run → Ending × Run
  run_loop zero steps current seen r = (out_of_fuel, r)
  run_loop (suc fuel) steps none seen r = succeed r
  run_loop (suc fuel) steps (some current) seen r =
      visit (λ next r'. run_loop fuel (steps + 1) next (current ∷ seen) r') (steps + 1) current seen
        r

  abbrev pub fresh : RunState → Run
  fresh s = record { state = s; saved = []; audit = []; started = []; reads = 0 }

  -- The first save, and the audit.
  unfoldable pub begin : RunState → Run
  begin s = note run_started (persist (fresh s))

  -- From the cursor on: save, audit, check for cancellation, and loop. A run takes at most 501 rounds,
  -- and one more to see that it is over.
  unfoldable pub execute_from : Option String → List String → RunState → Ending × Run
  execute_from current seen s =
      or_cancelled current (begin s) (λ r'. run_loop (max_steps + 2) 0 current seen r')

  abbrev first_id : List NodeSpec → Option String
  first_id [] = none
  first_id (n ∷ ns) = some n.id

  -- `workflow.start or workflow.nodes[0].id`.
  unfoldable pub first_node : Option String
  first_node = elim (given w.start) [ some id ↦ some id | none ↦ first_id w.nodes ]

  -- The inputs and the metadata of the call are added to those of a stored run.
  unfoldable pub merged : Dict String → Dict String → RunState → RunState
  merged inputs metadata s = record s {
    inputs = update_all inputs s.inputs;
    metadata = update_all metadata s.metadata;
  }

  abbrev pub run_from : Dict String → Dict String → RunState → Cursor → Ending × Run
  run_from inputs metadata s already_succeeded = (refused "already succeeded", fresh s)
  run_from inputs metadata s (route_error message) = (refused message, fresh s)
  run_from inputs metadata s (cursor current seen s') =
      execute_from current seen (merged inputs metadata s')

  -- `run_workflow` with a new state, and with a stored one.
  unfoldable pub start_run : String → Dict String → Dict String → Ending × Run
  start_run run_id inputs metadata =
      execute_from (given first_node) [] (start_state run_id w.name inputs metadata)

  unfoldable pub continue_run : Dict String → Dict String → RunState → Ending × Run
  continue_run inputs metadata s =
      if is_fresh_start s
      then execute_from (given first_node) []
          (merged inputs metadata (record s { status = running; finished = false }))
      else run_from inputs metadata s (resume_cursor ctx.evaluate w s)
