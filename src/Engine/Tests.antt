-- ===== src/Engine/Tests.antt =====
-- Runs of small workflows, and the theorems on the engine at concrete inputs.
use readyagents_core.Common.{
  ℕ, ◌≡◌, refl, String, Bool, true, false, Option, none, some, List, [], ◌∷◌, leb, arith, eq_iff,
  contains,
}
use readyagents_core.Engine.State.{
  cancel_requested, cancelled, failed, RunState, Output, NodeResult, ok, start_state,
}
use readyagents_core.Engine.Graph.{NodeSpec, WorkflowSpec, fails_to}
use readyagents_core.Engine.Resume.{completed}
use readyagents_core.Engine.Run.{
  Context, Run, Ending, returned, raised, out_of_fuel, returns, cancellation, error, start_run,
  continue_run, after_body,
}
use readyagents_core.Engine.Termination.{start_run_ends, continue_run_ends}
use readyagents_core.Engine.Once.{AreNew, continue_run-AreNew}
use readyagents_core.Engine.Conclusion.{
  IsConcluded, start_run-IsConcluded, continue_run-IsConcluded,
}
use readyagents_core.Engine.Cancelled.{after_body_stuck}

abbrev plain_node : String → NodeSpec
plain_node id = record {
  id = id;
  type = "transform";
  next = none;
  then_ = none;
  else_ = none;
  has_routes = false;
  output_key = none;
}

abbrev two_nodes : WorkflowSpec
two_nodes = record {
  name = "two";
  nodes = plain_node "first" ∷ plain_node "second" ∷ [];
  edges = [];
  start = none;
}

abbrev some_output : Output
some_output = record { next = none; quarantined = none; body = "done" }

abbrev after_reads : ℕ → ℕ → Bool
after_reads n k = leb n k

-- Every body returns; the token is set from its n-th reading on.
abbrev context_until : ℕ → Context
context_until n = record {
  requested = after_reads n;
  execute = λ node s. returns some_output 1 s;
  evaluate = λ expr s. fails_to;
}

abbrev never : ℕ → Bool
never n = false

abbrev quiet_context : Context
quiet_context = record {
  requested = never;
  execute = λ node s. returns some_output 1 s;
  evaluate = λ expr s. fails_to;
}

abbrev both_started : List String
both_started = (start_run quiet_context two_nodes "r1" [] []).1.started

abbrev first_ok : NodeResult
first_ok = record {
  node_id = "first";
  type = "transform";
  status = ok;
  output = some some_output;
  error_message = none;
  attempts = 1;
}

-- Cancelled when the body of the first node had completed.
abbrev cancelled_after_first : RunState
cancelled_after_first = record {
  run_id = "r1";
  workflow_name = "two";
  inputs = [];
  node_outputs = ("first", some_output) ∷ [];
  output_keys = [];
  results = first_ok ∷ [];
  metadata = [];
  quarantine_next = none;
  errors = [];
  status = cancelled;
  pending_node = some "first";
  pending = none;
  finished = true;
}

-- Stopped by an error in the second node.
abbrev failed_at_second : RunState
failed_at_second = record cancelled_after_first { status = failed; pending_node = some "second" }

start_run_ends_example : ¬ ((start_run (context_until 3) two_nodes "r1" [] []).0 ≡ out_of_fuel)
start_run_ends_example = start_run_ends (context_until 3) two_nodes "r1" [] []

continue_run_ends_example :
    ¬ ((continue_run (context_until 3) two_nodes [] [] cancelled_after_first).0 ≡ out_of_fuel)
continue_run_ends_example =
    continue_run_ends (context_until 3) two_nodes [] [] cancelled_after_first

continue_run-AreNew_example :
    AreNew ("first" ∷ []) (continue_run quiet_context two_nodes [] [] failed_at_second).1.started
unfolding completed
continue_run-AreNew_example = continue_run-AreNew quiet_context two_nodes [] [] failed_at_second

start_run-IsConcluded_example : IsConcluded (start_run (context_until 4) two_nodes "r1" [] [])
start_run-IsConcluded_example = start_run-IsConcluded (context_until 4) two_nodes "r1" [] []

continue_run-IsConcluded_example :
    IsConcluded (continue_run quiet_context two_nodes [] [] cancelled_after_first)
continue_run-IsConcluded_example =
    continue_run-IsConcluded quiet_context two_nodes [] [] cancelled_after_first

abbrev no_more : Option String → Run → Ending × Run
no_more next r = (returned, r)

-- The state of a run at its first node, as the body returns after a request was saved.
abbrev at_first : RunState
at_first = record (start_state "r1" "two" [] []) { status = cancel_requested }

abbrev run_at_first : Run
run_at_first = record {
  state = at_first;
  saved = [];
  audit = [];
  started = "first" ∷ [];
  reads = 3;
}

after_body_stuck_example :
    let x =
      after_body
        (context_until 3)
        two_nodes
        no_more
        (plain_node "first")
        "first"
        run_at_first
        (returns some_output 1 at_first) in
    let y = continue_run quiet_context two_nodes [] [] x.1.state in
    (x.0 ≡ raised cancellation)
    × (x.1.state.status ≡ cancelled)
    × (x.1.state.pending_node ≡ some "first")
    × (contains "first" (completed x.1.state.results) ≡ true)
    × (y.0 ≡ raised (error "cycle"))
    × (y.1.started ≡ [])
    × (y.1.state.status ≡ failed)
after_body_stuck_example =
    after_body_stuck (context_until 3) two_nodes no_more (plain_node "first") some_output 1 at_first
      run_at_first refl (λ h. absurd (cc)) refl (λ h. ground (arith, eq_iff "first" ""))
      quiet_context [] [] (λ k. refl)
