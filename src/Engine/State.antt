-- ===== src/Engine/State.antt =====
-- `RunState` and `NodeResult` of workflow/state.py, as far as the engine reads or writes them. Values
-- are opaque to the engine and kept as their JSON text; usage, latency and time stamps are left out.
use readyagents_core.Common.{
  ℕ, String, Bool, true, false, Option, none, some, List, [], ◌∷◌, ◌++◌, Dict, insert,
  if◌then◌else◌, str_eq,
}

pub data Status : Type 0 where
  queued running cancel_requested cancelled succeeded failed paused waiting : Status

-- `_TERMINAL_STATUSES`.
abbrev pub is_terminal : Status → Bool
is_terminal queued = false
is_terminal running = false
is_terminal cancel_requested = false
is_terminal _ = true

-- What the engine looks at in an output: `output.get("next")`, and the reason if it is quarantined.
pub record Output : Type 0 where
  pub next : Option String
  pub quarantined : Option String
  pub body : String

pub data ResultStatus : Type 0 where
  ok error quarantined_result : ResultStatus

pub record NodeResult : Type 0 where
  pub node_id : String
  pub type : String
  pub status : ResultStatus
  pub output : Option Output
  pub error_message : Option String
  pub attempts : ℕ

-- `pending`: the node, the kind of the stop, an error text, and the other keys.
pub record Pending : Type 0 where
  pub node_id : Option String
  pub type : String
  pub error_message : Option String
  pub extra : Dict String

pub record RunState : Type 0 where
  pub run_id : String
  pub workflow_name : String
  pub inputs : Dict String
  pub node_outputs : Dict Output
  pub output_keys : Dict Output
  pub results : List NodeResult
  pub metadata : Dict String
  -- `metadata["quarantine_next"]`, which the engine pops.
  pub quarantine_next : Option String
  pub errors : List String
  pub status : Status
  pub pending_node : Option String
  pub pending : Option Pending
  -- Whether `finished_at` is set.
  pub finished : Bool

-- `RunState.start`.
abbrev pub start_state : String → String → Dict String → Dict String → RunState
start_state run_id workflow_name inputs metadata = record {
  run_id = run_id;
  workflow_name = workflow_name;
  inputs = inputs;
  node_outputs = [];
  output_keys = [];
  results = [];
  metadata = metadata;
  quarantine_next = none;
  errors = [];
  status = running;
  pending_node = none;
  pending = none;
  finished = false;
}

-- `dict.update`.
unfoldable pub update_all : Dict String → Dict String → Dict String
unfolding insert
update_all [] m = m
update_all ((k, v) ∷ news) m = update_all news (insert k v m)

unfoldable pub finish : Status → RunState → RunState
finish status s = record s { status = status; finished = true }

unfoldable pub record_error : String → String → String → RunState → RunState
record_error node_id type message s = record s {
  errors = s.errors ++ message ∷ [];
  results =
      s.results
      ++ record {
        node_id = node_id;
        type = type;
        status = error;
        output = none;
        error_message = some message;
        attempts = 1;
      }
        ∷ [];
}

abbrev result_status : Output → ResultStatus
result_status o = elim o.quarantined [ none ↦ ok | some reason ↦ quarantined_result ]

-- `if output_key and status == "ok"`.
abbrev keyed : Option String → Output → Dict Output → Dict Output
keyed none o m = m
keyed (some key) o m = elim o.quarantined [
  | none ↦ if str_eq key "" then m else insert key o m
  | some reason ↦ m
]

-- `RunState.record`, with the status that `_execute_with_policy` reads off the output.
unfoldable pub record_output : String → String → Option String → Output → ℕ → RunState → RunState
unfolding insert
record_output node_id type output_key o attempts s = record s {
  node_outputs = insert node_id o s.node_outputs;
  output_keys = keyed output_key o s.output_keys;
  results =
      s.results
      ++ record {
        node_id = node_id;
        type = type;
        status = result_status o;
        output = some o;
        error_message = o.quarantined;
        attempts = attempts;
      }
        ∷ [];
}
