-- ===== src/Lib.antt =====
-- The core of readyagents, modelled and verified.
--
-- readyagents runs workflows: graphs of nodes that call models, tools and people. The parts
-- modelled here are those that decide whether work may run, in what order it runs and where it
-- goes on after a stop.
--
-- * Governor (src/readyagents/workflow/governor.py, `ConcurrencyGovernor`): admits a bounded number of
--   runs. Slots has the limits and counters (`_fits`, `_enter`), Throttle the pauses and token buckets by
--   provider (`note_retry_after`, `_tokens_ready`, `_consume_token`, `_next_wake_delay`), State the
--   record of the governor (`__init__`, `configure`, `request_shutdown`), Grant the hand-out of slots
--   (`_grant_waiters_locked`), Acquire the slot of a thread (`_acquire_slot`, `_release`) and Lease the
--   nested leases (`acquire`, `GovernorLease.release`). What a thread does between two waits holds the
--   lock, so it is one step here; Invariants has the steps of threads in any order. The proofs are in
--   Capacity, Ceiling, Queues, Numbering, Selection, Settling, Work, Closing, Backoff and Nesting.
-- * Triggers (src/readyagents/triggers/caps.py): Caps has the checks on the raw bytes of an event
--   (`json_nesting_depth`, `RateLimiter.allow`, `refuse_before_parse`); Document has JSON documents as they are
--   written; the proofs are in Depth, Window and Gate.
-- * Resilience (src/readyagents/llm/resilience.py): Breaker has `CircuitBreaker`, Models has
--   `model_candidates`, `check_budget` and `raise_exhausted`; the proofs are in Outage and Fallback.
-- * Engine (src/readyagents/workflow/engine.py, with RunState of workflow/state.py and the parts of
--   workflow/schema.py that it reads): State has the run's record, Graph the routing (`_next_node`),
--   Resume `_resume_cursor`, Run `run_workflow` with its loop, its exception handlers and `_persist`. The
--   proofs are in Seen, Rules, Termination, Once, Conclusion, Stuck and Cancelled.
-- * Cancellation (src/readyagents/workflow/cancellation.py): Token has `CancellationToken` with its
--   listeners, Sleep has `cancellable_sleep`; the proofs are in Listeners and Naps. What an operation of
--   the token does under its lock is one step. Listeners return; one that raises is not modelled. For the
--   sleep a token is given by the time of its request, at which a wait on it returns.
-- * Budgets (src/readyagents/routing/budgets.py): Tracker has `RouteBudgetTracker`; the proofs are in
--   Charges and Ceilings.
-- * Delegation (src/readyagents/approvals/delegate.py): Store has `add_delegation`, `revoke_delegation`
--   and `find_delegation` on the delegations that are loaded; the proofs are in Finding. The file itself
--   and the parsing of its time stamps are left out.
-- * RunStore (src/readyagents/run_store/json_store.py, with the types of base.py): Files has the files of
--   the runs by id, their revisions, `save`, `get` and `delete`, Listing `list` and `gc`; the proofs are in
--   Abstract, Revisions, Pages and Collecting. A method is one step: what it does to a file it does under
--   the lock of the run. The directory is a table of files, a record that cannot be read has no entry.
-- * Cost (src/readyagents/cost/meter.py, with `quote_model` of cost/prices.py): Shared has `SharedBudget`,
--   Meter `SpendMeter`, Prices the look-up of a price; the proofs are in Ledger, Reservations and
--   Failures. Amounts are natural numbers; the price of a call is an argument of the meter's operations.
-- * Routing (src/readyagents/routing/select.py and taint.py, with llm/capabilities.py): Capabilities has the
--   matrix of what models can do, Rules `_rule_matches`, `_residency_locked` and `_merged_require`, Ranking
--   `_rank_pool`, Choice `_resolve_rule`, Route `select_route`, Taint `resolve_routing_taint`; Matching has what
--   it is for a rule to match; the proofs are in Screening, Residency, Cheapest and Clear. The breaker of Resilience is asked about each candidate
--   and handed on; the clock is read once for all of them. The pin of an adapter, the paths in a template and the sum of a rate's two prices are
--   arguments; loading the matrix and `as_dict` of a decision are left out.
-- * Wait (src/readyagents/wait/record.py and evaluate.py): Json has the values of a document, Record
--   `WaitRecord` with `as_dict` and `from_dict`, Evaluation `evaluate_wait`; the proofs are in Reading and
--   Readiness. The reading of time stamps and `str` of a number or of a collection are arguments.
-- * Approvals (src/readyagents/approvals/gate.py): Gate has `evaluate_gate`, `actor_is_eligible` and
--   `apply_escalation`; the proofs are in Quorum and Expiry. A vote has the fields that are read. Time
--   stamps are read and written by arguments; the state of a pause is given as it was loaded.
-- * Compaction (src/readyagents/memory/compaction.py): Text has slices, prefixes and joins of texts, Compact
--   `compact_text`, Items `apply_compacted_items`; the proofs are in Compact and Rewriting. The summary that
--   a model writes is an argument, lines are joined by a line break, as the callers do.
-- * Common has the notation and the lemmas that all of them share, Tests of each part concrete inputs.
--
-- The engine is entered by a runner that first takes a lease of the governor; model calls inside
-- of a node ask the breaker, the budget check and the route budgets; events that pass the caps
-- start runs. These calls are made by code that is not modelled, so most parts stand side by side
-- here; routing asks the modelled breaker and prices, and approvals know an actor as delegations do.
--
-- Times and rates are counted in whole ticks and the clock is a function of how often it was
-- read, so that every reading may differ; with fractions of a second the code computes with
-- floats, whose rounding is not modelled. Texts are stripped and put in lower case in ASCII. The
-- engine's node bodies, the condition language and the cancellation token are parameters, with no
-- assumption on what they answer; a body may end by any of the exceptions that the engine
-- handles. Values of inputs and outputs are opaque. The price of a call and the conversion of
-- ceilings from dollars are arguments. Observers, logs, usage counts, time stamps, and the keys
-- of a pause that only tell a person what to do are left out, as are the engine's calls
-- of the spend meter and the marks of the firewall. The snapshot of the meter is left out too.
--
-- The loop of a run has 502 rounds of fuel, since the code stops at 500 steps; the loop of a
-- hand-out has one more round than there are waiters, since each round but the last serves one; a
-- sleep of n milliseconds has n + 1 rounds, since each takes one at least. The request for
-- cancellation is read outside of node bodies; a body that persists is part of the parameter.
pub mod Budgets
pub mod Cancellation
pub mod Common
pub mod Cost
pub mod Routing
pub mod Wait
pub mod Approvals
pub mod Compaction
pub mod Governor
pub mod RunStore
pub mod Triggers
pub mod Resilience
pub mod Delegation
pub mod Engine
