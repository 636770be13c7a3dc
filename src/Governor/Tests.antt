-- ===== src/Governor/Tests.antt =====
-- Runs of the governor, and its theorems at concrete inputs.
use readyagents_core.Common.{
  ℕ, ◌+◌, ◌<◌, ◌≤◌, ◌≡◌, refl, true, false, none, some, List, [], ◌∷◌, arith, ◌++◌, pos, negsuc,
  All, str_eq, lower, strip, lookup, insert, get_or, all,
}
use readyagents_core.Governor.Slots.{clamp_limit, is_full, provider_full, fits, enter, leave}
use readyagents_core.Governor.Throttle.{
  Throttle, read_clock, has_bucket, bucket_of, refill, tokens_ready, consume_token, ready_for,
  armed, note_retry_after, next_wake_delay, provider_key,
}
use readyagents_core.Governor.State.{Governor, Waiter, Options, new, request_shutdown}
use readyagents_core.Governor.Grant.{
  interactive, is_granted, drop, may_serve, scan, next_waiter, serve, grant_round, grant_loop,
  grant_waiters,
}
use readyagents_core.Governor.Selection.{ByPriority, next_waiter-ByPriority}
use readyagents_core.Governor.Acquire.{
  is_interactive, holds, drop_waiter, enqueue, wait_or_give_up, wait_in_line, fast_path, take_slot,
  line_up, first_round, acquire_slot, wake, release,
}
use readyagents_core.Governor.Lease.{Lease}
use readyagents_core.Governor.Invariants.{Call, acquires, releases, perform, run}
use readyagents_core.Governor.Capacity.{WithinLimits, run-WithinLimits}
use readyagents_core.Governor.Ceiling.{
  Event, by_thread, configures, live, ceiling_at_start, UnderCeiling, live-UnderCeiling,
}
use readyagents_core.Governor.Numbering.{occurs, run-IsNumbered}
use readyagents_core.Governor.Work.{IsOpen, Unserved, release_leaves_nobody}
use readyagents_core.Governor.Closing.{Woken, wake_closed}

abbrev options : Options
options = record {
  global_limit = some (pos 1);
  per_workflow_limit = none;
  per_provider_limit = some (pos 5);
  queue_bound = pos 2;
  provider_rate = none;
  provider_burst = none;
  max_concurrency = some (negsuc 3);
  env = none;
}

abbrev ticks : ℕ → ℕ
ticks n = n

-- The run of a script, with all of the governor open to computation.
trace : Governor → List Call → Governor
unfolding run perform acquire_slot first_round fast_path take_slot line_up wait_in_line
    wait_or_give_up wake release enqueue drop_waiter holds is_interactive grant_waiters grant_loop
    grant_round next_waiter serve scan may_serve is_granted drop fits is_full provider_full enter
    leave tokens_ready ready_for has_bucket bucket_of refill consume_token read_clock
    next_wake_delay note_retry_after armed provider_key lower strip lookup insert get_or all new
    request_shutdown clamp_limit
trace g cs = run ticks g cs

abbrev crowd : List Call
crowd =
    acquires "a" none (pos 1) none
    ∷ acquires "b" none (pos 1) none
    ∷ acquires "c" none (pos 0) none
    ∷ []

-- The limit is one: the second and the third thread wait, the third in front.
crowd_waits :
    ((trace (new options) crowd).slots.global_used ≡ 1) × ((trace (new options) crowd).queued ≡ 2)
unfolding trace
crowd_waits = (refl, refl)

-- A release serves the interactive waiter, who came last.
release_serves_interactive :
    (trace (new options) (crowd ++ releases "a" none ∷ [])).granted ≡ 2 ∷ []
unfolding trace
release_serves_interactive = refl

abbrev script : List Call
script = crowd ++ releases "a" none ∷ acquires "d" (some "OpenAI ") (negsuc 0) (some (pos 3)) ∷ []

new-WithinLimits : WithinLimits (new options)
unfolding new clamp_limit
new-WithinLimits = record {
  total = omega arith;
  workflows = λ w n e. omega arith;
  providers = λ p n e. omega arith;
}

run-WithinLimits_example : WithinLimits (run ticks (new options) script)
run-WithinLimits_example = run-WithinLimits ticks (new options) script new-WithinLimits

abbrev events : List Event
events =
    by_thread (acquires "a" none (pos 1) none)
    ∷ configures (some (pos 9000)) none none none none
    ∷ by_thread (acquires "b" none (pos 1) none)
    ∷ []

live-UnderCeiling_example :
    UnderCeiling (ceiling_at_start options) (live ticks (new options) events)
live-UnderCeiling_example = live-UnderCeiling ticks options events

abbrev seated : Governor
seated = run ticks (new options) crowd

seated-IsOpen : IsOpen seated
seated-IsOpen = record {
  open_ = unfold trace in refl;
  unthrottled = record {
    no_rate = unfold trace in refl;
    no_retry = unfold trace in refl;
    no_buckets = unfold trace in refl;
  };
  numbered = run-IsNumbered ticks options crowd;
}

release_leaves_nobody_example :
    All (Unserved (release ticks "a" none seated)) (release ticks "a" none seated).interactive
    × All (Unserved (release ticks "a" none seated)) (release ticks "a" none seated).batch
release_leaves_nobody_example = release_leaves_nobody ticks seated "a" none seated-IsOpen

abbrev closed : Governor
closed = (request_shutdown seated).1

closed_shut : closed.shutdown ≡ true
closed_shut = unfold trace request_shutdown in refl

closed_once : occurs 1 closed.interactive + occurs 1 closed.batch ≤ 1
closed_once = unfold trace request_shutdown occurs in omega arith

abbrev sleeper : Waiter
sleeper = record { priority = pos 1; seq = 1; workflow = "b"; provider = none }

wake_closed_example : Woken closed sleeper (wake ticks sleeper none closed)
wake_closed_example = wake_closed ticks sleeper none closed closed_shut closed_once

abbrev quiet : Throttle
quiet = record {
  provider_rate = none;
  provider_burst = none;
  retry_until = [];
  buckets = [];
  reads = 4;
}

openai_named : str_eq (lower (strip " OpenAI")) "" ≡ false
unfolding lower strip
openai_named = refl

early : ticks (note_retry_after ticks " OpenAI" (pos 9) quiet).reads < ticks quiet.reads + 9
unfolding trace
early = omega arith

next_waiter-ByPriority_example :
    ByPriority ticks
      (record seated { slots = leave seated.slots "a" none })
      interactive
      (record { priority = pos 0; seq = 2; workflow = "c"; provider = none })
next_waiter-ByPriority_example =
    next_waiter-ByPriority ticks (record seated { slots = leave seated.slots "a" none }) interactive
      (record { priority = pos 0; seq = 2; workflow = "c"; provider = none }) (unfold trace in refl)

abbrev lease : Lease
lease = record { workflow = "a"; provider = none; nested = false; released = false }
