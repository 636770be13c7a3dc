-- ===== src/Governor/State.antt =====
-- The state of `ConcurrencyGovernor`, its construction, `configure` and `request_shutdown`.
use readyagents_core.Common.{
  ℕ, ◌*◌, String, Bool, true, false, Option, none, some, List, [], ◌∷◌, ◌++◌, ℤ, pos, pos_part, max,
  if◌then◌else◌,
}
use readyagents_core.Governor.Slots.{Limits, Slots, no_slots, clamp_limit}
use readyagents_core.Governor.Throttle.{Throttle, one_token}

abbrev pub abs_ceiling : ℕ
abs_ceiling = 4096

-- `_Waiter`. Its event is set and never waited for: a waiting thread sleeps on the condition.
-- Its flag `granted`, which outlives its place in the queue, is kept by the governor.
pub record Waiter : Type 0 where
  pub priority : ℤ
  pub seq : ℕ
  pub workflow : String
  pub provider : Option String

pub record Governor : Type 0 where
  pub limits : Limits
  pub slots : Slots
  pub throttle : Throttle
  pub interactive : List Waiter
  pub batch : List Waiter
  pub queued : ℕ
  pub last_seq : ℕ
  -- The waiters whose flag `granted` is set, by number.
  pub granted : List ℕ
  pub shutdown : Bool
  -- The callbacks of `on_shutdown`, by number.
  pub hooks : List ℕ

-- `hard_concurrency_ceiling` after the text is read: `none` when it is missing or no integer.
unfoldable pub hard_concurrency_ceiling : Option ℤ → ℕ
unfolding clamp_limit
hard_concurrency_ceiling none = abs_ceiling
hard_concurrency_ceiling (some value) = clamp_limit value abs_ceiling

abbrev pub clamp_option : Option ℤ → ℕ → Option ℕ
clamp_option none ceiling = none
clamp_option (some n) ceiling = some (clamp_limit n ceiling)

-- What the constructor is called with, a rate and a burst in the units of the throttle. `env` is the
-- ceiling that the environment sets.
pub record Options : Type 0 where
  pub global_limit : Option ℤ
  pub per_workflow_limit : Option ℤ
  pub per_provider_limit : Option ℤ
  pub queue_bound : ℤ
  pub provider_rate : Option ℤ
  pub provider_burst : Option ℤ
  pub max_concurrency : Option ℤ
  pub env : Option ℤ

abbrev floor_option : Option ℤ → Option ℕ
floor_option none = none
floor_option (some z) = some (pos_part z)

-- Without a burst, a rate makes one: `max(1.0, rate)`, one token against the tokens of a second.
abbrev initial_burst : Option ℤ → Option ℤ → Option ℕ
initial_burst (some burst) rate = some (pos_part burst)
initial_burst none none = none
initial_burst none (some rate) = some (max one_token (1000000 * pos_part rate))

abbrev pub ceiling_of : Option ℤ → Option ℤ → ℕ
ceiling_of none env = hard_concurrency_ceiling env
ceiling_of (some n) env = clamp_limit n abs_ceiling

abbrev pub global_of : Option ℤ → ℕ → ℕ
global_of none ceiling = clamp_limit (pos ceiling) ceiling
global_of (some n) ceiling = clamp_limit n ceiling

abbrev limits_of : Options → ℕ → ℕ → Limits
limits_of o ceiling global = record {
  max_concurrency = ceiling;
  global_limit = global;
  per_workflow_limit = clamp_option o.per_workflow_limit global;
  per_provider_limit = clamp_option o.per_provider_limit global;
  queue_bound = max 1 (pos_part o.queue_bound);
}

unfoldable pub new : Options → Governor
unfolding hard_concurrency_ceiling clamp_limit
new o = record {
  limits =
      let ceiling = ceiling_of o.max_concurrency o.env in
      limits_of o ceiling (global_of o.global_limit ceiling);
  slots = no_slots;
  throttle = record {
    provider_rate = floor_option o.provider_rate;
    provider_burst = initial_burst o.provider_burst o.provider_rate;
    retry_until = [];
    buckets = [];
    reads = 0;
  };
  interactive = [];
  batch = [];
  queued = 0;
  last_seq = 0;
  granted = [];
  shutdown = false;
  hooks = [];
}

abbrev keep_or : Option ℤ → ℕ → ℕ → ℕ
keep_or none old ceiling = old
keep_or (some n) old ceiling = clamp_limit n ceiling

abbrev keep_or_option : Option ℤ → Option ℕ → ℕ → Option ℕ
keep_or_option none old ceiling = old
keep_or_option (some n) old ceiling = some (clamp_limit n ceiling)

abbrev keep_or_floor : Option ℤ → Option ℕ → Option ℕ
keep_or_floor none old = old
keep_or_floor (some z) old = some (pos_part z)

-- `configure`: the new global limit is set first and bounds the other two.
unfoldable pub configure :
    Option ℤ → Option ℤ → Option ℤ → Option ℤ → Option ℤ → Governor → Governor
unfolding clamp_limit
configure global_limit per_workflow_limit per_provider_limit provider_rate provider_burst g =
    let l = g.limits in
    let global = keep_or global_limit l.global_limit l.max_concurrency in
    record g {
      limits = record l {
        global_limit = global;
        per_workflow_limit = keep_or_option per_workflow_limit l.per_workflow_limit global;
        per_provider_limit = keep_or_option per_provider_limit l.per_provider_limit global;
      };
      throttle = record g.throttle {
        provider_rate = keep_or_floor provider_rate g.throttle.provider_rate;
        provider_burst = keep_or_floor provider_burst g.throttle.provider_burst;
      };
    }

unfoldable pub on_shutdown : ℕ → Governor → Governor
on_shutdown hook g = record g { hooks = g.hooks ++ hook ∷ [] }

-- The hooks that the caller has to run, outside the lock: all at the first request, none later.
unfoldable pub request_shutdown : Governor → List ℕ × Governor
request_shutdown g = if g.shutdown then ([], g) else (g.hooks, record g { shutdown = true })
