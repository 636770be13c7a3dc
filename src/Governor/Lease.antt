-- ===== src/Governor/Lease.antt =====
-- `acquire` and `GovernorLease`: leases that nest within a thread. `depth` is the thread's own
-- count `_TLS.depth`; the governor never sees it.
use readyagents_core.Common.{
  ℕ, zero, suc, ◌+◌, ◌-◌, String, Bool, true, false, Option, ℤ, if◌then◌else◌, str_eq,
}
use readyagents_core.Governor.Throttle.{provider_key}
use readyagents_core.Governor.State.{Governor, Waiter}
use readyagents_core.Governor.Acquire.{
  Refusal, Outcome, entered, refused, asleep, acquire_slot, wake, release,
}

pub record Lease : Type 0 where
  pub workflow : String
  pub provider : Option String
  pub nested : Bool
  pub released : Bool

-- What a call of `acquire` comes to, at once or at a wait.
pub data Acquired : Type 0 where
  leased : Lease → Acquired
  failed : Refusal → Acquired
  waiting : Waiter → Option ℕ → Acquired

abbrev outer_name : String → String
outer_name workflow = if str_eq workflow "" then "-" else workflow

-- Only a slot that was entered sets the depth, to one.
abbrev pub leave_lock : String → Option String → ℕ → Outcome × Governor → Acquired × ℕ × Governor
leave_lock workflow provider depth (entered, g) = (
  leased (record { workflow = workflow; provider = provider; nested = false; released = false }),
  1,
  g,
)
leave_lock workflow provider depth (refused r, g) = (failed r, depth, g)
leave_lock workflow provider depth (asleep w deadline, g) = (waiting w deadline, depth, g)

module _ (clock : ℕ → ℕ) where
  unfoldable pub acquire :
      ℕ → String → Option String → ℤ → Option ℤ → Governor → Acquired × ℕ × Governor
  acquire (suc depth) workflow provider priority timeout g = (
    leased (record { workflow = workflow; provider = provider; nested = true; released = false }),
    suc depth + 1,
    g,
  )
  acquire zero workflow provider priority timeout g =
      leave_lock (outer_name workflow) provider zero
        (acquire_slot clock (outer_name workflow) (provider_key provider) priority timeout g)

  -- The rest of an `acquire` that was waiting, at a wake-up.
  unfoldable pub resume :
      String → Option String → Waiter → Option ℕ → Governor → Acquired × ℕ × Governor
  resume workflow provider w deadline g =
      leave_lock (outer_name workflow) provider zero (wake clock w deadline g)

  -- `if depth > 0: _TLS.depth = depth - 1`; a lease that does not nest gives its slot back.
  unfoldable pub release_lease : Lease → ℕ → Governor → Lease × ℕ × Governor
  release_lease lease depth g = if lease.released then (lease, depth, g) else (
    record lease { released = true },
    depth - 1,
    if lease.nested then g else release clock lease.workflow lease.provider g,
  )
