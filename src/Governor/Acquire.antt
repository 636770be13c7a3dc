-- ===== src/Governor/Acquire.antt =====
-- `_acquire_slot` between two waits, `_drop_waiter` and `_release`.
use readyagents_core.Common.{
  ℕ, ◌+◌, String, Bool, true, false, Option, none, some, List, [], ◌∷◌, ◌++◌, ◌||◌, if◌then◌else◌,
  ◌==◌, leb, ℤ, pos, negsuc, pos_part,
}
use readyagents_core.Governor.Slots.{fits, enter, leave}
use readyagents_core.Governor.Throttle.{
  Throttle, tokens_ready, consume_token, next_wake_delay, read_clock, provider_key,
}
use readyagents_core.Governor.State.{Governor, Waiter}
use readyagents_core.Governor.Grant.{interactive, batch, is_granted, drop, unqueue, grant_waiters}

-- `GovernorShutdown`, and `GovernorBackpressure` for a full queue and for a timeout.
pub data Refusal : Type 0 where
  shut_down queue_full timed_out : Refusal

-- How a thread leaves the lock: with a slot, by an exception, or asleep on the condition.
pub data Outcome : Type 0 where
  entered : Outcome
  refused : Refusal → Outcome
  asleep : Waiter → Option ℕ → Outcome

-- `priority <= int(RunPriority.INTERACTIVE)`.
unfoldable pub is_interactive : ℤ → Bool
is_interactive (pos n) = n == 0
is_interactive (negsuc n) = true

unfoldable pub holds : ℕ → List Waiter → Bool
holds seq [] = false
holds seq (w ∷ ws) = w.seq == seq || holds seq ws

-- The interactive queue is searched first; a waiter that stands in neither changes nothing.
unfoldable pub drop_waiter : Waiter → Governor → Governor
unfolding holds drop
drop_waiter w g =
    if holds w.seq g.interactive
    then unqueue interactive w.seq g
    else if holds w.seq g.batch
    then unqueue batch w.seq g
    else g

unfoldable pub enqueue : Waiter → Governor → Governor
unfolding is_interactive
enqueue w g =
    let first = is_interactive w.priority in
    record g {
      interactive = if first then g.interactive ++ w ∷ [] else g.interactive;
      batch = if first then g.batch else g.batch ++ w ∷ [];
      queued = g.queued + 1;
      last_seq = g.last_seq + 1;
    }

module _ (clock : ℕ → ℕ) where
  -- The end of a round: give up at the deadline, or work out the delay and sleep.
  sleep : Waiter → Option ℕ → Governor → Outcome × Governor
  sleep w deadline g =
      let (delay, t) = next_wake_delay clock w.provider g.throttle in
      (asleep w deadline, record g { throttle = t })

  unfoldable pub wait_or_give_up : Waiter → Option ℕ → Governor → Outcome × Governor
  unfolding sleep
  wait_or_give_up w none g = sleep w none g
  wait_or_give_up w (some deadline) g =
      let (now, t) = read_clock clock g.throttle in
      let g' : Governor = record g { throttle = t } in
      if leb deadline now then (refused timed_out, drop_waiter w g') else sleep w (some deadline) g'

  -- A new waiter is queued, and may be served on the spot.
  unfoldable pub wait_in_line : Waiter → Option ℕ → Governor → Outcome × Governor
  wait_in_line w deadline g =
      let g' = grant_waiters clock (enqueue w g) in
      if is_granted g'.granted w.seq then (entered, g') else wait_or_give_up w deadline g'

  -- `self._queued == 0 and self._fits(…) and self._tokens_ready(…)`.
  unfoldable pub fast_path : String → Option String → Governor → Bool × Throttle
  unfolding fits
  fast_path workflow provider g =
      if g.queued == 0
      then (if fits g.limits g.slots workflow provider
          then tokens_ready clock provider g.throttle
          else (false, g.throttle))
      else (false, g.throttle)

  unfoldable pub take_slot : String → Option String → Governor → Governor
  unfolding enter
  take_slot workflow provider g = record g {
    slots = enter g.slots workflow provider;
    throttle = consume_token clock provider g.throttle;
  }

  -- The bounded queue.
  unfoldable pub line_up : String → Option String → ℤ → Option ℕ → Governor → Outcome × Governor
  line_up workflow provider priority deadline g =
      if leb g.limits.queue_bound g.queued
      then (refused queue_full, g)
      else wait_in_line
          (record {
            priority = priority;
            seq = g.last_seq + 1;
            workflow = workflow;
            provider = provider;
          })
          deadline g

  abbrev pub enter_or_line_up :
      String → Option String → ℤ → Option ℕ → Governor → Bool × Throttle → Outcome × Governor
  enter_or_line_up workflow provider priority deadline g (true, t) =
      (entered, take_slot workflow provider (record g { throttle = t }))
  enter_or_line_up workflow provider priority deadline g (false, t) =
      line_up workflow provider priority deadline (record g { throttle = t })

  -- The first round of the loop, in which the thread has no waiter yet.
  unfoldable pub first_round : String → Option String → ℤ → Option ℕ → Governor → Outcome × Governor
  first_round workflow provider priority deadline g =
      if g.shutdown
      then (refused shut_down, g)
      else enter_or_line_up workflow provider priority deadline g (fast_path workflow provider g)

  -- `deadline = None if timeout is None else clock() + max(0.0, timeout)`.
  unfoldable pub acquire_slot :
      String → Option String → ℤ → Option ℤ → Governor → Outcome × Governor
  acquire_slot workflow provider priority none g = first_round workflow provider priority none g
  acquire_slot workflow provider priority (some timeout) g =
      let (now, t) = read_clock clock g.throttle in
      first_round workflow provider priority (some (now + pos_part timeout))
        (record g { throttle = t })

  -- A thread that wakes hands out slots, and then goes round the loop again.
  unfoldable pub wake : Waiter → Option ℕ → Governor → Outcome × Governor
  wake w deadline g =
      let g' = grant_waiters clock g in
      if is_granted g'.granted w.seq
      then (entered, g')
      else if g'.shutdown
      then (refused shut_down, drop_waiter w g')
      else wait_or_give_up w deadline g'

  unfoldable pub release : String → Option String → Governor → Governor
  release workflow provider g =
      grant_waiters clock (record g { slots = leave g.slots workflow (provider_key provider) })
