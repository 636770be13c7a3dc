-- ===== src/Governor/Grant.antt =====
-- `_grant_waiters_locked`: slots that are free go to the waiters, the interactive queue first.
use readyagents_core.Common.{
  ℕ, zero, suc, ◌+◌, ◌-◌, Bool, true, false, Option, none, some, List, [], ◌∷◌, ◌||◌, if◌then◌else◌,
  ◌==◌, length,
}
use readyagents_core.Governor.Slots.{fits, enter}
use readyagents_core.Governor.Throttle.{Throttle, tokens_ready, consume_token}
use readyagents_core.Governor.State.{Governor, Waiter}

-- Whether the flag `granted` of a waiter is set.
unfoldable pub is_granted : List ℕ → ℕ → Bool
is_granted [] seq = false
is_granted (n ∷ ns) seq = n == seq || is_granted ns seq

-- `queue.remove(waiter)`: waiters are told apart by their numbers.
unfoldable pub drop : ℕ → List Waiter → List Waiter
drop seq [] = []
drop seq (w ∷ ws) = if w.seq == seq then ws else w ∷ drop seq ws

-- The two deques.
pub data Lane : Type 0 where
  interactive batch : Lane

abbrev pub from_lane : Lane → Option Waiter → Option (Lane × Waiter)
from_lane lane none = none
from_lane lane (some w) = some (lane, w)

-- A waiter leaves its queue, and `_queued` goes down: `max(0, n - 1)`.
abbrev pub unqueue : Lane → ℕ → Governor → Governor
unqueue interactive seq g = record g { interactive = drop seq g.interactive; queued = g.queued - 1 }
unqueue batch seq g = record g { batch = drop seq g.batch; queued = g.queued - 1 }

module _ (clock : ℕ → ℕ) where
  -- The body of the scan at one waiter: is it to be served now? A waiter that does not fit is not
  -- asked for tokens.
  unfoldable pub may_serve : Governor → Waiter → Throttle → Bool × Throttle
  unfolding fits
  may_serve g w t =
      if is_granted g.granted w.seq
      then (false, t)
      else if g.shutdown
      then (false, t)
      else if fits g.limits g.slots w.workflow w.provider
      then tokens_ready clock w.provider t
      else (false, t)

  -- The first waiter of a queue that is to be served.
  unfoldable pub scan : Governor → List Waiter → Throttle → Option Waiter × Throttle
  scan g [] t = (none, t)
  scan g (w ∷ ws) t =
      let (ready, t') = may_serve g w t in
      let rest = scan g ws t' in if ready then (some w, t') else rest

  -- The interactive queue, and the batch queue if that serves nobody.
  abbrev pub or_batch : Governor → Option Waiter × Throttle → Option (Lane × Waiter) × Throttle
  or_batch g (some w, t) = (from_lane interactive (some w), t)
  or_batch g (none, t) = let (later, t') = scan g g.batch t in (from_lane batch later, t')

  unfoldable pub next_waiter : Governor → Option (Lane × Waiter) × Throttle
  next_waiter g = or_batch g (scan g g.interactive g.throttle)

  -- What happens to the waiter that is served.
  unfoldable pub serve : Governor → Lane → Waiter → Throttle → Governor
  unfolding enter drop
  serve g lane w t =
      let g' : Governor = unqueue lane w.seq g in
      record g' {
        slots = enter g.slots w.workflow w.provider;
        throttle = consume_token clock w.provider t;
        granted = w.seq ∷ g.granted;
      }

  abbrev pub after_scan : Governor → Option (Lane × Waiter) × Throttle → Bool × Governor
  after_scan g (none, t) = (false, record g { throttle = t })
  after_scan g (some (lane, w), t) = (true, serve g lane w t)

  -- One round of the outer loop, with its flag `progressed`.
  unfoldable pub grant_round : Governor → Bool × Governor
  grant_round g = after_scan g (next_waiter g)

  unfoldable pub grant_loop : ℕ → Governor → Governor
  grant_loop zero g = g
  grant_loop (suc fuel) g =
      let (progressed, g') = grant_round g in
      let rest = grant_loop fuel g' in if progressed then rest else g'

  -- Each round but the last takes a waiter from a queue: the fuel is one more than the waiters.
  unfoldable pub grant_waiters : Governor → Governor
  grant_waiters g = grant_loop (suc (length g.interactive + length g.batch)) g
