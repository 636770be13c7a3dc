-- ===== src/Governor/Queues.antt =====
-- `_queued` against the two queues, and the bound of the queue.
use readyagents_core.Common.{
  ℕ, ◌+◌, ◌≤◌, ◌≡◌, true, List, [], ◌∷◌, ◌++◌, arith, if_cases, length, length-append,
}
use readyagents_core.Governor.Throttle.{Throttle}
use readyagents_core.Governor.State.{Governor, Waiter, Options, new}
use readyagents_core.Governor.Grant.{Lane, interactive, batch, drop, serve}
use readyagents_core.Governor.Selection.{Chosen, ByPriority}
use readyagents_core.Governor.Acquire.{holds, drop_waiter, enqueue}
use readyagents_core.Governor.Invariants.{Call, run, Invariant, run-keeps}

pub record IsCounted (g : Governor) : Type 0 where
  pub counted : g.queued ≡ length g.interactive + length g.batch
  pub bounded : g.queued ≤ g.limits.queue_bound

-- A waiter that stands in a queue leaves a queue shorter by one.
pub length-drop_at :
    (w : Waiter) (before after : List Waiter)
    → length (drop w.seq (before ++ w ∷ after)) + 1 ≡ length (before ++ w ∷ after)
unfolding drop
length-drop_at w [] after = ground arith
length-drop_at w (v ∷ before) after = ground (arith, length-drop_at w before after)

length-drop_held :
    (seq : ℕ) (queue : List Waiter)
    → holds seq queue ≡ true
    → length (drop seq queue) + 1 ≡ length queue
unfolding holds drop
length-drop_held seq [] h = ground arith
length-drop_held seq (v ∷ vs) h = ground (arith, length-drop_held seq vs)

module _ (clock : ℕ → ℕ) where
  pub length-drop-Chosen :
      (g : Governor) (queue : List Waiter) (w : Waiter)
      → Chosen clock g queue w
      → length (drop w.seq queue) + 1 ≡ length queue
  length-drop-Chosen g queue w c = rw c.stands (length-drop_at w c.before c.after)

  serve-IsCounted :
      (g : Governor) (lane : Lane) (w : Waiter) (t : Throttle)
      → ByPriority clock g lane w
      → IsCounted g
      → IsCounted (serve clock g lane w t)
  unfolding serve
  serve-IsCounted g interactive w t c h = omega (arith, h, length-drop-Chosen g g.interactive w c)
  serve-IsCounted g batch w t c h = omega (arith, h, length-drop-Chosen g g.batch w c.1)

  drop_waiter-IsCounted : (g : Governor) (w : Waiter) → IsCounted g → IsCounted (drop_waiter w g)
  unfolding drop_waiter
  drop_waiter-IsCounted g w h =
      if_cases IsCounted (holds w.seq g.interactive)
        (λ e. omega (arith, h, length-drop_held w.seq g.interactive e))
        (λ _.
          if_cases IsCounted (holds w.seq g.batch)
            (λ e. omega (arith, h, length-drop_held w.seq g.batch e)) (λ _. h))

  enqueue-IsCounted :
      (g : Governor) (w : Waiter)
      → g.queued + 1 ≤ g.limits.queue_bound
      → IsCounted g
      → IsCounted (enqueue w g)
  unfolding enqueue
  enqueue-IsCounted g w room h = record {
    counted =
        ground (arith, h, length-append g.interactive (w ∷ []), length-append g.batch (w ∷ []));
    bounded = room;
  }

  IsCounted-Invariant : Invariant clock IsCounted
  IsCounted-Invariant = record {
    quiet = λ g t h. omega arith;
    serves = serve-IsCounted;
    enters = λ g workflow provider open_ fit h. omega arith;
    queues = λ g w room new h. enqueue-IsCounted g w (ground arith) h;
    drops = drop_waiter-IsCounted;
    leaves = λ g workflow provider h. omega arith;
    shuts = λ g h. omega arith;
  }

  -- After any sequence of calls on a new governor the queue counter is the number of waiting threads
  -- in the two queues, and is at most the bound of the queue.
  pub run-IsCounted : (o : Options) (cs : List Call) → IsCounted (run clock (new o) cs)
  unfolding new
  run-IsCounted o cs = run-keeps clock IsCounted IsCounted-Invariant (new o) cs (omega arith)
