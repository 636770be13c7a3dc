-- ===== src/Governor/Capacity.antt =====
-- The slots in use against the limits, over the calls of threads.
use readyagents_core.Common.{
  ℕ, ◌+◌, ◌≤◌, ◌≡◌, String, true, Option, none, some, List, arith, if_cases,
}
use readyagents_core.Governor.Slots.{Limits, Slots, fits, enter, leave}
use readyagents_core.Governor.Throttle.{Throttle}
use readyagents_core.Governor.State.{Governor, Waiter}
use readyagents_core.Governor.Grant.{Lane, interactive, batch, serve}
use readyagents_core.Governor.Selection.{ByPriority, ByPriority-facts}
use readyagents_core.Governor.Acquire.{holds, drop_waiter, enqueue}
use readyagents_core.Governor.Invariants.{Call, run, Invariant, run-keeps}

-- Each count is within the limit that is set for it.
pub record IsWithin (l : Limits) (s : Slots) : Type 0 where
  pub total : s.global_used ≤ l.global_limit
  pub workflows : (w : String) (n : ℕ) → l.per_workflow_limit ≡ some n → s.wf_used w ≤ n
  pub providers : (p : String) (n : ℕ) → l.per_provider_limit ≡ some n → s.prov_used p ≤ n

module _ (l : Limits) (s : Slots) (workflow : String) where
  enter-total :
      (provider : Option String)
      → fits l s workflow provider ≡ true
      → s.global_used + 1 ≤ l.global_limit
  unfolding fits
  enter-total provider h = ground arith

  enter-workflows :
      (provider : Option String)
      → fits l s workflow provider ≡ true
      → IsWithin l s
      → (w : String) (n : ℕ) → l.per_workflow_limit ≡ some n
      → (enter s workflow provider).wf_used w ≤ n
  unfolding fits enter
  enter-workflows provider h v w n e = ground (arith, v.workflows w n e)

  enter-providers :
      (provider : Option String)
      → fits l s workflow provider ≡ true
      → IsWithin l s
      → (p : String) (n : ℕ) → l.per_provider_limit ≡ some n
      → (enter s workflow provider).prov_used p ≤ n
  unfolding fits enter
  enter-providers none h v p n e = v.providers p n e
  enter-providers (some q) h v p n e = ground (arith, v.providers p n e)

  enter-IsWithin :
      (provider : Option String)
      → fits l s workflow provider ≡ true
      → IsWithin l s
      → IsWithin l (enter s workflow provider)
  unfolding enter
  enter-IsWithin provider h v = record {
    total = enter-total provider h;
    workflows = enter-workflows provider h v;
    providers = enter-providers provider h v;
  }

  leave-providers :
      (provider : Option String)
      → IsWithin l s
      → (p : String) (n : ℕ) → l.per_provider_limit ≡ some n
      → (leave s workflow provider).prov_used p ≤ n
  unfolding leave
  leave-providers none v p n e = v.providers p n e
  leave-providers (some q) v p n e = ground (arith, v.providers p n e, v.providers q n e)

  leave-IsWithin :
      (provider : Option String) → IsWithin l s → IsWithin l (leave s workflow provider)
  unfolding leave
  leave-IsWithin provider v = record {
    total = omega (arith, v.total);
    workflows = λ w n e. ground (arith, v.workflows w n e, v.workflows workflow n e);
    providers = leave-providers provider v;
  }

abbrev pub WithinLimits : Governor → Type 0
WithinLimits g = IsWithin g.limits g.slots

module _ (clock : ℕ → ℕ) where
  serve-WithinLimits :
      (g : Governor) (lane : Lane) (w : Waiter) (t : Throttle)
      → ByPriority clock g lane w
      → WithinLimits g
      → WithinLimits (serve clock g lane w t)
  unfolding serve
  serve-WithinLimits g interactive w t c h =
      enter-IsWithin _ _ w.workflow w.provider (ByPriority-facts clock g interactive w c).0 h
  serve-WithinLimits g batch w t c h =
      enter-IsWithin _ _ w.workflow w.provider (ByPriority-facts clock g batch w c).0 h

  drop_waiter-WithinLimits :
      (g : Governor) (w : Waiter) → WithinLimits g → WithinLimits (drop_waiter w g)
  unfolding drop_waiter
  drop_waiter-WithinLimits g w h =
      if_cases WithinLimits (holds w.seq g.interactive) (λ e. h)
        (λ e. if_cases WithinLimits (holds w.seq g.batch) (λ _. h) (λ _. h))

  WithinLimits-Invariant : Invariant clock WithinLimits
  unfolding enqueue
  WithinLimits-Invariant = record {
    quiet = λ g t h. h;
    serves = serve-WithinLimits;
    enters =
        λ g workflow provider open_ fit h. enter-IsWithin g.limits g.slots workflow provider fit h;
    queues = λ g w room new h. h;
    drops = drop_waiter-WithinLimits;
    leaves = λ g workflow provider h. leave-IsWithin g.limits g.slots workflow provider h;
    shuts = λ g h. h;
  }

  -- From a state within its limits, no sequence of calls by threads leaves it: the slots in use stay
  -- within the global limit, within the limit of each workflow and within that of each provider.
  pub run-WithinLimits :
      (g : Governor) (cs : List Call) → WithinLimits g → WithinLimits (run clock g cs)
  run-WithinLimits = run-keeps clock WithinLimits WithinLimits-Invariant
