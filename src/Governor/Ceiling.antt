-- ===== src/Governor/Ceiling.antt =====
-- The slots in use against the hard ceiling on concurrency, with `configure` between the calls.
use readyagents_core.Common.{
  ℕ, ◌≤◌, ◌≡◌, refl, String, true, Option, none, some, List, [], ◌∷◌, ℤ, pos, negsuc, arith,
  if_cases,
}
use readyagents_core.Governor.Slots.{clamp_limit, fits, enter, leave}
use readyagents_core.Governor.Throttle.{Throttle}
use readyagents_core.Governor.State.{
  Governor, Waiter, Options, abs_ceiling, hard_concurrency_ceiling, ceiling_of, global_of, new,
  configure,
}
use readyagents_core.Governor.Grant.{Lane, interactive, batch, serve}
use readyagents_core.Governor.Selection.{ByPriority, ByPriority-facts}
use readyagents_core.Governor.Acquire.{holds, drop_waiter, enqueue}
use readyagents_core.Governor.Invariants.{Call, perform, Invariant, perform-keeps}

-- The limit and the slots in use stand under a ceiling, which is the governor's and at most `abs_ceiling`.
pub record UnderCeiling (bound : ℕ) (g : Governor) : Type 0 where
  pub limit : g.limits.global_limit ≤ bound
  pub some_room : 1 ≤ g.limits.global_limit
  pub same : g.limits.max_concurrency ≡ bound
  pub least : bound ≤ abs_ceiling
  pub used : g.slots.global_used ≤ bound

clamp_bounds : (z : ℤ) (c : ℕ) → 1 ≤ c → (1 ≤ clamp_limit z c) × (clamp_limit z c ≤ c)
unfolding clamp_limit
clamp_bounds (pos n) c h = omega arith
clamp_bounds (negsuc n) c h = omega arith

ceiling_bounds : (m env : Option ℤ) → (1 ≤ ceiling_of m env) × (ceiling_of m env ≤ abs_ceiling)
unfolding hard_concurrency_ceiling
ceiling_bounds none none = omega arith
ceiling_bounds none (some z) = clamp_bounds z abs_ceiling (omega arith)
ceiling_bounds (some n) env = clamp_bounds n abs_ceiling (omega arith)

global_bounds :
    (global : Option ℤ) (c : ℕ) → 1 ≤ c → (1 ≤ global_of global c) × (global_of global c ≤ c)
global_bounds none c h = clamp_bounds (pos c) c h
global_bounds (some n) c h = clamp_bounds n c h

-- The ceiling that a governor is made with.
abbrev pub ceiling_at_start : Options → ℕ
ceiling_at_start o = ceiling_of o.max_concurrency o.env

pub new-UnderCeiling : (o : Options) → UnderCeiling (ceiling_at_start o) (new o)
unfolding new
new-UnderCeiling o =
    let ceiling = ceiling_bounds o.max_concurrency o.env in
    let global = global_bounds o.global_limit _ ceiling.0 in
    record {
      limit = global.1;
      some_room = global.0;
      same = refl;
      least = ceiling.1;
      used = omega arith;
    }

abbrev pub Limit : Type 0
Limit = Option ℤ

-- A call by a thread, or the operator's `configure`.
pub data Event : Type 0 where
  by_thread : Call → Event
  configures : Limit → Limit → Limit → Limit → Limit → Event

configure-UnderCeiling :
    (bound : ℕ) (a b c d e : Limit) (g : Governor)
    → UnderCeiling bound g
    → UnderCeiling bound (configure a b c d e g)
unfolding configure
configure-UnderCeiling bound none b c d e g h = record {
  limit = h.limit;
  some_room = h.some_room;
  same = h.same;
  least = h.least;
  used = h.used;
}
configure-UnderCeiling bound (some z) b c d e g h =
    let bounds =
      clamp_bounds z g.limits.max_concurrency (omega (arith, h.limit, h.some_room, h.same)) in
    record {
      limit = omega (arith, bounds.1, h.same);
      some_room = bounds.0;
      same = h.same;
      least = h.least;
      used = h.used;
    }

module _ (clock : ℕ → ℕ) where
  pub react : Governor → Event → Governor
  react g (by_thread c) = perform clock g c
  react g (configures a b c d e) = configure a b c d e g

  pub live : Governor → List Event → Governor
  live g [] = g
  live g (e ∷ es) = live (react g e) es

  enter-UnderCeiling :
      (bound : ℕ) (g : Governor) (w : String) (p : Option String)
      → fits g.limits g.slots w p ≡ true
      → UnderCeiling bound g
      → (enter g.slots w p).global_used ≤ bound
  unfolding fits enter
  enter-UnderCeiling bound g w p fit h = ground (arith, h.limit)

  serve-UnderCeiling :
      (bound : ℕ) (g : Governor) (lane : Lane) (w : Waiter) (t : Throttle)
      → ByPriority clock g lane w
      → UnderCeiling bound g
      → UnderCeiling bound (serve clock g lane w t)
  unfolding serve
  serve-UnderCeiling bound g interactive w t c h = record {
    limit = h.limit;
    some_room = h.some_room;
    same = h.same;
    least = h.least;
    used = enter-UnderCeiling bound g _ _ (ByPriority-facts clock g interactive w c).0 h;
  }
  serve-UnderCeiling bound g batch w t c h = record {
    limit = h.limit;
    some_room = h.some_room;
    same = h.same;
    least = h.least;
    used = enter-UnderCeiling bound g _ _ (ByPriority-facts clock g batch w c).0 h;
  }

  drop_waiter-UnderCeiling :
      (bound : ℕ) (g : Governor) (w : Waiter)
      → UnderCeiling bound g
      → UnderCeiling bound (drop_waiter w g)
  unfolding drop_waiter
  drop_waiter-UnderCeiling bound g w h =
      if_cases (UnderCeiling bound) (holds w.seq g.interactive) (λ _. omega (arith, h))
        (λ _. if_cases (UnderCeiling bound) (holds w.seq g.batch) (λ _. omega (arith, h)) (λ _. h))

  UnderCeiling-Invariant : (bound : ℕ) → Invariant clock (UnderCeiling bound)
  unfolding enqueue leave
  UnderCeiling-Invariant bound = record {
    quiet = λ g t h. omega arith;
    serves = serve-UnderCeiling bound;
    enters = λ g workflow provider open_ fit h. record {
      limit = h.limit;
      some_room = h.some_room;
      same = h.same;
      least = h.least;
      used = enter-UnderCeiling bound g workflow provider fit h;
    };
    queues = λ g w room new h. omega arith;
    drops = drop_waiter-UnderCeiling bound;
    leaves = λ g workflow provider h. omega arith;
    shuts = λ g h. omega arith;
  }

  live-keeps :
      (bound : ℕ) (g : Governor) (es : List Event)
      → UnderCeiling bound g
      → UnderCeiling bound (live g es)
  unfolding live react
  live-keeps bound g [] h = h
  live-keeps bound g (by_thread c ∷ es) h =
      live-keeps bound (perform clock g c) es
        (perform-keeps clock (UnderCeiling bound) (UnderCeiling-Invariant bound) g c h)
  live-keeps bound g (configures a b c d e ∷ es) h =
      live-keeps bound (configure a b c d e g) es (configure-UnderCeiling bound a b c d e g h)

  -- Whatever a governor is made with, and whatever threads and `configure` do to it in whatever order, its
  -- ceiling stays the one that it was made with, which is at most 4096, and the global limit, which is at
  -- least 1, and the slots in use are at most that ceiling.
  pub live-UnderCeiling :
      (o : Options) (es : List Event) → UnderCeiling (ceiling_at_start o) (live (new o) es)
  live-UnderCeiling o es = live-keeps (ceiling_at_start o) (new o) es (new-UnderCeiling o)
