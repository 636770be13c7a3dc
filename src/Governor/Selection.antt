-- ===== src/Governor/Selection.antt =====
-- Whom `_grant_waiters_locked` chooses among the waiters of both queues.
use readyagents_core.Common.{
  ℕ, ◌≡◌, refl, ap, ◌∙◌, true, false, Option, none, some, List, [], ◌∷◌, ◌++◌, arith, inl, inr,
  Bool-cases, Option-cases, if_cases, All,
}
use readyagents_core.Governor.Slots.{fits}
use readyagents_core.Governor.Throttle.{Throttle}
use readyagents_core.Governor.State.{Governor, Waiter}
use readyagents_core.Governor.Grant.{
  Lane, interactive, batch, from_lane, is_granted, may_serve, scan, or_batch, next_waiter,
}

-- What the tagging of the batch queue's answer says of the answer.
from_lane-some :
    {lane lane' : Lane} (o : Option Waiter) {w : Waiter}
    → from_lane lane o ≡ some (lane', w)
    → (o ≡ some w) × (lane ≡ lane')
from_lane-some none h = cc
from_lane-some (some v) h = ground arith

from_lane-none : (lane : Lane) (o : Option Waiter) → from_lane lane o ≡ none → o ≡ none
from_lane-none lane none h = refl
from_lane-none lane (some v) h = cc

module _ (clock : ℕ → ℕ) where
  -- The throttle after some waiters have been looked at: looking refills buckets and reads the clock.
  pub data Consulted (g : Governor) (t : Throttle) : Throttle → Type 0 where
    fresh : Consulted g t t
    looked :
        {u v : Throttle} (w : Waiter)
        → Consulted g t u
        → v ≡ (may_serve clock g w u).1
        → Consulted g t v

  -- The waiter was looked at in this hand-out, and not served.
  abbrev pub Passed : Governor → Waiter → Type 0
  Passed g w = (u : Throttle) × Consulted g g.throttle u × ((may_serve clock g w u).0 ≡ false)

  -- The waiter is the first of the queue that was not passed over.
  pub record Chosen (g : Governor) (queue : List Waiter) (w : Waiter) : Type 0 where
    pub before : List Waiter
    pub after : List Waiter
    pub stands : queue ≡ before ++ w ∷ after
    pub passed : All (Passed g) before
    pub at : Throttle
    pub consulted : Consulted g g.throttle at
    pub ready : (may_serve clock g w at).0 ≡ true

  -- The throttle that a scan leaves.
  Consulted-scan :
      (g : Governor) (queue : List Waiter) (t : Throttle)
      → Consulted g g.throttle t
      → Consulted g g.throttle (scan clock g queue t).1
  unfolding scan
  Consulted-scan g [] t c = c
  Consulted-scan g (w ∷ ws) t c =
      let next = looked w c refl in
      if_cases After (may_serve clock g w t).0 (λ e. next)
        (λ e. Consulted-scan g ws (may_serve clock g w t).1 next)
    where
      After : Option Waiter × Throttle → Type 0
      After r = Consulted g g.throttle r.1

  pub scan-none :
      (g : Governor) (queue : List Waiter) (t : Throttle)
      → Consulted g g.throttle t
      → (scan clock g queue t).0 ≡ none
      → All (Passed g) queue
  unfolding scan
  scan-none g [] t c h = tt
  scan-none g (w ∷ ws) t c h = elim (Bool-cases (may_serve clock g w t).0) [
    | inl e ↦ cc ((rw e at h))
    | inr e ↦ ((t, c, e), scan-none g ws (may_serve clock g w t).1 (looked w c refl) (rw e at h))
  ]

  Chosen-here :
      (g : Governor) (v w : Waiter) (vs : List Waiter) (t : Throttle)
      → v ≡ w
      → Consulted g g.throttle t
      → (may_serve clock g v t).0 ≡ true
      → Chosen g (v ∷ vs) w
  Chosen-here g v w vs t same c e = record {
    before = [];
    after = vs;
    stands = ap (λ u. u ∷ vs) same;
    passed = tt;
    at = t;
    consulted = c;
    ready = rw (← same) e;
  }

  Chosen-later :
      (g : Governor) (v w : Waiter) (vs : List Waiter)
      → Passed g v
      → Chosen g vs w
      → Chosen g (v ∷ vs) w
  Chosen-later g v w vs skip c = record {
    before = v ∷ c.before;
    after = c.after;
    stands = ap (◌∷◌ v) c.stands;
    passed = (skip, c.passed);
    at = c.at;
    consulted = c.consulted;
    ready = c.ready;
  }

  pub scan-some :
      (g : Governor) (queue : List Waiter) (t : Throttle) (w : Waiter)
      → Consulted g g.throttle t
      → (scan clock g queue t).0 ≡ some w
      → Chosen g queue w
  unfolding scan
  scan-some g [] t w c h = cc
  scan-some g (v ∷ vs) t w c h = elim (Bool-cases (may_serve clock g v t).0) [
    | inl e ↦ Chosen-here g v w vs t (cc ((rw e at h))) c e
    | inr e ↦
        Chosen-later g v w vs (t, c, e)
          (scan-some g vs (may_serve clock g v t).1 w (looked v c refl) (rw e at h))
  ]

  -- Who may be served fits and is new, and the governor is open.
  pub may_serve_facts :
      (g : Governor) (w : Waiter) (t : Throttle)
      → (may_serve clock g w t).0 ≡ true
      → (fits g.limits g.slots w.workflow w.provider ≡ true)
        × (is_granted g.granted w.seq ≡ false)
        × (g.shutdown ≡ false)
  unfolding may_serve
  may_serve_facts g w t h = ground arith

  -- The first of the interactive queue that may be served, or, when every interactive waiter was
  -- passed over, the first such of the batch queue.
  abbrev pub ByPriority : Governor → Lane → Waiter → Type 0
  ByPriority g interactive w = Chosen g g.interactive w
  ByPriority g batch w = All (Passed g) g.interactive × Chosen g g.batch w

  -- The waiter that a hand-out serves next is the first of the interactive queue that may be served; it is
  -- one of the batch queue, and then the first that may be served there, only when every waiter of the
  -- interactive queue was passed over.
  pub next_waiter-ByPriority :
      (g : Governor) (lane : Lane) (w : Waiter)
      → (next_waiter clock g).0 ≡ some (lane, w)
      → ByPriority g lane w
  unfolding next_waiter
  next_waiter-ByPriority g interactive w h =
      elim (Option-cases (scan clock g g.interactive g.throttle).0) [
        | inl e ↦ cc ((from_lane-some _ (rw (e, or_batch) at h)).1)
        | inr (v, e) ↦
            scan-some g g.interactive g.throttle w fresh
              (e ∙ (from_lane-some (some v) (rw (e, or_batch) at h)).0)
      ]
  next_waiter-ByPriority g batch w h =
      elim (Option-cases (scan clock g g.interactive g.throttle).0) [
        | inl e ↦ (
          scan-none g g.interactive g.throttle fresh e,
          scan-some g g.batch (scan clock g g.interactive g.throttle).1 w
              (Consulted-scan g g.interactive g.throttle fresh)
              (from_lane-some _ (rw (e, or_batch) at h)).0,
        )
        | inr (v, e) ↦ cc ((from_lane-some (some v) (rw (e, or_batch) at h)).1)
      ]

  -- Nobody is chosen only when every waiter of both queues was passed over.
  pub next_waiter-none :
      (g : Governor)
      → (next_waiter clock g).0 ≡ none
      → All (Passed g) g.interactive × All (Passed g) g.batch
  unfolding next_waiter
  next_waiter-none g h = elim (Option-cases (scan clock g g.interactive g.throttle).0) [
    | inl e ↦ (
      scan-none g g.interactive g.throttle fresh e,
      scan-none g g.batch (scan clock g g.interactive g.throttle).1
          (Consulted-scan g g.interactive g.throttle fresh)
          (from_lane-none batch _ (rw (e, or_batch) at h)),
    )
    | inr (v, e) ↦ cc ((rw (e, or_batch) at h))
  ]

  pub ByPriority-facts :
      (g : Governor) (lane : Lane) (w : Waiter)
      → ByPriority g lane w
      → (fits g.limits g.slots w.workflow w.provider ≡ true)
        × (is_granted g.granted w.seq ≡ false)
        × (g.shutdown ≡ false)
  ByPriority-facts g interactive w c = may_serve_facts g w c.at c.ready
  ByPriority-facts g batch w c = may_serve_facts g w c.1.at c.1.ready

  pub Consulted-next_waiter : (g : Governor) → Consulted g g.throttle (next_waiter clock g).1
  unfolding next_waiter
  Consulted-next_waiter g =
      Consulted-batch (scan clock g g.interactive g.throttle)
        (Consulted-scan g g.interactive g.throttle fresh)
    where
      Consulted-batch :
          (found : Option Waiter × Throttle)
          → Consulted g g.throttle found.1
          → Consulted g g.throttle (or_batch clock g found).1
      Consulted-batch (none, t) c = Consulted-scan g g.batch t c
      Consulted-batch (some w, t) c = c
