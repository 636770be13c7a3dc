-- ===== src/Governor/Settling.antt =====
-- The loop of the hand-out of slots, and the waiters that it leaves.
use readyagents_core.Common.{
  ℕ, zero, suc, ◌+◌, ◌<◌, ◌≡◌, refl, true, false, Option, none, some, arith, if_cases, length, All,
}
use readyagents_core.Governor.Throttle.{Throttle}
use readyagents_core.Governor.State.{Governor, Waiter}
use readyagents_core.Governor.Grant.{
  Lane, interactive, batch, serve, next_waiter, after_scan, grant_round, grant_loop, grant_waiters,
}
use readyagents_core.Governor.Selection.{
  ByPriority, Passed, next_waiter-ByPriority, next_waiter-none,
}
use readyagents_core.Governor.Queues.{length-drop-Chosen}

abbrev waiting : Governor → ℕ
waiting g = length g.interactive + length g.batch

module _ (clock : ℕ → ℕ) where
  serve_shortens :
      (g : Governor) (lane : Lane) (w : Waiter) (t : Throttle)
      → ByPriority clock g lane w
      → waiting (serve clock g lane w t) < waiting g
  unfolding serve
  serve_shortens g interactive w t c = omega (arith, length-drop-Chosen clock g g.interactive w c)
  serve_shortens g batch w t c = omega (arith, length-drop-Chosen clock g g.batch w c.1)

  after_scan_shortens :
      (g : Governor) (found : Option (Lane × Waiter) × Throttle)
      → ((lane : Lane) (w : Waiter) → found.0 ≡ some (lane, w) → ByPriority clock g lane w)
      → (after_scan clock g found).0 ≡ true
      → waiting (after_scan clock g found).1 < waiting g
  after_scan_shortens g (none, t) chosen h = cc
  after_scan_shortens g (some (lane, w), t) chosen h =
      serve_shortens g lane w t (chosen lane w refl)

  grant_round_shortens :
      (g : Governor) → (grant_round clock g).0 ≡ true → waiting (grant_round clock g).1 < waiting g
  unfolding grant_round
  grant_round_shortens g =
      after_scan_shortens g (next_waiter clock g) (next_waiter-ByPriority clock g)

-- `P` is anything that the rounds keep.
module _ (clock : ℕ → ℕ) (P : Governor → Type 0) where
  -- Where a hand-out stops: in its last round, begun at `last`, every waiter was passed over, and
  -- nothing changed but the throttle.
  pub record Settled (g : Governor) : Type 0 where
    pub last : Governor
    pub left : Throttle
    pub ends : g ≡ record last { throttle = left }
    pub reached : P last
    pub interactive_passed : All (Passed clock last) last.interactive
    pub batch_passed : All (Passed clock last) last.batch

  after_scan-Settled :
      (g : Governor) (found : Option (Lane × Waiter) × Throttle)
      → (found.0 ≡ none → All (Passed clock g) g.interactive × All (Passed clock g) g.batch)
      → P g
      → (after_scan clock g found).0 ≡ false
      → Settled (after_scan clock g found).1
  after_scan-Settled g (none, t) passed p h = record {
    last = g;
    left = t;
    ends = refl;
    reached = p;
    interactive_passed = (passed refl).0;
    batch_passed = (passed refl).1;
  }
  after_scan-Settled g (some (lane, w), t) passed p h = cc

  grant_round-Settled :
      (g : Governor) → P g → (grant_round clock g).0 ≡ false → Settled (grant_round clock g).1
  unfolding grant_round
  grant_round-Settled g = after_scan-Settled g (next_waiter clock g) (next_waiter-none clock g)

  module _ (keeps : (g : Governor) → P g → P (grant_round clock g).1) where
    grant_loop-Settled :
        (fuel : ℕ) (g : Governor) → waiting g < fuel → P g → Settled (grant_loop clock fuel g)
    unfolding grant_loop
    grant_loop-Settled zero g h p = absurd (omega arith)
    grant_loop-Settled (suc fuel) g h p =
        if_cases Settled (grant_round clock g).0
          (λ e.
            grant_loop-Settled fuel (grant_round clock g).1
              (omega (arith, grant_round_shortens clock g e)) (keeps g p))
          (λ e. grant_round-Settled g p e)

    -- The hand-out always comes to an end of its own: its last round passed over every waiter of both
    -- queues, each looked at with the throttle as the looks before it had left it.
    pub grant_waiters-Settled : (g : Governor) → P g → Settled (grant_waiters clock g)
    unfolding grant_waiters
    grant_waiters-Settled g p = grant_loop-Settled (suc (waiting g)) g (omega arith) p
