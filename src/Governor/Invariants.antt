-- ===== src/Governor/Invariants.antt =====
-- The calls on a governor as sequences of critical sections, and a rule for invariants: what each
-- elementary change keeps, every call keeps.
use readyagents_core.Common.{
  ℕ, zero, suc, ◌+◌, ◌≡◌, refl, String, Bool, true, false, Option, none, some, List, [], ◌∷◌, ℤ,
  leb, arith, if_cases, pos_part, length,
}
use readyagents_core.Governor.Slots.{fits, enter, leave}
use readyagents_core.Governor.Throttle.{Throttle, note_retry_after, read_clock, provider_key}
use readyagents_core.Governor.State.{Governor, Waiter, request_shutdown}
use readyagents_core.Governor.Grant.{
  Lane, is_granted, next_waiter, serve, after_scan, grant_round, grant_loop, grant_waiters,
}
use readyagents_core.Governor.Selection.{ByPriority, next_waiter-ByPriority}
use readyagents_core.Governor.Acquire.{
  Outcome, drop_waiter, enqueue, wait_or_give_up, wait_in_line, fast_path, take_slot, first_round,
  line_up, enter_or_line_up, acquire_slot, wake, release,
}

-- What threads do to the governor, one critical section each.
pub data Call : Type 0 where
  acquires : String → Option String → ℤ → Option ℤ → Call
  wakes : Waiter → Option ℕ → Call
  releases : String → Option String → Call
  notes_retry : String → ℤ → Call
  shuts_down : Call

module _ (clock : ℕ → ℕ) where
  unfoldable pub perform : Governor → Call → Governor
  perform g (acquires workflow provider priority timeout) =
      (acquire_slot clock workflow provider priority timeout g).1
  perform g (wakes w deadline) = (wake clock w deadline g).1
  perform g (releases workflow provider) = release clock workflow provider g
  perform g (notes_retry provider seconds) = record g {
    throttle = note_retry_after clock provider seconds g.throttle;
  }
  perform g shuts_down = (request_shutdown g).1

  unfoldable pub run : Governor → List Call → Governor
  run g [] = g
  run g (c ∷ cs) = run (perform g c) cs

  pub record Invariant (P : Governor → Type 0) : Type 0 where
    pub quiet : (g : Governor) (t : Throttle) → P g → P (record g { throttle = t })
    pub serves :
        (g : Governor) (lane : Lane) (w : Waiter) (t : Throttle)
        → ByPriority clock g lane w
        → P g
        → P (serve clock g lane w t)
    pub enters :
        (g : Governor) (workflow : String) (provider : Option String)
        → g.shutdown ≡ false
        → fits g.limits g.slots workflow provider ≡ true
        → P g
        → P (record g { slots = enter g.slots workflow provider })
    pub queues :
        (g : Governor) (w : Waiter)
        → leb g.limits.queue_bound g.queued ≡ false
        → w.seq ≡ g.last_seq + 1
        → P g
        → P (enqueue w g)
    pub drops : (g : Governor) (w : Waiter) → P g → P (drop_waiter w g)
    pub leaves :
        (g : Governor) (workflow : String) (provider : Option String)
        → P g
        → P (record g { slots = leave g.slots workflow provider })
    pub shuts : (g : Governor) → P g → P (record g { shutdown = true })

  pub fast_path-fits :
      (workflow : String) (provider : Option String) (g : Governor)
      → (fast_path clock workflow provider g).0 ≡ true
      → fits g.limits g.slots workflow provider ≡ true
  unfolding fast_path
  fast_path-fits workflow provider g h = ground arith

  module _ (P : Governor → Type 0) (inv : Invariant P) where
    abbrev Ends : Outcome × Governor → Type 0
    Ends r = P r.1

    after_scan-keeps :
        (g : Governor) (found : Option (Lane × Waiter) × Throttle)
        → ((lane : Lane) (w : Waiter) → found.0 ≡ some (lane, w) → ByPriority clock g lane w)
        → P g
        → P (after_scan clock g found).1
    after_scan-keeps g (none, t) chosen h = inv.quiet g t h
    after_scan-keeps g (some (lane, w), t) chosen h = inv.serves g lane w t (chosen lane w refl) h

    pub grant_round-keeps : (g : Governor) → P g → P (grant_round clock g).1
    unfolding grant_round
    grant_round-keeps g h =
        after_scan-keeps g (next_waiter clock g) (next_waiter-ByPriority clock g) h

    grant_loop-keeps : (fuel : ℕ) (g : Governor) → P g → P (grant_loop clock fuel g)
    unfolding grant_loop
    grant_loop-keeps zero g h = h
    grant_loop-keeps (suc fuel) g h =
        let kept = grant_round-keeps g h in
        if_cases P (grant_round clock g).0 (λ e. grant_loop-keeps fuel (grant_round clock g).1 kept)
          (λ e. kept)

    pub grant_waiters-keeps : (g : Governor) → P g → P (grant_waiters clock g)
    unfolding grant_waiters
    grant_waiters-keeps g h = grant_loop-keeps (suc (length g.interactive + length g.batch)) g h

    wait_or_give_up-keeps :
        (w : Waiter) (deadline : Option ℕ) (g : Governor)
        → P g
        → P (wait_or_give_up clock w deadline g).1
    unfolding wait_or_give_up
    wait_or_give_up-keeps w none g h = inv.quiet g _ h
    wait_or_give_up-keeps w (some deadline) g h =
        let (now, t) = read_clock clock g.throttle in
        if_cases Ends (leb deadline now) (λ e. inv.drops _ w (inv.quiet g t h))
          (λ e. inv.quiet _ _ (inv.quiet g t h))

    wait_in_line-keeps :
        (w : Waiter) (deadline : Option ℕ) (g : Governor)
        → P (enqueue w g)
        → P (wait_in_line clock w deadline g).1
    unfolding wait_in_line
    wait_in_line-keeps w deadline g h =
        let g' = grant_waiters clock (enqueue w g) in
        let h' = grant_waiters-keeps (enqueue w g) h in
        if_cases Ends (is_granted g'.granted w.seq) (λ e. h')
          (λ e. wait_or_give_up-keeps w deadline g' h')

    line_up-keeps :
        (workflow : String) (provider : Option String) (priority : ℤ) (deadline : Option ℕ)
        (g : Governor)
        → P g
        → P (line_up clock workflow provider priority deadline g).1
    unfolding line_up
    line_up-keeps workflow provider priority deadline g h =
        if_cases Ends (leb g.limits.queue_bound g.queued) (λ e. h)
          (λ e. wait_in_line-keeps _ deadline g (inv.queues g _ e refl h))

    enter_or_line_up-keeps :
        (workflow : String) (provider : Option String) (priority : ℤ) (deadline : Option ℕ)
        (g : Governor) (fast : Bool × Throttle)
        → g.shutdown ≡ false
        → (fast.0 ≡ true → fits g.limits g.slots workflow provider ≡ true)
        → P g
        → P (enter_or_line_up clock workflow provider priority deadline g fast).1
    unfolding take_slot
    enter_or_line_up-keeps workflow provider priority deadline g (true, t) open_ fit h =
        inv.quiet _ _ (inv.enters g workflow provider open_ (fit refl) h)
    enter_or_line_up-keeps workflow provider priority deadline g (false, t) open_ fit h =
        line_up-keeps workflow provider priority deadline _ (inv.quiet g t h)

    first_round-keeps :
        (workflow : String) (provider : Option String) (priority : ℤ) (deadline : Option ℕ)
        (g : Governor)
        → P g
        → P (first_round clock workflow provider priority deadline g).1
    unfolding first_round
    first_round-keeps workflow provider priority deadline g h =
        if_cases Ends g.shutdown (λ e. h)
          λ e.
            enter_or_line_up-keeps workflow provider priority deadline g
              (fast_path clock workflow provider g) e (fast_path-fits workflow provider g) h

    pub acquire_slot-keeps :
        (workflow : String) (provider : Option String) (priority : ℤ) (timeout : Option ℤ)
        (g : Governor)
        → P g
        → P (acquire_slot clock workflow provider priority timeout g).1
    unfolding acquire_slot
    acquire_slot-keeps workflow provider priority none g h =
        first_round-keeps workflow provider priority none g h
    acquire_slot-keeps workflow provider priority (some timeout) g h =
        let deadline = some ((read_clock clock g.throttle).0 + pos_part timeout) in
        first_round-keeps workflow provider priority deadline
          (record g { throttle = (read_clock clock g.throttle).1 })
          (inv.quiet g (read_clock clock g.throttle).1 h)

    pub wake-keeps :
        (w : Waiter) (deadline : Option ℕ) (g : Governor) → P g → P (wake clock w deadline g).1
    unfolding wake
    wake-keeps w deadline g h =
        let g' = grant_waiters clock g in
        let h' = grant_waiters-keeps g h in
        if_cases Ends (is_granted g'.granted w.seq) (λ e. h')
          λ e.
            if_cases Ends g'.shutdown (λ s. inv.drops g' w h')
              (λ s. wait_or_give_up-keeps w deadline g' h')

    pub perform-keeps : (g : Governor) (c : Call) → P g → P (perform g c)
    unfolding perform release request_shutdown
    perform-keeps g (acquires workflow provider priority timeout) h =
        acquire_slot-keeps workflow provider priority timeout g h
    perform-keeps g (wakes w deadline) h = wake-keeps w deadline g h
    perform-keeps g (releases workflow provider) h =
        grant_waiters-keeps _ (inv.leaves g workflow (provider_key provider) h)
    perform-keeps g (notes_retry provider seconds) h = inv.quiet g _ h
    perform-keeps g shuts_down h =
        if_cases (λ (r : List ℕ × Governor). P r.1) g.shutdown (λ e. h) (λ e. inv.shuts g h)

    -- An invariant holds after any sequence of calls.
    pub run-keeps : (g : Governor) (cs : List Call) → P g → P (run g cs)
    unfolding run
    run-keeps g [] h = h
    run-keeps g (c ∷ cs) h = run-keeps (perform g c) cs (perform-keeps g c h)
