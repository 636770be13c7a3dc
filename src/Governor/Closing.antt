-- ===== src/Governor/Closing.antt =====
-- Requests and waiters after `request_shutdown`.
use readyagents_core.Common.{
  ℕ, ◌+◌, pos_part, ◌≤◌, ◌≡◌, refl, sym, ap, ◌⊎◌, inl, inr, not, filter, List, [], ◌∷◌, ◌==◌, ltb,
  if_cases, Bool-cases, String, true, false, Option, none, some, arith, ℤ,
}
use readyagents_core.Governor.Throttle.{Throttle, read_clock}
use readyagents_core.Governor.State.{Governor, Waiter}
use readyagents_core.Governor.Grant.{
  Lane, is_granted, drop, next_waiter, after_scan, grant_round, grant_loop, grant_waiters,
}
use readyagents_core.Governor.Selection.{ByPriority, ByPriority-facts, next_waiter-ByPriority}
use readyagents_core.Governor.Numbering.{occurs}
use readyagents_core.Governor.Acquire.{
  Outcome, entered, refused, shut_down, acquire_slot, first_round, wake, drop_waiter, holds,
}

-- What a request for a slot comes to once the governor is closed: it is refused, and the slots, the
-- queues and the granted are as they were.
pub record Turned (g : Governor) (r : Outcome × Governor) : Type 0 where
  pub raised : r.0 ≡ refused shut_down
  pub slots : r.1.slots ≡ g.slots
  pub interactive : r.1.interactive ≡ g.interactive
  pub batch : r.1.batch ≡ g.batch
  pub granted : r.1.granted ≡ g.granted

-- The waiters of a queue that have another number.
abbrev pub others : ℕ → List Waiter → List Waiter
others seq queue = filter (λ v. not (v.seq == seq)) queue

-- A governor from whose queues a waiter is taken.
record Dropped (g : Governor) (w : Waiter) (g' : Governor) : Type 0 where
  slots : g'.slots ≡ g.slots
  interactive : g'.interactive ≡ others w.seq g.interactive
  batch : g'.batch ≡ others w.seq g.batch

-- What a thread comes to that wakes in a closed governor.
abbrev pub Woken : Governor → Waiter → Outcome × Governor → Type 0
Woken g w r =
    ((is_granted g.granted w.seq ≡ true)
      × (r.0 ≡ entered)
      × (r.1.slots ≡ g.slots)
      × (r.1.interactive ≡ g.interactive)
      × (r.1.batch ≡ g.batch))
    ⊎ ((is_granted g.granted w.seq ≡ false)
        × (r.0 ≡ refused shut_down)
        × (r.1.slots ≡ g.slots)
        × (r.1.interactive ≡ others w.seq g.interactive)
        × (r.1.batch ≡ others w.seq g.batch))

others_none : (seq : ℕ) (queue : List Waiter) → occurs seq queue ≡ 0 → others seq queue ≡ queue
unfolding occurs filter
others_none seq [] h = refl
others_none seq (v ∷ vs) h =
    let rest = others_none seq vs (omega (arith, h)) in
    let apart : (v.seq == seq) ≡ false = ground (arith, h) in
    rw apart (ap (λ queue. v ∷ queue) rest)

drop-others :
    (seq : ℕ) (queue : List Waiter) → occurs seq queue ≤ 1 → drop seq queue ≡ others seq queue
unfolding occurs filter drop
drop-others seq [] h = refl
drop-others seq (v ∷ vs) h = elim (Bool-cases (v.seq == seq)) [
  | inl same ↦ rw same (sym (others_none seq vs (ground (arith, h, same))))
  | inr apart ↦ rw apart (ap (λ queue. v ∷ queue) (drop-others seq vs (ground (arith, h))))
]

holds-occurs : (seq : ℕ) (queue : List Waiter) → holds seq queue ≡ ltb 0 (occurs seq queue)
unfolding holds occurs
holds-occurs seq [] = refl
holds-occurs seq (v ∷ vs) = ground (arith, holds-occurs seq vs)

module _ (clock : ℕ → ℕ) where
  after_scan_closed :
      (g : Governor) (found : Option (Lane × Waiter) × Throttle)
      → ((lane : Lane) (w : Waiter) → found.0 ≡ some (lane, w) → ByPriority clock g lane w)
      → g.shutdown ≡ true
      → after_scan clock g found ≡ (false, record g { throttle = found.1 })
  after_scan_closed g (none, t) chosen h = refl
  after_scan_closed g (some (lane, w), t) chosen h =
      cc (h, (ByPriority-facts clock g lane w (chosen lane w refl)).2)

  grant_round_closed :
      (g : Governor)
      → g.shutdown ≡ true
      → grant_round clock g ≡ (false, record g { throttle = (next_waiter clock g).1 })
  unfolding grant_round
  grant_round_closed g = after_scan_closed g (next_waiter clock g) (next_waiter-ByPriority clock g)

  -- A closed governor hands out nothing: a hand-out changes the throttle alone.
  pub grant_waiters_closed :
      (g : Governor)
      → g.shutdown ≡ true
      → grant_waiters clock g ≡ record g { throttle = (next_waiter clock g).1 }
  unfolding grant_waiters grant_loop
  grant_waiters_closed g h = simp (grant_round_closed g h)

  first_round_closed :
      (workflow : String) (provider : Option String) (priority : ℤ) (deadline : Option ℕ)
      (g g' : Governor)
      → g'.shutdown ≡ true
      → (g'.slots ≡ g.slots)
        × (g'.interactive ≡ g.interactive)
        × (g'.batch ≡ g.batch)
        × (g'.granted ≡ g.granted)
      → Turned g (first_round clock workflow provider priority deadline g')
  unfolding first_round
  first_round_closed workflow provider priority deadline g g' h same = simp h (record {
    raised = refl;
    slots = same.0;
    interactive = same.1;
    batch = same.2;
    granted = same.3;
  })

  -- A new request to a closed governor raises, whatever its priority and its timeout.
  pub acquire_slot_closed :
      (workflow : String) (provider : Option String) (priority : ℤ) (timeout : Option ℤ)
      (g : Governor)
      → g.shutdown ≡ true
      → Turned g (acquire_slot clock workflow provider priority timeout g)
  unfolding acquire_slot
  acquire_slot_closed workflow provider priority none g h =
      first_round_closed workflow provider priority none g g h (refl, refl, refl, refl)
  acquire_slot_closed workflow provider priority (some timeout) g h =
      let (now, t) = read_clock clock g.throttle in
      first_round_closed workflow provider priority (some (now + pos_part timeout)) g
        (record g { throttle = t }) h (refl, refl, refl, refl)

  drop_waiter-Dropped :
      (g : Governor) (w : Waiter)
      → occurs w.seq g.interactive + occurs w.seq g.batch ≤ 1
      → Dropped g w (drop_waiter w g)
  unfolding drop_waiter
  drop_waiter-Dropped g w once =
      let stays = holds-occurs w.seq g.interactive in
      let stays' = holds-occurs w.seq g.batch in
      if_cases (Dropped g w) (holds w.seq g.interactive)
        (λ there. record {
          slots = refl;
          interactive = drop-others w.seq g.interactive (omega (arith, once));
          batch = sym (others_none w.seq g.batch (ground (arith, once, stays, there)));
        })
        (λ absent.
          if_cases (Dropped g w) (holds w.seq g.batch)
            (λ there. record {
              slots = refl;
              interactive = sym (others_none w.seq g.interactive (ground (arith, stays, absent)));
              batch = drop-others w.seq g.batch (omega (arith, once));
            })
            (λ nowhere. record {
              slots = refl;
              interactive = sym (others_none w.seq g.interactive (ground (arith, stays, absent)));
              batch = sym (others_none w.seq g.batch (ground (arith, stays', nowhere)));
            }))

  -- A thread that wakes in a closed governor, its number standing at most once in the queues, enters exactly
  -- if it had been granted its slot before, with the queues as they were; otherwise it is refused, and the
  -- queues are as they were without it. No slot changes hands.
  pub wake_closed :
      (w : Waiter) (deadline : Option ℕ) (g : Governor)
      → g.shutdown ≡ true
      → occurs w.seq g.interactive + occurs w.seq g.batch ≤ 1
      → Woken g w (wake clock w deadline g)
  unfolding wake
  wake_closed w deadline g h once =
      let t = (next_waiter clock g).1 in
      let gone = drop_waiter-Dropped (record g { throttle = t; shutdown = true }) w once in
      simp (grant_waiters_closed g h, h)
        (elim (Bool-cases (is_granted g.granted w.seq)) [
          | inl granted ↦ rw granted (inl (refl, refl, refl, refl, refl))
          | inr waiting ↦ rw waiting (inr (refl, refl, gone.slots, gone.interactive, gone.batch))
        ])
