-- ===== src/Governor/Numbering.antt =====
-- The numbers of waiters: a number stands once in the two queues and among the granted, together.
use readyagents_core.Common.{
  ℕ, ◌+◌, ◌≤◌, ◌<◌, ◌≡◌, refl, Bool, false, List, [], ◌∷◌, ◌++◌, arith, ◌==◌, if◌then◌else◌,
}
use readyagents_core.Governor.Throttle.{Throttle}
use readyagents_core.Governor.State.{Governor, Waiter, Options, new}
use readyagents_core.Governor.Grant.{Lane, interactive, batch, is_granted, drop, serve}
use readyagents_core.Governor.Selection.{Chosen, ByPriority}
use readyagents_core.Governor.Acquire.{drop_waiter, enqueue}
use readyagents_core.Governor.Invariants.{Call, run, Invariant, run-keeps}

abbrev pub one_if : Bool → ℕ
one_if b = if b then 1 else 0

-- How often a number stands in a queue, and among the granted.
unfoldable pub occurs : ℕ → List Waiter → ℕ
occurs n [] = 0
occurs n (w ∷ ws) = one_if (w.seq == n) + occurs n ws

unfoldable pub grants : ℕ → List ℕ → ℕ
grants n [] = 0
grants n (m ∷ ms) = one_if (m == n) + grants n ms

abbrev pub total : ℕ → Governor → ℕ
total n g = occurs n g.interactive + occurs n g.batch + grants n g.granted

pub record IsNumbered (g : Governor) : Type 0 where
  pub once : (n : ℕ) → total n g ≤ 1
  pub new_unused : (n : ℕ) → g.last_seq < n → total n g ≡ 0

occurs-append :
    (n : ℕ) (xs : List Waiter) (w : Waiter)
    → occurs n (xs ++ w ∷ []) ≡ occurs n xs + one_if (w.seq == n)
unfolding occurs
occurs-append n [] w = omega arith
occurs-append n (x ∷ xs) w = omega (arith, occurs-append n xs w)

occurs-chosen :
    (n : ℕ) (w : Waiter) (before after : List Waiter)
    → occurs n (drop w.seq (before ++ w ∷ after)) + one_if (w.seq == n)
      ≡ occurs n (before ++ w ∷ after)
unfolding occurs drop
occurs-chosen n w [] after = ground arith
occurs-chosen n w (v ∷ before) after = ground (arith, occurs-chosen n w before after)

occurs-drop-le : (n seq : ℕ) (queue : List Waiter) → occurs n (drop seq queue) ≤ occurs n queue
unfolding occurs drop
occurs-drop-le n seq [] = omega arith
occurs-drop-le n seq (v ∷ vs) = ground (arith, occurs-drop-le n seq vs)

pub not-granted_of_occurs :
    (n : ℕ) (granted : List ℕ) → grants n granted ≡ 0 → is_granted granted n ≡ false
unfolding grants is_granted
not-granted_of_occurs n [] h = ground arith
not-granted_of_occurs n (m ∷ ms) h = ground (arith, not-granted_of_occurs n ms)

module _ (clock : ℕ → ℕ) where
  occurs-drop-Chosen :
      (g : Governor) (queue : List Waiter) (w : Waiter)
      → Chosen clock g queue w
      → (n : ℕ) → occurs n (drop w.seq queue) + one_if (w.seq == n) ≡ occurs n queue
  occurs-drop-Chosen g queue w c n = rw c.stands (occurs-chosen n w c.before c.after)

  serve-total :
      (g : Governor) (lane : Lane) (w : Waiter) (t : Throttle)
      → ByPriority clock g lane w
      → (n : ℕ) → total n (serve clock g lane w t) ≡ total n g
  unfolding serve grants
  serve-total g interactive w t c n = omega (arith, occurs-drop-Chosen g g.interactive w c n)
  serve-total g batch w t c n = omega (arith, occurs-drop-Chosen g g.batch w c.1 n)

  serve-last :
      (g : Governor) (lane : Lane) (w : Waiter) (t : Throttle)
      → (serve clock g lane w t).last_seq ≡ g.last_seq
  unfolding serve
  serve-last g interactive w t = refl
  serve-last g batch w t = refl

  pub serve-IsNumbered :
      (g : Governor) (lane : Lane) (w : Waiter) (t : Throttle)
      → ByPriority clock g lane w
      → IsNumbered g
      → IsNumbered (serve clock g lane w t)
  serve-IsNumbered g lane w t c h = record {
    once = λ n. omega (arith, h.once n, serve-total g lane w t c n);
    new_unused =
        λ n later. omega (arith, h.new_unused n, serve-total g lane w t c n, serve-last g lane w t);
  }

  drop_waiter-total : (g : Governor) (w : Waiter) (n : ℕ) → total n (drop_waiter w g) ≤ total n g
  unfolding drop_waiter
  drop_waiter-total g w n =
      ground (arith, occurs-drop-le n w.seq g.interactive, occurs-drop-le n w.seq g.batch)

  drop_waiter-last : (g : Governor) (w : Waiter) → (drop_waiter w g).last_seq ≡ g.last_seq
  unfolding drop_waiter
  drop_waiter-last g w = ground arith

  drop_waiter-IsNumbered : (g : Governor) (w : Waiter) → IsNumbered g → IsNumbered (drop_waiter w g)
  drop_waiter-IsNumbered g w h = record {
    once = λ n. omega (arith, h.once n, drop_waiter-total g w n);
    new_unused =
        λ n new. omega (arith, h.new_unused n, drop_waiter-total g w n, drop_waiter-last g w);
  }

  enqueue-total :
      (g : Governor) (w : Waiter) (n : ℕ) → total n (enqueue w g) ≡ total n g + one_if (w.seq == n)
  unfolding enqueue
  enqueue-total g w n = ground (arith, occurs-append n g.interactive w, occurs-append n g.batch w)

  enqueue-last : (g : Governor) (w : Waiter) → (enqueue w g).last_seq ≡ g.last_seq + 1
  unfolding enqueue
  enqueue-last g w = refl

  enqueue-IsNumbered :
      (g : Governor) (w : Waiter) → w.seq ≡ g.last_seq + 1 → IsNumbered g → IsNumbered (enqueue w g)
  enqueue-IsNumbered g w new h = record {
    once = λ n. ground (arith, h.once n, h.new_unused n, enqueue-total g w n);
    new_unused = λ n later. ground (arith, h.new_unused n, enqueue-total g w n, enqueue-last g w);
  }

  IsNumbered-Invariant : Invariant clock IsNumbered
  IsNumbered-Invariant = record {
    quiet = λ g t h. record { once = h.once; new_unused = h.new_unused };
    serves = serve-IsNumbered;
    enters = λ g workflow provider open_ fit h. record { once = h.once; new_unused = h.new_unused };
    queues = λ g w room new h. enqueue-IsNumbered g w new h;
    drops = drop_waiter-IsNumbered;
    leaves = λ g workflow provider h. record { once = h.once; new_unused = h.new_unused };
    shuts = λ g h. record { once = h.once; new_unused = h.new_unused };
  }

  -- After any sequence of calls on a new governor a waiter's number stands at most once in the two
  -- queues and the list of the granted taken together: nobody is granted a slot twice, and nobody
  -- waits who has been granted one.
  pub run-IsNumbered : (o : Options) (cs : List Call) → IsNumbered (run clock (new o) cs)
  unfolding new occurs grants
  run-IsNumbered o cs =
      run-keeps clock IsNumbered IsNumbered-Invariant (new o) cs
        (record { once = λ n. omega arith; new_unused = λ n h. omega arith })
