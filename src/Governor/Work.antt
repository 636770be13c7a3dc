-- ===== src/Governor/Work.antt =====
-- The waiters that a hand-out leaves, without back-pressure.
use readyagents_core.Common.{
  ℕ, ◌≤◌, ◌≡◌, refl, ◌∙◌, String, Bool, true, false, Option, none, some, List, [], ◌∷◌, arith,
  if_cases, ltb, leb, inl, inr, Bool-cases, All, lookup, get_or, all,
}
use readyagents_core.Governor.Slots.{fits, leave}
use readyagents_core.Governor.Throttle.{
  Throttle, has_bucket, ready_for, tokens_ready, consume_token, read_clock, provider_key,
}
use readyagents_core.Governor.State.{Governor, Waiter}
use readyagents_core.Governor.Grant.{
  Lane, interactive, batch, is_granted, serve, may_serve, next_waiter, after_scan, grant_round,
  grant_waiters,
}
use readyagents_core.Governor.Selection.{
  Consulted, fresh, looked, Passed, ByPriority, next_waiter-ByPriority, Consulted-next_waiter,
}
use readyagents_core.Governor.Acquire.{release}
use readyagents_core.Governor.Numbering.{
  IsNumbered, occurs, serve-IsNumbered, not-granted_of_occurs,
}
use readyagents_core.Governor.Settling.{Settled, grant_waiters-Settled}

-- No rate is set, and no provider has asked for a pause.
pub record IsUnthrottled (t : Throttle) : Type 0 where
  pub no_rate : t.provider_rate ≡ none
  pub no_retry : t.retry_until ≡ []
  pub no_buckets : t.buckets ≡ []

abbrev pub Unserved : Governor → Waiter → Type 0
Unserved g w = fits g.limits g.slots w.workflow w.provider ≡ false

-- What the rounds of a hand-out keep.
pub record IsOpen (g : Governor) : Type 0 where
  pub open_ : g.shutdown ≡ false
  pub unthrottled : IsUnthrottled g.throttle
  pub numbered : IsNumbered g

module _ (clock : ℕ → ℕ) where
  not-has_bucket : (t : Throttle) (p : String) → IsUnthrottled t → has_bucket clock t p ≡ false
  unfolding has_bucket lookup
  not-has_bucket t p h = rw (h.no_rate, h.no_buckets)

  not_paused :
      (t : Throttle) (p : String) (now : ℕ)
      → IsUnthrottled t
      → ltb now (get_or p 0 t.retry_until) ≡ false
  unfolding get_or
  not_paused t p now h = rw h.no_retry (ground arith)

  all_past :
      (t : Throttle) (now : ℕ) → IsUnthrottled t → all (λ e. leb e.1 now) t.retry_until ≡ true
  unfolding all
  all_past t now h = rw h.no_retry

  ready_for-unthrottled :
      (p : String) (now : ℕ) (t : Throttle) → IsUnthrottled t → ready_for clock p now t ≡ (true, t)
  unfolding ready_for
  ready_for-unthrottled p now t h = simp (not_paused t p now h, not-has_bucket t p h)

  ticked : (t : Throttle) → IsUnthrottled t → IsUnthrottled (read_clock clock t).1
  unfolding read_clock
  ticked t h = record { no_rate = h.no_rate; no_retry = h.no_retry; no_buckets = h.no_buckets }

  tokens_ready-IsUnthrottled :
      (provider : Option String) (t : Throttle)
      → IsUnthrottled t
      → ((tokens_ready clock provider t).0 ≡ true) × IsUnthrottled (tokens_ready clock provider t).1
  tokens_ready-IsUnthrottled none t h =
      unfold tokens_ready in
      (all_past (read_clock clock t).1 (read_clock clock t).0 (ticked t h), ticked t h)
  tokens_ready-IsUnthrottled (some p) t h =
      unfold tokens_ready in
      let (now, t') = read_clock clock t in
      rw (ready_for-unthrottled p now t' (ticked t h)) (refl, ticked t h)

  consume_token-unthrottled :
      (provider : Option String) (t : Throttle)
      → IsUnthrottled t
      → consume_token clock provider t ≡ t
  unfolding consume_token
  consume_token-unthrottled none t h = refl
  consume_token-unthrottled (some p) t h = simp (not-has_bucket t p h)

  may_serve-IsUnthrottled :
      (g : Governor) (w : Waiter) (t : Throttle)
      → IsUnthrottled t
      → IsUnthrottled (may_serve clock g w t).1
  unfolding may_serve
  may_serve-IsUnthrottled g w t h =
      let Ends : Bool × Throttle → Type 0 = λ r. IsUnthrottled r.1 in
      if_cases Ends (is_granted g.granted w.seq) (λ _. h)
        (λ _.
          if_cases Ends g.shutdown (λ _. h)
            (λ _.
              if_cases Ends (fits g.limits g.slots w.workflow w.provider)
                (λ _. (tokens_ready-IsUnthrottled w.provider t h).1) (λ _. h)))

  Consulted-IsUnthrottled :
      (g : Governor) (t u : Throttle) → IsUnthrottled t → Consulted clock g t u → IsUnthrottled u
  Consulted-IsUnthrottled g t u h fresh = h
  Consulted-IsUnthrottled g t u h (looked {u = v} w c e) =
      rw e (may_serve-IsUnthrottled g w v (Consulted-IsUnthrottled g t v h c))

  may_serve-asks :
      (g : Governor) (w : Waiter) (t : Throttle)
      → g.shutdown ≡ false
      → is_granted g.granted w.seq ≡ false
      → fits g.limits g.slots w.workflow w.provider ≡ true
      → may_serve clock g w t ≡ tokens_ready clock w.provider t
  unfolding may_serve
  may_serve-asks g w t open_ new fit = simp (open_, new, fit)

  -- Who is passed over then, being new to an open governor, does not fit.
  Passed-fits :
      (g : Governor) (w : Waiter)
      → IsUnthrottled g.throttle
      → g.shutdown ≡ false
      → is_granted g.granted w.seq ≡ false
      → Passed clock g w
      → fits g.limits g.slots w.workflow w.provider ≡ false
  Passed-fits g w h open_ new (u, c, e) =
      elim (Bool-cases (fits g.limits g.slots w.workflow w.provider)) [
        | inl fit ↦
            let ready =
              (tokens_ready-IsUnthrottled w.provider u
                (Consulted-IsUnthrottled g g.throttle u h c)).0 in
            cc (ready, may_serve-asks g w u open_ new fit)
        | inr full ↦ full
      ]

  All-Passed-Unserved :
      (g : Governor) (queue : List Waiter)
      → IsUnthrottled g.throttle
      → g.shutdown ≡ false
      → ((n : ℕ) → 1 ≤ occurs n queue → is_granted g.granted n ≡ false)
      → All (Passed clock g) queue
      → All (Unserved g) queue
  unfolding occurs
  All-Passed-Unserved g [] h open_ new passed = tt
  All-Passed-Unserved g (w ∷ ws) h open_ new passed = (
    Passed-fits g w h open_ (new w.seq (ground arith)) passed.0,
    All-Passed-Unserved g ws h open_ (λ n more. new n (omega arith)) passed.1,
  )

  serve-shutdown :
      (g : Governor) (lane : Lane) (w : Waiter) (t : Throttle)
      → (serve clock g lane w t).shutdown ≡ g.shutdown
  unfolding serve
  serve-shutdown g interactive w t = refl
  serve-shutdown g batch w t = refl

  serve-throttle :
      (g : Governor) (lane : Lane) (w : Waiter) (t : Throttle)
      → (serve clock g lane w t).throttle ≡ consume_token clock w.provider t
  unfolding serve
  serve-throttle g interactive w t = refl
  serve-throttle g batch w t = refl

  after_scan-IsOpen :
      (g : Governor) (found : Option (Lane × Waiter) × Throttle)
      → ((lane : Lane) (w : Waiter) → found.0 ≡ some (lane, w) → ByPriority clock g lane w)
      → IsUnthrottled found.1
      → IsOpen g
      → IsOpen (after_scan clock g found).1
  after_scan-IsOpen g (none, t) chosen u h = record {
    open_ = h.open_;
    unthrottled = u;
    numbered = record { once = h.numbered.once; new_unused = h.numbered.new_unused };
  }
  after_scan-IsOpen g (some (lane, w), t) chosen u h = record {
    open_ = serve-shutdown g lane w t ∙ h.open_;
    unthrottled = rw (serve-throttle, consume_token-unthrottled w.provider t u) u;
    numbered = serve-IsNumbered clock g lane w t (chosen lane w refl) h.numbered;
  }

  grant_round-IsOpen : (g : Governor) → IsOpen g → IsOpen (grant_round clock g).1
  unfolding grant_round
  grant_round-IsOpen g h =
      after_scan-IsOpen g (next_waiter clock g) (next_waiter-ByPriority clock g)
        (Consulted-IsUnthrottled g _ _ h.unthrottled (Consulted-next_waiter clock g)) h

  Settled-Unserved :
      (g : Governor)
      → Settled clock IsOpen g
      → All (Unserved g) g.interactive × All (Unserved g) g.batch
  Settled-Unserved g s =
      let h = s.reached in
      rw s.ends (
        All-Passed-Unserved s.last s.last.interactive h.unthrottled h.open_
            (λ n more. not-granted_of_occurs n _ (omega (arith, h.numbered.once n)))
            s.interactive_passed,
        All-Passed-Unserved s.last s.last.batch h.unthrottled h.open_
            (λ n more. not-granted_of_occurs n _ (omega (arith, h.numbered.once n))) s.batch_passed,
      )

  -- Without back-pressure, after a release by an open governor every thread that still waits, in either
  -- queue, is one whom the limits keep out: no slot is left free that a waiter could take.
  pub release_leaves_nobody :
      (g : Governor) (workflow : String) (provider : Option String)
      → IsOpen g
      → All
          (Unserved (release clock workflow provider g))
          (release clock workflow provider g).interactive
        × All
            (Unserved (release clock workflow provider g))
            (release clock workflow provider g).batch
  unfolding release
  release_leaves_nobody g workflow provider h =
      let g' : Governor = record g { slots = leave g.slots workflow (provider_key provider) } in
      Settled-Unserved (grant_waiters clock g') (
        grant_waiters-Settled clock IsOpen grant_round-IsOpen g' (record {
          open_ = h.open_;
          unthrottled = h.unthrottled;
          numbered = record { once = h.numbered.once; new_unused = h.numbered.new_unused };
        }))
