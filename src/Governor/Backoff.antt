-- ===== src/Governor/Backoff.antt =====
-- The pause that a provider asks for by Retry-After.
use readyagents_core.Common.{
  ℕ, ◌+◌, ◌≤◌, ◌<◌, ◌≡◌, String, false, some, arith, ℤ, pos_part, if◌then◌else◌, if_cases, Dict,
  insert, get_or, lookup-insert, str_eq, eq_iff, eq_refl, strip, lower, lt→ltb,
}
use readyagents_core.Governor.Throttle.{
  Throttle, note_retry_after, tokens_ready, ready_for, read_clock, later_deadline, armed,
}

-- Until when a provider is paused; 0 if it is not.
abbrev pub paused_until : String → Throttle → ℕ
paused_until name t = get_or name 0 t.retry_until

get_or-insert :
    (k j : String) (v d : ℕ) (m : Dict ℕ)
    → get_or j d (insert k v m) ≡ (if str_eq k j then v else get_or j d m)
unfolding get_or
get_or-insert k j v d m = ground (arith, lookup-insert k j v m)

module _ (clock : ℕ → ℕ) where
  later_deadline-paused :
      (name j : String) (until : ℕ) (t : Throttle)
      → paused_until j t ≤ paused_until j (later_deadline clock name until t)
  later_deadline-paused name j until t =
      ground (arith, get_or-insert name j until 0 t.retry_until, eq_iff name j)

  later_deadline-reaches :
      (name : String) (until : ℕ) (t : Throttle)
      → until ≤ paused_until name (later_deadline clock name until t)
  later_deadline-reaches name until t =
      ground (arith, get_or-insert name name until 0 t.retry_until, eq_refl name)

  armed-retry_until :
      (name : String) (until : ℕ) (t : Throttle)
      → (armed clock name until t).retry_until ≡ t.retry_until
  unfolding armed
  armed-retry_until name until t = ground arith

  armed-reads :
      (name : String) (until : ℕ) (t : Throttle) → (armed clock name until t).reads ≡ t.reads
  unfolding armed
  armed-reads name until t = ground arith

  -- A notice never shortens a pause, of its own provider or of another.
  pub note_retry_after-paused :
      (provider j : String) (seconds : ℤ) (t : Throttle)
      → paused_until j t ≤ paused_until j (note_retry_after clock provider seconds t)
  unfolding note_retry_after
  note_retry_after-paused provider j seconds t =
      let name = lower (strip provider) in
      let (now, t') = read_clock clock t in
      let until = now + pos_part seconds in
      let Kept : Throttle → Type 0 = λ u. paused_until j t ≤ paused_until j u in
      if_cases Kept (str_eq name "") (λ _. omega arith)
        (λ _.
          rw (armed-retry_until name until (later_deadline clock name until t'))
            (later_deadline-paused name j until t'))

  note_retry_after-reaches :
      (provider : String) (seconds : ℤ) (t : Throttle)
      → str_eq (lower (strip provider)) "" ≡ false
      → clock t.reads + pos_part seconds
        ≤ paused_until (lower (strip provider)) (note_retry_after clock provider seconds t)
  unfolding note_retry_after read_clock
  note_retry_after-reaches provider seconds t named =
      let name = lower (strip provider) in
      let (now, t') = read_clock clock t in
      let until = now + pos_part seconds in
      rw (named, armed-retry_until name until (later_deadline clock name until t'))
        (later_deadline-reaches name until t')

  -- After a provider asked for a pause, it has no token for anyone at any reading of the clock that
  -- comes before the pause has passed.
  pub note_retry_after_pauses :
      (provider : String) (seconds : ℤ) (t : Throttle)
      → str_eq (lower (strip provider)) "" ≡ false
      → clock (note_retry_after clock provider seconds t).reads < clock t.reads + pos_part seconds
      → (tokens_ready clock
          (some (lower (strip provider)))
          (note_retry_after clock provider seconds t)).0
        ≡ false
  unfolding tokens_ready ready_for read_clock
  note_retry_after_pauses provider seconds t named early =
      let t' = note_retry_after clock provider seconds t in
      rw (
        lt→ltb (clock t'.reads) (paused_until (lower (strip provider)) t')
          (omega (arith, note_retry_after-reaches provider seconds t named)))
