-- ===== src/Cancellation/Naps.antt =====
-- How `cancellable_sleep` ends, and when.
use readyagents_core.Common.{
  some, none, sym, ap, refl, ◌∙◌, ℕ, zero, suc, ◌+◌, ◌-◌, ◌≤◌, ◌<◌, ◌≡◌, Bool, true, false, Option,
  if_cases, if◌then◌else◌, ◌==◌, leb, min, max, arith,
}
use readyagents_core.Cancellation.Sleep.{
  Nap, slept, cancelled, sleep_chunk, is_set, sleep_loop, sleep_with, cancellable_sleep,
  raise_or_end,
}

-- A sleep from one time until another: it lasts until the request when that comes first or together with
-- its end, and until its end otherwise.
abbrev pub nap_of : Option ℕ → ℕ → ℕ → Nap × ℕ
nap_of none now until = (slept, until)
nap_of (some at) now until = if leb at until then (cancelled, max now at) else (slept, until)

-- The same sleep, as it stands after a round in which no request came.
later_nap :
    (request : Option ℕ) (now later until until' : ℕ)
    → is_set request later ≡ false
    → now ≤ later
    → until' ≡ until
    → nap_of request later until' ≡ nap_of request now until
later_nap none now later until until' unset order same = ap (λ t. (slept, t)) same
later_nap (some at) now later until until' unset order same = rw same (
    ap (λ (t : ℕ). if leb at until then (cancelled, t) else (slept, until))
      (let latest : max later at ≡ max now at = ground (arith, unset, order) in latest))

ended_nap :
    (request : Option ℕ) (now until : ℕ)
    → until ≡ now
    → is_set request now ≡ false
    → raise_or_end request now ≡ nap_of request now until
unfolding raise_or_end
ended_nap none now until same unset = ap (λ t. (slept, t)) (sym same)
ended_nap (some at) now until same unset = rw (same, unset) refl

cut_nap :
    (at now until : ℕ)
    → leb at until ≡ true
    → raise_or_end (some at) (max now at) ≡ nap_of (some at) now until
unfolding raise_or_end
cut_nap at now until before =
    let set : leb at (max now at) ≡ true = ground arith in rw (set, before) refl

sleep_loop-nap_of :
    (request : Option ℕ) (fuel remaining now : ℕ)
    → remaining < fuel
    → is_set request now ≡ false
    → sleep_loop request fuel remaining now ≡ nap_of request now (now + remaining)
unfolding sleep_loop
sleep_loop-nap_of request zero remaining now h unset = absurd (omega arith)
sleep_loop-nap_of none (suc fuel) remaining now h unset =
    let chunk = min remaining sleep_chunk in
    if_cases (λ (x : Nap × ℕ). x ≡ (slept, now + remaining)) (remaining == 0)
      (λ over. ended_nap none now (now + remaining) (ground arith) unset)
      (λ left.
        sleep_loop-nap_of none fuel (remaining - chunk) (now + chunk) (ground arith) refl
        ∙ ap (λ t. (slept, t)) (omega arith))
sleep_loop-nap_of (some at) (suc fuel) remaining now h unset =
    let chunk = min remaining sleep_chunk in
    let Right : Nap × ℕ → Type 0 = λ x. x ≡ nap_of (some at) now (now + remaining) in
    let round : Bool × ℕ → Nap × ℕ = λ answer.
      if answer.0
      then raise_or_end (some at) answer.1
      else sleep_loop (some at) fuel (remaining - chunk) answer.1 in
    if_cases Right (remaining == 0)
      (λ over. ended_nap (some at) now (now + remaining) (ground arith) unset)
      (λ left.
        if_cases (λ (answer : Bool × ℕ). Right (round answer)) (leb at (now + chunk))
          (λ hit. cut_nap at now (now + remaining) (ground (arith, hit)))
          (λ miss.
            sleep_loop-nap_of (some at) fuel (remaining - chunk) (now + chunk) (ground arith) miss
            ∙ later_nap (some at) now (now + chunk) (now + remaining) _ miss (omega arith)
                (omega arith)))

full_nap :
    (request : Option ℕ) (now delay : ℕ)
    → now ≡ now + delay
    → is_set request now ≡ false
    → (slept, now + delay) ≡ nap_of request now (now + delay)
full_nap none now delay same unset = refl
full_nap (some at) now delay same unset =
    let after : leb at (now + delay) ≡ false = ground (arith, same, unset) in rw after refl

at_once :
    (request : Option ℕ) (now until : ℕ)
    → is_set request now ≡ true
    → now ≤ until
    → (cancelled, now) ≡ nap_of request now until
at_once none now until set order = absurd (cc)
at_once (some at) now until set order =
    let before : leb at until ≡ true = ground (arith, set, order) in
    let latest : max now at ≡ now = ground (arith, set) in rw (before, latest) refl

-- A sleep with a token ends when it is to: as cancelled, at the time of the request or at once if that was
-- before, when the request comes no later than the end of the sleep; and after its full time otherwise.
pub cancellable_sleep-nap_of :
    (delay now : ℕ) (request : Option ℕ)
    → cancellable_sleep delay (some request) now ≡ nap_of request now (now + delay)
unfolding cancellable_sleep sleep_with
cancellable_sleep-nap_of delay now request =
    let Right : Nap × ℕ → Type 0 = λ x. x ≡ nap_of request now (now + delay) in
    if_cases Right (is_set request now) (λ set. at_once request now (now + delay) set (omega arith))
      (λ unset.
        if_cases Right (delay == 0)
          (λ nothing.
            let same : now ≡ now + delay = ground arith in
            ap (λ t. (slept, t)) same ∙ full_nap request now delay same unset)
          (λ some_delay. sleep_loop-nap_of request (suc delay) delay now (omega arith) unset))
