-- ===== src/Cancellation/Sleep.antt =====
-- `cancellable_sleep`. Times are in milliseconds. A token is given by the time at which it is requested, if
-- it ever is; it stays requested from then on.
use readyagents_core.Common.{
  ℕ, zero, suc, ◌+◌, ◌-◌, Bool, true, false, Option, none, some, if◌then◌else◌, ◌==◌, leb, min, max,
}

abbrev pub sleep_chunk : ℕ
sleep_chunk = 50

pub data Nap : Type 0 where
  slept cancelled out_of_fuel : Nap

-- `is_requested` at a time.
abbrev pub is_set : Option ℕ → ℕ → Bool
is_set none now = false
is_set (some at) now = leb at now

-- `token.wait`, with the time at which it returns: at once when the token is requested, at the request when
-- that comes within the timeout, and after the timeout otherwise.
abbrev pub wait : Option ℕ → ℕ → ℕ → Bool × ℕ
wait none timeout now = (false, now + timeout)
wait (some at) timeout now =
    if leb at (now + timeout) then (true, max now at) else (false, now + timeout)

-- How the sleep ends, and when.
module _ (request : Option ℕ) where
  unfoldable pub raise_or_end : ℕ → Nap × ℕ
  raise_or_end now = (if is_set request now then cancelled else slept, now)

  unfoldable pub sleep_loop : ℕ → ℕ → ℕ → Nap × ℕ
  unfolding raise_or_end
  sleep_loop zero remaining now = (out_of_fuel, now)
  sleep_loop (suc fuel) remaining now =
      let chunk = min remaining sleep_chunk in
      let answer = wait request chunk now in
      let rest = sleep_loop fuel (remaining - chunk) answer.1 in
      if remaining == 0 then raise_or_end now else if answer.0 then raise_or_end answer.1 else rest

  -- With a token. A round that goes on takes at least a millisecond.
  unfoldable pub sleep_with : ℕ → ℕ → Nap × ℕ
  sleep_with delay now =
      if is_set request now
      then (cancelled, now)
      else if delay == 0
      then (slept, now)
      else sleep_loop (suc delay) delay now

-- Without a token the sleep is a plain one.
unfoldable pub cancellable_sleep : ℕ → Option (Option ℕ) → ℕ → Nap × ℕ
cancellable_sleep delay none now = (slept, now + delay)
cancellable_sleep delay (some request) now = sleep_with request delay now
