-- ===== src/Triggers/Caps.antt =====
-- The caps on the raw bytes of an event: size, nesting and rate. A text is the list of its code
-- points; times are counted in ticks, and `window_s` in the same unit.
use readyagents_core.Common.{
  ℕ, ◌+◌, ◌-◌, String, Bool, true, false, ◌||◌, Option, none, some, List, [], ◌∷◌, ◌++◌, max, ltb,
  leb, ◌==◌, if◌then◌else◌, Dict, insert, get_or, length, filter,
}

abbrev pub max_event_bytes : ℕ
max_event_bytes = 64000

abbrev pub max_json_depth : ℕ
max_json_depth = 8

-- `TriggerRefused`, by its reason.
pub data Refusal : Type 0 where
  too_large too_deep rate : Refusal

-- The variables of the loop of `json_nesting_depth`.
pub record Scan : Type 0 where
  pub depth : ℕ
  pub max_depth : ℕ
  pub in_str : Bool
  pub escape : Bool

in_string : ℕ → Scan → Scan
in_string ch s =
    if s.escape
    then record s { escape = false }
    else if ch == b'\\'
    then record s { escape = true }
    else if ch == b'"'
    then record s { in_str = false }
    else s

outside : ℕ → Scan → Scan
outside ch s =
    if ch == b'"'
    then record s { in_str = true }
    else if ch == b'{' || ch == b'['
    then record s { depth = s.depth + 1; max_depth = max s.max_depth (s.depth + 1) }
    else if ch == b'}' || ch == b']'
    then record s { depth = s.depth - 1 }
    else s

unfoldable pub step : ℕ → Scan → Scan
unfolding in_string outside
step ch s = if s.in_str then in_string ch s else outside ch s

unfoldable pub scan : List ℕ → Scan → Scan
scan [] s = s
scan (ch ∷ text) s = scan text (step ch s)

abbrev pub start : Scan
start = record { depth = 0; max_depth = 0; in_str = false; escape = false }

unfoldable pub json_nesting_depth : List ℕ → ℕ
json_nesting_depth text = (scan text start).max_depth

pub record RateLimiter : Type 0 where
  pub limit : ℕ
  pub window_s : ℕ
  pub hits : Dict (List ℕ)

-- The arrivals that are still in the window at a time. (`now - t` is negative for a later `t`, and
-- then below any window that is open; `-` stops at 0.)
abbrev pub recent : ℕ → ℕ → List ℕ → List ℕ
recent window now = filter (λ t. ltb (now - t) window)

-- `RateLimiter.allow` on the arrivals of one trigger.
unfoldable pub admit : ℕ → ℕ → ℕ → List ℕ → Bool × List ℕ
admit limit window now hits =
    let kept = recent window now hits in
    if leb limit (length kept) then (false, kept) else (true, kept ++ now ∷ [])

-- `now` is the reading of the clock.
unfoldable pub allow : String → ℕ → RateLimiter → Bool × RateLimiter
allow trigger now r =
    let (allowed, kept) = admit r.limit r.window_s now (get_or trigger [] r.hits) in
    (allowed, record r { hits = insert trigger kept r.hits })

abbrev within_rate : Option RateLimiter → String → ℕ → Option Refusal × Option RateLimiter
within_rate none trigger now = (none, none)
within_rate (some limiter) trigger now =
    let (allowed, limiter') = allow trigger now limiter in
    (if allowed then none else some rate, some limiter')

-- `refuse_before_parse`; `bytes` is the size of the event, `text` its decoding. The limiter counts
-- only events that passed the other caps.
unfoldable pub refuse_before_parse :
    ℕ → List ℕ → String → Option RateLimiter → ℕ → ℕ → ℕ → Option Refusal × Option RateLimiter
refuse_before_parse bytes text trigger limiter now max_bytes max_depth =
    if ltb max_bytes bytes
    then (some too_large, limiter)
    else if ltb max_depth (json_nesting_depth text)
    then (some too_deep, limiter)
    else within_rate limiter trigger now
