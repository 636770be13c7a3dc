-- ===== src/Triggers/Gate.antt =====
-- The three caps together, and the limiter's books by trigger.
use readyagents_core.Common.{
  ℕ, ◌≤◌, ◌<◌, ◌≡◌, ◌↔◌, refl, String, true, none, some, List, [], arith, str_eq, if◌then◌else◌,
  get_or, insert, lookup-insert,
}
use readyagents_core.Triggers.Caps.{
  too_large, RateLimiter, admit, allow, json_nesting_depth, refuse_before_parse,
}

-- An event passes exactly when it is small enough, shallow enough and within the rate; and one that
-- is too large or too deep is not counted by the limiter.
pub refuse_before_parse-passes :
    (bytes : ℕ) (text : List ℕ) (trigger : String) (limiter : RateLimiter)
    (now max_bytes max_depth : ℕ)
    → let r = refuse_before_parse bytes text trigger (some limiter) now max_bytes max_depth in
      ((r.0 ≡ none) ↔ (
        (bytes ≤ max_bytes)
        × (json_nesting_depth text ≤ max_depth)
        × ((allow trigger now limiter).0 ≡ true)))
      × ((r.0 ≡ some too_large) ↔ (max_bytes < bytes))
      × ((max_bytes < bytes) → r.1 ≡ some limiter)
      × ((max_depth < json_nesting_depth text) → r.1 ≡ some limiter)
unfolding refuse_before_parse
refuse_before_parse-passes bytes text trigger limiter now max_bytes max_depth =
    (ground arith, ground arith, λ h. ground arith, λ h. ground arith)

get_or-insert :
    (k j : String) (v d : List ℕ) (m : List (String × List ℕ))
    → get_or j d (insert k v m) ≡ (if str_eq k j then v else get_or j d m)
unfolding get_or
get_or-insert k j v d m = ground (arith, lookup-insert k j v m)

-- A trigger is judged by its own arrivals, and leaves those of the others alone.
pub allow_separates :
    (trigger other : String) (now : ℕ) (r : RateLimiter)
    → ((allow trigger now r).0 ≡ (admit r.limit r.window_s now (get_or trigger [] r.hits)).0)
      × (get_or other [] (allow trigger now r).1.hits ≡ (
          if str_eq trigger other
          then (admit r.limit r.window_s now (get_or trigger [] r.hits)).1
          else get_or other [] r.hits))
unfolding allow
allow_separates trigger other now r = (refl, get_or-insert trigger other _ [] r.hits)
