-- ===== src/Resilience/Tests.antt =====
-- The breaker and the fallback models at concrete inputs.
use readyagents_core.Common.{
  ℕ, ◌+◌, ◌≡◌, refl, String, true, false, not, ◌&&◌, Option, none, some, List, [], ◌∷◌, leb, ltb,
  pos, lookup, insert, get_or, Dict, contains, strip,
}
use readyagents_core.Resilience.Breaker.{Breaker, new, allow, record_failure, is_open}
use readyagents_core.Resilience.Models.{
  model_candidates, add_groups, add_group, add_candidate, raise_exhausted, last_error,
}
use readyagents_core.Resilience.Outage.{fail_all, failures, allow-fail_all}

abbrev breaker : Breaker
breaker = new (pos 2) (pos 60)

-- Two failures open the circuit; after sixty ticks it closes.
opens_and_closes :
    ((is_open "gpt" 11 (fail_all "gpt" (3 ∷ 5 ∷ []) breaker)).0 ≡ true)
    × ((is_open "gpt" 65 (fail_all "gpt" (3 ∷ 5 ∷ []) breaker)).0 ≡ false)
unfolding is_open allow fail_all record_failure new lookup insert get_or
opens_and_closes = (refl, refl)

never_failed : (lookup "gpt" breaker.open_until ≡ none) × (failures "gpt" breaker ≡ 0)
unfolding new lookup get_or
never_failed = (refl, refl)

allow-fail_all_example :
    (allow "gpt" 11 (fail_all "gpt" (3 ∷ 5 ∷ []) breaker)).0
    ≡ not (leb breaker.failure_threshold 2 && ltb 11 (5 + breaker.cooldown_seconds))
allow-fail_all_example = allow-fail_all "gpt" 3 (5 ∷ []) 11 breaker never_failed.0 never_failed.1

abbrev tripped : Breaker
tripped = record breaker { open_until = ("gpt", 65) ∷ [] }

tripped_until : lookup "gpt" tripped.open_until ≡ some 65
unfolding lookup
tripped_until = refl

abbrev groups : List (Option (List String))
groups = none ∷ some ("claude" ∷ " gpt " ∷ []) ∷ some ("" ∷ "llama" ∷ "claude" ∷ []) ∷ []

candidates_in_order : model_candidates (some "gpt") groups ≡ "gpt" ∷ "claude" ∷ "llama" ∷ []
unfolding model_candidates add_groups add_group add_candidate contains strip
candidates_in_order = refl

-- What was skipped shows only if nothing was tried, or nothing failed.
exhausted_by : raise_exhausted {E = ℕ} ("gpt" ∷ []) ("claude" ∷ []) (some 7) ≡ last_error 7
unfolding raise_exhausted
exhausted_by = refl

abbrev usage : Dict ℕ
usage = ("total_tokens", 90) ∷ ("cost_micros", 5) ∷ ("estimated_tokens", 10) ∷ []
