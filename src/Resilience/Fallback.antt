-- ===== src/Resilience/Fallback.antt =====
-- The candidates for a call, and the budget check.
use readyagents_core.Common.{
  ℕ, ◌+◌, ◌<◌, ◌≡◌, refl, ◌∙◌, sym, if_cases, String, Bool, false, ◌&&◌, ◌||◌, Option, none, some,
  List, [], ◌∷◌, ◌++◌, arith, not, str_eq, eq_iff, contains, strip, get_or, Dict, ◌↔◌,
}
use mathlib.Core.List.{append_assoc, append-nil}
use readyagents_core.Resilience.Models.{
  add_candidate, add_group, add_groups, primary_group, model_candidates, check_budget,
}

-- No text stands twice.
abbrev pub IsDistinct : List String → Type 0
IsDistinct [] = Unit {0}
IsDistinct (x ∷ xs) = (contains x xs ≡ false) × IsDistinct xs

-- Whether an item is one that gives this candidate.
abbrev gives : String → String → Bool
gives item ref = not (str_eq (strip item) "") && str_eq (strip item) ref

abbrev pub given_by : List String → String → Bool
given_by [] ref = false
given_by (item ∷ items) ref = gives item ref || given_by items ref

abbrev pub given : List (Option (List String)) → String → Bool
given [] ref = false
given (none ∷ groups) ref = given groups ref
given (some group ∷ groups) ref = given_by group ref || given groups ref

contains-append :
    (k : String) (xs : List String) (x : String)
    → contains k (xs ++ x ∷ []) ≡ (contains k xs || str_eq x k)
unfolding contains
contains-append k [] x = ground arith
contains-append k (y ∷ ys) x = ground (arith, contains-append k ys x)

IsDistinct-append :
    (xs : List String) (x : String)
    → contains x xs ≡ false
    → IsDistinct xs
    → IsDistinct (xs ++ x ∷ [])
unfolding contains
IsDistinct-append [] x h d = (refl, tt)
IsDistinct-append (y ∷ ys) x h d = (
  ground (arith, contains-append y ys x, eq_iff x y, eq_iff y x),
  IsDistinct-append ys x (ground arith) d.1,
)

add_candidate-IsDistinct :
    (item : String) (seen : List String) → IsDistinct seen → IsDistinct (add_candidate item seen)
unfolding add_candidate
add_candidate-IsDistinct item seen d = ground (arith, IsDistinct-append seen (strip item))

contains-add_candidate :
    (ref item : String) (seen : List String)
    → contains ref (add_candidate item seen) ≡ (contains ref seen || gives item ref)
unfolding add_candidate
contains-add_candidate ref item seen =
    ground (arith, contains-append ref seen (strip item), eq_iff (strip item) ref)

add_group-facts :
    (items : List String) (seen : List String)
    → IsDistinct seen
    → IsDistinct (add_group items seen)
      × ((ref : String)
          → contains ref (add_group items seen) ≡ (contains ref seen || given_by items ref))
unfolding add_group
add_group-facts [] seen d = (d, λ ref. ground arith)
add_group-facts (item ∷ items) seen d =
    let rest =
      add_group-facts items (add_candidate item seen) (add_candidate-IsDistinct item seen d) in
    (rest.0, λ ref. ground (arith, rest.1 ref, contains-add_candidate ref item seen))

add_groups-facts :
    (groups : List (Option (List String))) (seen : List String)
    → IsDistinct seen
    → IsDistinct (add_groups groups seen)
      × ((ref : String)
          → contains ref (add_groups groups seen) ≡ (contains ref seen || given groups ref))
unfolding add_groups
add_groups-facts [] seen d = (d, λ ref. ground arith)
add_groups-facts (none ∷ groups) seen d = add_groups-facts groups seen d
add_groups-facts (some group ∷ groups) seen d =
    let first = add_group-facts group seen d in
    let rest = add_groups-facts groups (add_group group seen) first.0 in
    (rest.0, λ ref. ground (arith, rest.1 ref, first.1 ref))

-- The candidates are distinct, and are exactly the models that the primary or some fallback group
-- gives after stripping, blank ones left out.
pub model_candidates_complete :
    (primary : Option String) (groups : List (Option (List String)))
    → IsDistinct (model_candidates primary groups)
      × ((ref : String)
          → contains ref (model_candidates primary groups)
            ≡ given (some (primary_group primary) ∷ groups) ref)
unfolding model_candidates
model_candidates_complete primary groups =
    let facts = add_groups-facts (some (primary_group primary) ∷ groups) [] tt in
    (facts.0, λ ref. unfold contains in facts.1 ref)

-- What was seen first stays first.
abbrev Extends : List String → List String → Type 0
Extends seen all = (rest : List String) × (all ≡ seen ++ rest)

Extends-trans : (xs ys zs : List String) → Extends xs ys → Extends ys zs → Extends xs zs
Extends-trans xs ys zs (a, e) (b, f) = (a ++ b, f ∙ rw e (append_assoc xs a b))

add_candidate-Extends :
    (item : String) (seen : List String) → Extends seen (add_candidate item seen)
unfolding add_candidate
add_candidate-Extends item seen =
    if_cases (Extends seen) (str_eq (strip item) "") (λ _. ([], sym (append-nil seen)))
      (λ _.
        if_cases (Extends seen) (contains (strip item) seen) (λ _. ([], sym (append-nil seen)))
          (λ _. (strip item ∷ [], refl)))

add_group-Extends : (items seen : List String) → Extends seen (add_group items seen)
unfolding add_group
add_group-Extends [] seen = ([], sym (append-nil seen))
add_group-Extends (item ∷ items) seen =
    Extends-trans _ _ _ (add_candidate-Extends item seen)
      (add_group-Extends items (add_candidate item seen))

add_groups-Extends :
    (groups : List (Option (List String))) (seen : List String)
    → Extends seen (add_groups groups seen)
unfolding add_groups
add_groups-Extends [] seen = ([], sym (append-nil seen))
add_groups-Extends (none ∷ groups) seen = add_groups-Extends groups seen
add_groups-Extends (some group ∷ groups) seen =
    Extends-trans _ _ _ (add_group-Extends group seen)
      (add_groups-Extends groups (add_group group seen))

-- A primary model that is not blank is the first candidate, whatever the fallbacks are.
pub model_candidates-primary :
    (primary : String) (groups : List (Option (List String)))
    → str_eq primary "" ≡ false
    → str_eq (strip primary) "" ≡ false
    → (rest : List String) × (model_candidates (some primary) groups ≡ strip primary ∷ rest)
unfolding model_candidates add_groups add_group add_candidate contains
model_candidates-primary primary groups named visible =
    rw (named, visible) (add_groups-Extends groups (strip primary ∷ []))

-- The budget check refuses exactly at or over a limit that is set, the tokens first; estimated tokens
-- count as used.
pub check_budget-passes :
    (usage : Dict ℕ) (max_tokens max_cost_micros : ℕ)
    → ((check_budget usage (some max_tokens) (some max_cost_micros) ≡ none) ↔ (
        (get_or "total_tokens" 0 usage + get_or "estimated_tokens" 0 usage < max_tokens)
        × (get_or "cost_micros" 0 usage < max_cost_micros)))
      × ((check_budget usage (some max_tokens) none ≡ none)
          ↔ (get_or "total_tokens" 0 usage + get_or "estimated_tokens" 0 usage < max_tokens))
      × ((check_budget usage none (some max_cost_micros) ≡ none)
          ↔ (get_or "cost_micros" 0 usage < max_cost_micros))
      × (check_budget usage none none ≡ none)
unfolding check_budget
check_budget-passes usage max_tokens max_cost_micros =
    (ground arith, ground arith, ground arith, refl)
