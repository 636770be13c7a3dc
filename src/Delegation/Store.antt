-- ===== src/Delegation/Store.antt =====
-- The delegations of the store, as they are loaded: `until` is the time that `parse_clock` reads off the
-- text, if it is one, and a scope is never empty. Actors are normalised in ASCII.
use readyagents_core.Common.{
  ℕ, String, Bool, true, false, Option, none, some, List, [], ◌∷◌, ◌++◌, ◌&&◌, ◌||◌, not,
  if◌then◌else◌, str_eq, ltb, contains, strip, lower,
}

pub record Delegation : Type 0 where
  pub id : String
  pub from_actor : String
  pub to_actor : String
  pub until : Option ℕ
  pub scope : Option String
  pub revoked : Bool

unfoldable pub normalize_actor : String → String
unfolding strip lower
normalize_actor actor = lower (strip actor)

-- A text counts as none when it is missing or empty.
abbrev pub given : Option String → Option String
given none = none
given (some s) = if str_eq s "" then none else some s

abbrev same_given : Option String → Option String → Bool
same_given none none = true
same_given (some a) (some b) = str_eq (normalize_actor a) (normalize_actor b)
same_given _ _ = false

unfoldable pub same_scope : Option String → Option String → Bool
unfolding normalize_actor
same_scope left right = same_given (given left) (given right)

-- Neither revoked nor over.
unfoldable pub is_active : ℕ → Delegation → Bool
is_active now d = not d.revoked && (elim d.until [ none ↦ false | some until ↦ ltb now until ])

-- What `ConfigError` says.
pub data Refusal : Type 0 where
  incomplete self_delegation no_timestamp past chain overlapping widens not_found : Refusal

abbrev is_none : Option String → Bool
is_none none = true
is_none (some s) = false

-- A delegation in force that stands against a new one, by normalised actors.
unfoldable pub conflict : String → String → Option String → Delegation → Option Refusal
unfolding normalize_actor same_scope
conflict source dest scope d =
    if str_eq (normalize_actor d.to_actor) source
    then some chain
    else if str_eq (normalize_actor d.from_actor) source && str_eq (normalize_actor d.to_actor) dest
    then (if same_scope d.scope scope || is_none d.scope
        then some overlapping
        else if is_none scope
        then some widens
        else none)
    else none

unfoldable pub first_conflict :
    ℕ → String → String → Option String → List Delegation → Option Refusal
unfolding is_active
first_conflict now source dest scope [] = none
first_conflict now source dest scope (d ∷ ds) =
    let rest = first_conflict now source dest scope ds in
    if is_active now d
    then (elim (conflict source dest scope d) [ none ↦ rest | some refusal ↦ some refusal ])
    else rest

abbrev pub strip_scope : Option String → Option String
strip_scope scope = elim (given scope) [ none ↦ none | some s ↦ some (strip s) ]

-- `add_delegation`: a refusal with the store as it was, or the new delegation at its end.
unfoldable pub add_delegation :
    String
    → String
    → String
    → Option ℕ
    → Option String
    → ℕ
    → List Delegation
    → Option Refusal × List Delegation
unfolding strip normalize_actor first_conflict
add_delegation id from_actor to_actor none scope now items = (
  some (
      if str_eq (strip from_actor) "" || str_eq (strip to_actor) ""
      then incomplete
      else if str_eq (normalize_actor (strip from_actor)) (normalize_actor (strip to_actor))
      then self_delegation
      else no_timestamp),
  items,
)
add_delegation id from_actor to_actor (some until) scope now items =
    if str_eq (strip from_actor) "" || str_eq (strip to_actor) ""
    then (some incomplete, items)
    else if str_eq (normalize_actor (strip from_actor)) (normalize_actor (strip to_actor))
    then (some self_delegation, items)
    else if not (ltb now until)
    then (some past, items)
    else elim (first_conflict now (normalize_actor (strip from_actor))
        (normalize_actor (strip to_actor)) (strip_scope scope) items) [
          | none ↦ (
            none,
            items
                ++ record {
                  id = id;
                  from_actor = strip from_actor;
                  to_actor = strip to_actor;
                  until = some until;
                  scope = given (strip_scope scope);
                  revoked = false;
                }
                  ∷ [],
          )
          | some refusal ↦ (some refusal, items)
        ]

-- The first delegation with the id is revoked; `none` if there is none.
unfoldable pub revoke_first : String → List Delegation → Option (List Delegation)
revoke_first id [] = none
revoke_first id (d ∷ ds) =
    let rest = revoke_first id ds in
    if str_eq d.id id
    then some (record d { revoked = true } ∷ ds)
    else elim rest [ none ↦ none | some later ↦ some (d ∷ later) ]

unfoldable pub revoke_delegation : String → List Delegation → Option (List Delegation)
unfolding strip
revoke_delegation id items = revoke_first (strip id) items

abbrev is_empty : List String → Bool
is_empty [] = true
is_empty (x ∷ xs) = false

-- Without roles, or without a scope, the scope does not matter.
abbrev pub in_scope : Option String → List String → Bool
in_scope scope wanted = elim (given scope) [
  | none ↦ true
  | some s ↦ is_empty wanted || contains (normalize_actor s) wanted
]

unfoldable pub serves : String → List String → ℕ → Delegation → Bool
unfolding is_active normalize_actor contains
serves dest wanted now d =
    is_active now d && str_eq (normalize_actor d.to_actor) dest && in_scope d.scope wanted

unfoldable pub first_serving : String → List String → ℕ → List Delegation → Option Delegation
unfolding serves
first_serving dest wanted now [] = none
first_serving dest wanted now (d ∷ ds) =
    let rest = first_serving dest wanted now ds in if serves dest wanted now d then some d else rest

-- `roles` without the empty ones.
unfoldable pub wanted_roles : List String → List String
unfolding normalize_actor
wanted_roles [] = []
wanted_roles (role ∷ roles) =
    let rest = wanted_roles roles in if str_eq role "" then rest else normalize_actor role ∷ rest

unfoldable pub find_delegation : String → List String → ℕ → List Delegation → Option Delegation
unfolding normalize_actor
find_delegation actor roles now items =
    if str_eq (normalize_actor actor) ""
    then none
    else first_serving (normalize_actor actor) (wanted_roles roles) now items
