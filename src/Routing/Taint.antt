-- ===== src/Routing/Taint.antt =====
-- `resolve_routing_taint` of `routing/taint.py`. A path stands between braces in the prompt or the system
-- text of a node; `template_paths`, which finds them, is left out.
use Prim.Native.Char.{Char}
use text.Mathlib.Text.{starts_with}
use readyagents_core.Common.{
  String, Bool, true, false, ◌||◌, not, Option, none, some, List, [], ◌∷◌, if◌then◌else◌, str_eq,
  contains, filter, Dict, lookup,
}
use readyagents_core.Routing.Rules.{Taint, trusted, untrusted, indeterminate}

-- What `from_mapping` makes of an entry of the provenance.
pub record Provenance : Type 0 where
  pub is_untrusted : Bool
  pub source : String

pub record RunState : Type 0 where
  pub inputs : List String
  pub provenance : Dict Provenance

pub record Found : Type 0 where
  pub is_untrusted : Bool
  pub is_indeterminate : Bool

abbrev pub nothing_found : Found
nothing_found = record { is_untrusted = false; is_indeterminate = false }

abbrev extend : Char → List String → List String
extend c [] = String.◌∷◌ c String.[] ∷ []
extend c (part ∷ parts) = String.◌∷◌ c part ∷ parts

-- `str.split(".")`.
unfoldable pub split_dots : String → List String
split_dots String.[] = String.[] ∷ []
split_dots (String.◌∷◌ c s) =
    let rest = split_dots s in
    if str_eq (String.◌∷◌ c String.[]) "." then String.[] ∷ rest else extend c rest

abbrev is_given : String → Bool
is_given part = not (str_eq part "")

abbrev skip_roots : List String
skip_roots = "run_id" ∷ "true" ∷ "false" ∷ "none" ∷ []

abbrev namespace_roots : List String
namespace_roots = "outputs" ∷ "inputs" ∷ []

abbrev second : List String → List String
second [] = []
second (part ∷ parts) = part ∷ []

-- The keys of a path; none to skip it, and no key when it cannot be resolved.
unfoldable pub provenance_keys : String → Option (List String)
unfolding split_dots filter contains
provenance_keys path = elim (filter is_given (split_dots path)) [
  | [] ↦ none
  | root ∷ rest ↦
      if contains root skip_roots
      then none
      else if contains root namespace_roots
      then some (second rest)
      else some (root ∷ [])
]

-- A source that begins with `memory` is not trusted.
abbrev pub is_tainted : Provenance → Bool
is_tainted p = p.is_untrusted || starts_with p.source "memory"

abbrev pub mark_key : RunState → String → Found → Found
mark_key s key f = elim (lookup key s.provenance) [
  | none ↦ if contains key s.inputs then f else record f { is_indeterminate = true }
  | some p ↦ record f { is_untrusted = is_tainted p || f.is_untrusted }
]

unfoldable pub mark_keys : RunState → List String → Found → Found
mark_keys s [] f = f
mark_keys s (key ∷ keys) f = mark_keys s keys (mark_key s key f)

abbrev pub mark_path : RunState → Option (List String) → Found → Found
mark_path s none f = f
mark_path s (some []) f = record f { is_indeterminate = true }
mark_path s (some (key ∷ keys)) f = mark_keys s (key ∷ keys) f

unfoldable pub mark_paths : RunState → List String → Found → Found
unfolding provenance_keys
mark_paths s [] f = f
mark_paths s (path ∷ paths) f = mark_paths s paths (mark_path s (provenance_keys path) f)

abbrev pub verdict : Found → Taint
verdict f =
    if f.is_untrusted then untrusted else if f.is_indeterminate then indeterminate else trusted

unfoldable pub resolve_routing_taint : List String → Option RunState → Taint
unfolding mark_paths
resolve_routing_taint [] state = trusted
resolve_routing_taint (path ∷ paths) none = indeterminate
resolve_routing_taint (path ∷ paths) (some s) = verdict (mark_paths s (path ∷ paths) nothing_found)
