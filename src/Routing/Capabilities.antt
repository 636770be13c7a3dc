-- ===== src/Routing/Capabilities.antt =====
-- `ModelCapabilities` and `CapabilityMatrix`: what is declared of a model.
use Prim.Native.String.{String, ◌++◌ as concat}
use readyagents_core.Common.{
  ℕ, Bool, true, false, ◌&&◌, ◌||◌, not, Option, none, some, List, [], ◌∷◌, map, if◌then◌else◌,
  str_eq, ltb, Dict, lookup, strip, lower, contains,
}
use readyagents_core.Cost.Prices.{after_colon, longest_prefix}

pub record ModelCapabilities : Type 0 where
  pub context_window : ℕ
  pub tool_calling : Bool
  pub structured_output : Bool
  pub media : Bool
  pub streaming : Bool
  pub local : Bool
  pub latency_class : String
  pub quality_class : String
  pub found_by : String

-- `RouteRequire.as_dict`: a flag that is not required is left out of the dictionary, here it is `false`.
pub record Require : Type 0 where
  pub tool_calling : Bool
  pub structured_output : Bool
  pub media : Bool
  pub streaming : Bool
  pub local : Bool
  pub min_context_window : Option ℕ

abbrev pub no_require : Require
no_require = record {
  tool_calling = false;
  structured_output = false;
  media = false;
  streaming = false;
  local = false;
  min_context_window = none;
}

abbrev pub meets : Bool → Bool → Bool
meets required has = not required || has

abbrev pub wide_enough : Option ℕ → ℕ → Bool
wide_enough none window = true
wide_enough (some least) window = not (ltb window least)

unfoldable pub supports : Require → ModelCapabilities → Bool
supports r c =
    meets r.tool_calling c.tool_calling
    && meets r.structured_output c.structured_output
    && meets r.media c.media
    && meets r.streaming c.streaming
    && meets r.local c.local
    && wide_enough r.min_context_window c.context_window

pub record CapabilityMatrix : Type 0 where
  pub models : Dict ModelCapabilities
  pub prefixes : Dict ModelCapabilities

unfoldable pub catalog_refs : CapabilityMatrix → List String
catalog_refs matrix = map (λ entry. entry.0) matrix.models

-- The name behind the provider, if it is in the table.
abbrev bare_model : CapabilityMatrix → Option String → Option ModelCapabilities
bare_model matrix none = none
bare_model matrix (some name) =
    if str_eq (strip name) "" then none else lookup (strip name) matrix.models

abbrev by_prefix : Option (String × ModelCapabilities) → Option ModelCapabilities
by_prefix none = none
by_prefix (some (key, caps)) = some (record caps { found_by = concat "prefix:" key })

unfoldable pub lookup_model : CapabilityMatrix → String → Option ModelCapabilities
unfolding lookup strip after_colon longest_prefix
lookup_model matrix model =
    let ref = strip model in
    if str_eq ref "" then none else elim (lookup ref matrix.models) [
      | some exact ↦ some exact
      | none ↦ elim (bare_model matrix (after_colon ref)) [
        | some hit ↦ some (record hit { found_by = "exact-id" })
        | none ↦ by_prefix (longest_prefix ref matrix.prefixes)
      ]
    ]

-- What stands before the first colon.
unfoldable before_colon : String → String
before_colon String.[] = String.[]
before_colon (String.◌∷◌ c s) =
    let rest = before_colon s in
    if str_eq (String.◌∷◌ c String.[]) ":" then String.[] else String.◌∷◌ c rest

-- The provider that `parse_model_ref` finds in a reference that is not empty.
unfoldable pub provider_of : String → String
unfolding before_colon after_colon strip lower
provider_of ref = elim (after_colon ref) [
  | none ↦ "openai"
  | some name ↦ lower (strip (before_colon ref))
]

abbrev local_providers : List String
local_providers = "ollama" ∷ []

unfoldable pub is_local_ref : CapabilityMatrix → String → Bool
unfolding strip provider_of contains
is_local_ref matrix model =
    let ref = strip model in
    if str_eq ref "" then false else elim (lookup_model matrix ref) [
      | some caps ↦ caps.local
      | none ↦ contains (provider_of ref) local_providers
    ]

unfoldable pub is_hosted_ref : CapabilityMatrix → String → Bool
is_hosted_ref matrix model = not (is_local_ref matrix model)
