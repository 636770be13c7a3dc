-- ===== src/Cost/Prices.antt =====
-- `quote_model`: the price of a model. `Rate` is a rate of the table, and a quote is `none` when the model
-- has no price.
use Prim.Native.String.{String}
use text.Mathlib.Text.{starts_with}
use readyagents_core.Common.{
  ℕ, suc, ◌&&◌, not, Option, none, some, [], ◌∷◌, if◌then◌else◌, str_eq, ltb, Dict, lookup, strip,
}

-- `len` of a text.
unfoldable pub text_length : String → ℕ
text_length String.[] = 0
text_length (String.◌∷◌ c s) = suc (text_length s)

-- What follows the first colon, if there is one.
unfoldable pub after_colon : String → Option String
after_colon String.[] = none
after_colon (String.◌∷◌ c s) =
    let rest = after_colon s in if str_eq (String.◌∷◌ c String.[]) ":" then some s else rest

module _ {ℓ} {Rate : Type ℓ} where
  -- Of the keys that the model begins with the longest, and of those the first.
  abbrev longer : String → Rate → Option (String × Rate) → Option (String × Rate)
  longer key rate none = some (key, rate)
  longer key rate (some (best, other)) =
      if ltb (text_length key) (text_length best) then some (best, other) else some (key, rate)

  unfoldable pub longest_prefix : String → Dict Rate → Option (String × Rate)
  unfolding text_length
  longest_prefix model [] = none
  longest_prefix model ((key, rate) ∷ prefixes) =
      let rest = longest_prefix model prefixes in
      if not (str_eq key "") && starts_with model key then longer key rate rest else rest

  abbrev prefix_rate : String → Dict Rate → Option Rate
  prefix_rate ref prefixes = elim (longest_prefix ref prefixes) [
    | none ↦ none
    | some hit ↦ some hit.1
  ]

  -- The name behind the provider, if it is not blank and in the table.
  abbrev bare_rate : Dict Rate → Option String → Option Rate
  bare_rate models none = none
  bare_rate models (some name) = if str_eq (strip name) "" then none else lookup (strip name) models

  unfoldable pub quote_model : Dict Rate → Dict Rate → String → Option Rate
  unfolding lookup longest_prefix after_colon strip
  quote_model models prefixes model =
      let ref = strip model in
      if str_eq ref "" then none else elim (lookup ref models) [
        | some rate ↦ some rate
        | none ↦ elim (bare_rate models (after_colon ref)) [
          | some rate ↦ some rate
          | none ↦ prefix_rate ref prefixes
        ]
      ]

  -- `cost_micros` of a quote; `cost_of` is the product of a rate and two counts, rounded.
  unfoldable pub cost_micros : (Rate → ℕ → ℕ → ℕ) → Option Rate → ℕ → ℕ → Option ℕ
  cost_micros cost_of none prompt completion = none
  cost_micros cost_of (some rate) prompt completion = some (cost_of rate prompt completion)
