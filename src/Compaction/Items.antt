-- ===== src/Compaction/Items.antt =====
-- `apply_compacted_items`, with lines joined. An item is its text and its other fields.
use readyagents_core.Common.{
  String, Bool, true, false, Option, none, some, List, [], ◌∷◌, map, if◌then◌else◌, str_eq,
}
use readyagents_core.Compaction.Text.{strip_prefix, join_lines}

pub record Item {ℓ} (Fields : Type ℓ) : Type ℓ where
  pub fields : Fields
  pub text : String

-- What is left for the next item, when the text of an item is all kept.
abbrev pub next_part : Option String → Option String
next_part none = none
next_part (some rest) = if str_eq rest "" then some rest else strip_prefix "\n" rest

abbrev pub rest_of : String → String → Option String
rest_of original remaining = next_part (strip_prefix original remaining)

abbrev pub is_prefix : String → String → Bool
is_prefix prefix s = elim (strip_prefix prefix s) [ none ↦ false | some rest ↦ true ]

module _ {ℓ} {Fields : Type ℓ} where
  abbrev pub texts_of : List (Item Fields) → List String
  texts_of items = map (λ item. item.text) items

  abbrev pub with_text : String → Item Fields → Item Fields
  with_text s item = record { fields = item.fields; text = s }

  abbrev pub blanks : List (Item Fields) → List (Item Fields)
  blanks items = map (with_text "") items

  unfoldable pub rewrite_items : String → List (Item Fields) → List (Item Fields)
  rewrite_items remaining [] = []
  rewrite_items remaining (item ∷ items) = elim (rest_of item.text remaining) [
    | none ↦ with_text remaining item ∷ blanks items
    | some later ↦ item ∷ rewrite_items later items
  ]

  abbrev pub only_first : String → List (Item Fields) → List (Item Fields)
  only_first kept [] = []
  only_first kept (item ∷ items) = with_text kept item ∷ blanks items

  unfoldable pub apply_compacted_items : List (Item Fields) → String → List (Item Fields)
  unfolding rewrite_items
  apply_compacted_items items kept =
      let joined = join_lines (texts_of items) in
      if str_eq kept joined
      then items
      else if is_prefix kept joined
      then rewrite_items kept items
      else only_first kept items
