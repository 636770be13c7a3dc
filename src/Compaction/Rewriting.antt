-- ===== src/Compaction/Rewriting.antt =====
-- What is left in the items of a memory.
use readyagents_core.Common.{
  ◌≡◌, refl, sym, ◌∙◌, ap, subst, String, Option, none, some, List, [], ◌∷◌, str_eq, eq_iff,
  if_cases, option_cases, Option-cases, inl, inr, ◌⊎◌,
}
use readyagents_core.Compaction.Text.{
  append, strip_prefix, joined_after, join_lines, append-nil, append_assoc, append_cancel,
  append-strip_prefix,
}
use readyagents_core.Compaction.Items.{
  Item, texts_of, with_text, blanks, next_part, rest_of, rewrite_items, is_prefix,
  apply_compacted_items,
}

-- As many line breaks as there are texts.
abbrev pub breaks : List String → String
breaks [] = ""
breaks (s ∷ ss) = append "\n" (breaks ss)

-- The text of the items is what is kept, followed by line breaks at most.
pub record Keeps (kept : String) (texts : List String) : Type 0 where
  pub padding : List String
  pub same : join_lines texts ≡ append kept (breaks padding)

-- How a text that keeps all of an item goes on.
FollowsFrom : String → String → String → Type 0
FollowsFrom original remaining later =
    ((remaining ≡ original) × (later ≡ "")) ⊎ (remaining ≡ append original (append "\n" later))

next_part-FollowsFrom :
    (original remaining rest later : String)
    → append original rest ≡ remaining
    → next_part (some rest) ≡ some later
    → FollowsFrom original remaining later
unfolding FollowsFrom
next_part-FollowsFrom original remaining rest later whole =
    if_cases (λ (o : Option String). o ≡ some later → FollowsFrom original remaining later)
      (str_eq rest "")
      (λ empty found.
        let nothing : rest ≡ "" = (eq_iff rest "").0 empty in
        inl (
          sym whole ∙ ap (append original) nothing ∙ append-nil original,
          ap (λ (o : Option String). elim o [ none ↦ "" | some s ↦ s ]) (sym found) ∙ nothing,
        ))
      (λ _ found.
        inr (sym whole ∙ ap (append original) (sym (append-strip_prefix "\n" rest later found))))

rest_of-FollowsFrom :
    (original remaining later : String)
    → rest_of original remaining ≡ some later
    → FollowsFrom original remaining later
rest_of-FollowsFrom original remaining later found =
    elim (Option-cases (strip_prefix original remaining)) [
      | inl missing ↦
          let bad : none ≡ some later = subst (λ o. next_part o ≡ some later) missing found in
          absurd (cc)
      | inr (rest, stripped) ↦
          next_part-FollowsFrom original remaining rest later
            (append-strip_prefix original remaining rest stripped)
            (subst (λ o. next_part o ≡ some later) stripped found)
    ]

module _ {ℓ} {Fields : Type ℓ} where
  joined_after-blanks :
      (items : List (Item Fields))
      → joined_after (texts_of (blanks items)) ≡ breaks (texts_of (blanks items))
  joined_after-blanks [] = refl
  joined_after-blanks (item ∷ items) = ap (λ s. append "\n" s) (joined_after-blanks items)

  cut-Keeps :
      (remaining : String) (item : Item Fields) (items : List (Item Fields))
      → Keeps remaining (texts_of (with_text remaining item ∷ blanks items))
  cut-Keeps remaining item items = record {
    padding = texts_of (blanks items);
    same = ap (append remaining) (joined_after-blanks items);
  }

  -- The texts of the items after the first, joined.
  joined_after-rewrite_items :
      (remaining : String) (item : Item Fields) (items : List (Item Fields))
      → joined_after (texts_of (rewrite_items remaining (item ∷ items)))
        ≡ append "\n" (join_lines (texts_of (rewrite_items remaining (item ∷ items))))
  unfolding rewrite_items
  joined_after-rewrite_items remaining item items =
      option_cases
        (λ (out : List (Item Fields)).
          joined_after (texts_of out) ≡ append "\n" (join_lines (texts_of out)))
        (rest_of item.text remaining) (λ _. refl) (λ later _. refl)

  rewrite_items-Keeps :
      (remaining tail : String) (item : Item Fields) (items : List (Item Fields))
      → append remaining tail ≡ join_lines (texts_of (item ∷ items))
      → Keeps remaining (texts_of (rewrite_items remaining (item ∷ items)))
  unfolding rewrite_items FollowsFrom
  rewrite_items-Keeps remaining tail item [] begins =
      option_cases (λ (out : List (Item Fields)). Keeps remaining (texts_of out))
        (rest_of item.text remaining) (λ _. cut-Keeps remaining item [])
        (λ later found. elim (rest_of-FollowsFrom item.text remaining later found) [
          | inl (whole, _) ↦ record { padding = []; same = ap (λ s. append s "") (sym whole) }
          | inr more ↦
              let clash : append (append "\n" later) tail ≡ "" = append_cancel item.text _ "" (
                sym (append_assoc item.text (append "\n" later) tail)
                ∙ ap (λ s. append s tail) (sym more)
                ∙ begins) in
              absurd (cc)
        ])
  rewrite_items-Keeps remaining tail item (next ∷ items) begins =
      option_cases (λ (out : List (Item Fields)). Keeps remaining (texts_of out))
        (rest_of item.text remaining) (λ _. cut-Keeps remaining item (next ∷ items))
        (λ later found. elim (rest_of-FollowsFrom item.text remaining later found) [
          | inl (whole, nothing) ↦
              let back = sym whole in
              let rest =
                rewrite_items-Keeps later (join_lines (texts_of (next ∷ items))) next items
                  (ap (λ s. append s (join_lines (texts_of (next ∷ items)))) nothing) in
              record {
                padding = "" ∷ rest.padding;
                same =
                    ap (append item.text) (joined_after-rewrite_items later next items)
                    ∙ ap (λ s. append item.text (append "\n" s)) rest.same
                    ∙ (λ i.
                        append (back i) (append "\n" (append (nothing i) (breaks rest.padding))));
              }
          | inr more ↦
              let goes_on =
                append_cancel "\n" (append later tail) (join_lines (texts_of (next ∷ items))) (
                  append_cancel item.text (append (append "\n" later) tail)
                    (append "\n" (join_lines (texts_of (next ∷ items))))
                    (sym (append_assoc item.text (append "\n" later) tail)
                      ∙ ap (λ s. append s tail) (sym more)
                      ∙ begins)) in
              let rest = rewrite_items-Keeps later tail next items goes_on in
              record {
                padding = rest.padding;
                same =
                    ap (append item.text) (joined_after-rewrite_items later next items)
                    ∙ ap (λ s. append item.text (append "\n" s)) rest.same
                    ∙ sym (append_assoc item.text (append "\n" later) (breaks rest.padding))
                    ∙ ap (λ s. append s (breaks rest.padding)) (sym more);
              }
        ])

  -- Whatever text is kept, the items after the compaction join to that text, followed by line breaks at
  -- most: nothing that was dropped is left in them.
  pub apply_compacted_items-Keeps :
      (item : Item Fields) (items : List (Item Fields)) (kept : String)
      → Keeps kept (texts_of (apply_compacted_items (item ∷ items) kept))
  unfolding apply_compacted_items
  apply_compacted_items-Keeps item items kept =
      let P : List (Item Fields) → Type 0 = λ out. Keeps kept (texts_of out) in
      let joined = join_lines (texts_of (item ∷ items)) in
      if_cases P (str_eq kept joined)
        (λ same. record {
          padding = [];
          same = sym (append-nil kept ∙ (eq_iff kept joined).0 same);
        })
        (λ _. elim (Option-cases (strip_prefix kept joined)) [
          | inl missing ↦ rw (missing, is_prefix) (cut-Keeps kept item items)
          | inr (tail, stripped) ↦
              rw (stripped, is_prefix)
                (rewrite_items-Keeps kept tail item items
                  (append-strip_prefix kept joined tail stripped))
        ])
