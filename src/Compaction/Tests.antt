-- ===== src/Compaction/Tests.antt =====
-- A memory of two items that is cut in the second.
use readyagents_core.Common.{ℕ, ◌≡◌, refl, arith, String, Option, none, some, [], ◌∷◌}
use readyagents_core.Compaction.Compact.{strategy_of, compact_text, Fits, compact_text-Fits}
use readyagents_core.Compaction.Items.{Item, texts_of, rewrite_items, apply_compacted_items}
use readyagents_core.Compaction.Rewriting.{Keeps, apply_compacted_items-Keeps}

abbrev no_model : String → Option String × Option String
no_model text = (none, some "summarize unavailable; truncated")

compact_text-Fits_example : Fits "a long memory" 2 (
    compact_text no_model "a long memory"
      (some (record { max_tokens = some 2; on_exceed = "truncate" })))
unfolding strategy_of
compact_text-Fits_example =
    compact_text-Fits no_model "a long memory" "truncate" 2 (omega arith) refl

abbrev item_of : ℕ → String → Item ℕ
item_of n s = record { fields = n; text = s }

apply_compacted_items-Keeps_example : Keeps "ab\nc" (
    texts_of (apply_compacted_items (item_of 1 "ab" ∷ item_of 2 "cd" ∷ item_of 3 "e" ∷ []) "ab\nc"))
apply_compacted_items-Keeps_example =
    apply_compacted_items-Keeps (item_of 1 "ab") (item_of 2 "cd" ∷ item_of 3 "e" ∷ []) "ab\nc"

cut_in_second :
    texts_of (apply_compacted_items (item_of 1 "ab" ∷ item_of 2 "cd" ∷ item_of 3 "e" ∷ []) "ab\nc")
    ≡ "ab" ∷ "c" ∷ "" ∷ []
unfolding apply_compacted_items rewrite_items
cut_in_second = refl
