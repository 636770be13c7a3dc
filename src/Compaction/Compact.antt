-- ===== src/Compaction/Compact.antt =====
-- `compact_text`. `summarize` is the call of a model: a summary, or none and a note.
use readyagents_core.Common.{
  ℕ, ◌*◌, ◌/◌, ◌≤◌, ◌≡◌, refl, max, arith, String, false, Option, none, some, if◌then◌else◌, str_eq,
  ltb, leb, strip, lower, if_cases,
}
use readyagents_core.Cost.Prices.{text_length}
use readyagents_core.Compaction.Text.{
  append, take_text, drop_text, append-nil, append-take_text, text_length-take_text,
}

pub record ContextSpec : Type 0 where
  pub max_tokens : Option ℕ
  pub on_exceed : String

pub record Payload : Type 0 where
  pub strategy : String
  pub tokens_before : ℕ
  pub tokens_after : ℕ
  pub dropped : String
  pub note : Option String

pub data Outcome : Type 0 where
  -- `MemoryError`.
  exceeded : ℕ → ℕ → Outcome
  compacted : String → Option Payload → Outcome

unfoldable pub heuristic_tokens : String → ℕ
unfolding text_length
heuristic_tokens text = if str_eq text "" then 0 else max 1 (text_length text / 4)

unfoldable pub strategy_of : String → String
unfolding strip lower
strategy_of on_exceed = lower (strip (if str_eq on_exceed "" then "truncate" else on_exceed))

unfoldable pub truncate : String → ℕ → Option String → Outcome
unfolding heuristic_tokens
truncate text limit remark =
    let cut = max 1 (limit * 4) in
    let kept = take_text cut text in
    compacted kept (
      some (record {
        strategy = "truncate";
        tokens_before = heuristic_tokens text;
        tokens_after = heuristic_tokens kept;
        dropped = take_text 8000 (drop_text cut text);
        note = remark;
      }))

abbrev pub summarized : String → ℕ → Option String × Option String → Outcome
summarized text limit (none, remark) = truncate text limit remark
summarized text limit (some summary, remark) =
    let after = heuristic_tokens summary in
    let dropped = if ltb after (heuristic_tokens text) then text else "" in
    compacted summary (
      some (record {
        strategy = "summarize";
        tokens_before = heuristic_tokens text;
        tokens_after = after;
        dropped = take_text 8000 dropped;
        note = none;
      }))

abbrev pub exceed : (String → Option String × Option String) → String → ℕ → String → Outcome
exceed summarize text limit strategy =
    if str_eq strategy "fail"
    then exceeded limit (heuristic_tokens text)
    else if str_eq strategy "summarize"
    then summarized text limit (summarize text)
    else truncate text limit none

abbrev pub within_cap :
    (String → Option String × Option String) → String → String → Option ℕ → Outcome
within_cap summarize text on_exceed none = compacted text none
within_cap summarize text on_exceed (some limit) =
    if leb (heuristic_tokens text) limit
    then compacted text none
    else exceed summarize text limit (strategy_of on_exceed)

unfoldable pub compact_text :
    (String → Option String × Option String) → String → Option ContextSpec → Outcome
unfolding truncate strategy_of
compact_text summarize text none = compacted text none
compact_text summarize text (some spec) = within_cap summarize text spec.on_exceed spec.max_tokens

-- What was dropped, as far as it is recorded.
abbrev pub dropped_of : Option Payload → String
dropped_of none = ""
dropped_of (some payload) = payload.dropped

-- What is kept is within the limit and begins the text, and the rest is recorded up to its first 8000 signs.
abbrev pub Fits : String → ℕ → Outcome → Type 0
Fits text limit (exceeded bound before) = Unit
Fits text limit (compacted kept payload) =
    (heuristic_tokens kept ≤ limit)
    × ((rest : String) × (append kept rest ≡ text) × (dropped_of payload ≡ take_text 8000 rest))

truncate-Fits :
    (text : String) (limit : ℕ) (note : Option String)
    → 1 ≤ limit
    → Fits text limit (truncate text limit note)
unfolding truncate heuristic_tokens
truncate-Fits text limit remark least =
    let cut = max 1 (limit * 4) in
    (
      ground (arith, least, text_length-take_text cut text),
      (drop_text cut text, append-take_text cut text, refl),
    )

-- A text that is not to be summarized comes out within a limit of at least 1: as it was, or as a beginning of
-- it whose rest is recorded up to its first 8000 signs, or it is refused.
pub compact_text-Fits :
    (summarize : String → Option String × Option String) (text on_exceed : String) (limit : ℕ)
    → 1 ≤ limit
    → str_eq (strategy_of on_exceed) "summarize" ≡ false
    → Fits text limit (
        compact_text summarize text
          (some (record { max_tokens = some limit; on_exceed = on_exceed })))
unfolding compact_text
compact_text-Fits summarize text on_exceed limit least plain =
    if_cases (Fits text limit) (leb (heuristic_tokens text) limit)
      (λ small. (ground (arith, small), ("", append-nil text, refl)))
      (λ _.
        if_cases (Fits text limit) (str_eq (strategy_of on_exceed) "fail") (λ _. tt)
          (λ _.
            if_cases (Fits text limit) (str_eq (strategy_of on_exceed) "summarize")
              (λ h. absurd (cc)) (λ _. truncate-Fits text limit none least)))
