-- ===== src/Triggers/Tests.antt =====
-- The caps at concrete events.
use Prim.Native.Char.{code}
use readyagents_core.Common.{
  ℕ, ◌≤◌, ◌≡◌, ◌↔◌, ◌<◌, refl, String, true, none, some, List, [], ◌∷◌, inl, arith, length, filter,
}
use readyagents_core.Triggers.Caps.{
  json_nesting_depth, scan, step, RateLimiter, too_large, admit, allow, recent, refuse_before_parse,
}
use readyagents_core.Triggers.Document.{
  Blank, Piece, itself, escaped, Json, atom, text, arr, obj, padded, nil, cons, end, member, render,
  pieces, quoted, nesting,
}
use readyagents_core.Triggers.Depth.{json_nesting_depth-render}
use readyagents_core.Triggers.Window.{history, history_within_limit}
use readyagents_core.Triggers.Gate.{refuse_before_parse-passes}

abbrev codes : String → List ℕ
codes String.[] = []
codes (String.◌∷◌ letter later) = code letter ∷ codes later

-- Brackets inside a string, behind an escaped quote, are not counted.
brackets_in_strings : json_nesting_depth (codes "{\"k\": [1, \"\\\"[[[\"]}") ≡ 2
unfolding json_nesting_depth scan step
brackets_in_strings = refl

abbrev no_blank : Blank
no_blank = record { chars = []; are_blank = tt }

abbrev space : Blank
space = record { chars = 32 ∷ []; are_blank = (inl refl, tt) }

-- A quote, a line feed and a bracket, as they are written in a string.
abbrev escapes : List Piece
escapes = escaped b'"' ∷ escaped b'n' ∷ itself b'[' (omega arith) (omega arith) ∷ []

-- {"k" : [1 ,"\"\n["]}
abbrev document : Json
document = obj (
    member no_blank (itself b'k' (omega arith) (omega arith) ∷ []) space
      (padded space
        (arr (
          cons (padded no_blank (atom (codes "1") (omega arith)) space)
            (cons (text escapes) (nil no_blank))))
        no_blank)
      (end no_blank))

render-document : render document ≡ codes "{\"k\" : [1 ,\"\\\"\\n[\"]}"
unfolding render quoted pieces
render-document = refl

json_nesting_depth-render_example : json_nesting_depth (render document) ≡ nesting document
json_nesting_depth-render_example = json_nesting_depth-render document

-- Two in ten ticks: the third arrival is refused, the fourth finds the window empty again.
third_refused : (history 2 10 [] [] (1 ∷ 2 ∷ 5 ∷ 13 ∷ [])).0 ≡ 1 ∷ 2 ∷ 13 ∷ []
unfolding history admit filter
third_refused = refl

history_within_limit_example :
    length (recent 10 13 (history 2 10 [] [] (1 ∷ 2 ∷ 5 ∷ 13 ∷ [])).0) ≤ 2
history_within_limit_example =
    history_within_limit 2 10 (1 ∷ 2 ∷ 5 ∷ 13 ∷ []) 13 (omega arith) (omega arith)

abbrev limiter : RateLimiter
limiter = record { limit = 1; window_s = 60; hits = ("hook", 5 ∷ []) ∷ [] }

refuse_before_parse-passes_example :
    let r = refuse_before_parse 70000 (codes "{}") "hook" (some limiter) 7 64000 8 in
    ((r.0 ≡ none) ↔ (
      (70000 ≤ 64000)
      × (json_nesting_depth (codes "{}") ≤ 8)
      × ((allow "hook" 7 limiter).0 ≡ true)))
    × ((r.0 ≡ some too_large) ↔ (64000 < 70000))
    × ((64000 < 70000) → r.1 ≡ some limiter)
    × ((8 < json_nesting_depth (codes "{}")) → r.1 ≡ some limiter)
refuse_before_parse-passes_example =
    refuse_before_parse-passes 70000 (codes "{}") "hook" limiter 7 64000 8
