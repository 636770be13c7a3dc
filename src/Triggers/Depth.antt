-- ===== src/Triggers/Depth.antt =====
-- The depth that the cap counts against the nesting of a document.
use mathlib.Core.List.{append_assoc, append-nil}
use readyagents_core.Common.{
  ℕ, suc, ◌+◌, ◌-◌, ◌≤◌, ◌≡◌, refl, ◌∙◌, ap, true, false, List, [], ◌∷◌, ◌++◌, max, arith, All,
}
use readyagents_core.Triggers.Caps.{Scan, step, scan, start, json_nesting_depth}
use readyagents_core.Triggers.Document.{
  IsPlain, IsBlank, Blank, Piece, itself, escaped, Json, atom, text, arr, obj, padded, Items, nil,
  cons, Members, end, member, pieces, quoted, key_text, render, render_items, render_rest,
  render_members, render_more, nesting, nesting_items, nesting_members,
}

-- Outside of strings, at some depth.
abbrev pub at : ℕ → ℕ → Scan
at d m = record { depth = d; max_depth = m; in_str = false; escape = false }

scan-append : (xs ys : List ℕ) (s : Scan) → scan (xs ++ ys) s ≡ scan ys (scan xs s)
unfolding scan
scan-append [] ys s = refl
scan-append (x ∷ xs) ys s = scan-append xs ys (step x s)

scan-pieces :
    (ps : List Piece) (rest : List ℕ) (d m : ℕ)
    → scan (pieces ps ++ rest) (record { depth = d; max_depth = m; in_str = true; escape = false })
      ≡ scan rest (record { depth = d; max_depth = m; in_str = true; escape = false })
unfolding scan pieces step
scan-pieces [] rest d m = refl
scan-pieces (itself c no_quote no_backslash ∷ ps) rest d m =
    ground (arith, no_quote, no_backslash, scan-pieces ps rest d m)
scan-pieces (escaped c ∷ ps) rest d m = scan-pieces ps rest d m

scan-quoted :
    (ps : List Piece) (rest : List ℕ) (d m : ℕ)
    → scan (quoted ps ++ rest) (at d m) ≡ scan rest (at d m)
unfolding scan quoted step
scan-quoted ps rest d m = rw append_assoc (scan-pieces ps (b'"' ∷ rest) d m)

scan-plain :
    (cs rest : List ℕ) (d m : ℕ) → All IsPlain cs → scan (cs ++ rest) (at d m) ≡ scan rest (at d m)
unfolding scan step
scan-plain [] rest d m h = refl
scan-plain (c ∷ cs) rest d m h = ground (arith, scan-plain cs rest d m)

blank-IsPlain : (cs : List ℕ) → All IsBlank cs → All IsPlain cs
blank-IsPlain [] h = tt
blank-IsPlain (c ∷ cs) h = (omega (arith, h.0), blank-IsPlain cs h.1)

scan-blank :
    (b : Blank) (rest : List ℕ) (d m : ℕ) → scan (b.chars ++ rest) (at d m) ≡ scan rest (at d m)
scan-blank b rest d m = scan-plain b.chars rest d m (blank-IsPlain b.chars b.are_blank)

scan-key_text :
    (before : Blank) (k : List Piece) (after : Blank) (rest : List ℕ) (d m : ℕ)
    → scan (key_text before k after ++ rest) (at d m) ≡ scan rest (at d m)
unfolding scan key_text step
scan-key_text before k after rest d m =
    rw (append_assoc before.chars (quoted k ++ (after.chars ++ b':' ∷ [])) rest) (
      scan-blank before ((quoted k ++ (after.chars ++ b':' ∷ [])) ++ rest) d m
      ∙ rw (append_assoc (quoted k) (after.chars ++ b':' ∷ []) rest) (
          scan-quoted k ((after.chars ++ b':' ∷ []) ++ rest) d m
          ∙ rw (append_assoc after.chars (b':' ∷ []) rest) (scan-blank after (b':' ∷ rest) d m)))

to_level : (rest : List ℕ) (d : ℕ) {m n : ℕ} → m ≡ n → scan rest (at d m) ≡ scan rest (at d n)
to_level rest d e = ap (λ k. scan rest (at d k)) e

closes :
    (rest : List ℕ) (d m n : ℕ)
    → scan rest (at (d + 1 - 1) (max (max m (d + 1)) (d + 1 + n)))
      ≡ scan rest (at d (max m (d + suc n)))
closes rest d m n =
    let same : d + 1 - 1 ≡ d = omega arith in rw same (to_level rest d (omega arith))

-- The scan of one document, started outside of strings: it comes back to its depth, and has seen as
-- many levels more as the document nests.
mutual
  unfolding render nesting scan step

  scan-render :
      (v : Json) (rest : List ℕ) (d m : ℕ)
      → d ≤ m
      → scan (render v ++ rest) (at d m) ≡ scan rest (at d (max m (d + nesting v)))
  scan-render (atom cs plain) rest d m h =
      scan-plain cs rest d m plain ∙ to_level rest d (omega arith)
  scan-render (text ps) rest d m h = scan-quoted ps rest d m ∙ to_level rest d (omega arith)
  scan-render (arr xs) rest d m h = rw (append_assoc (render_items xs) (b']' ∷ []) rest) (
      scan-render_items xs (b']' ∷ rest) (d + 1) (max m (d + 1)) (omega arith)
      ∙ closes rest d m (nesting_items xs))
  scan-render (obj ms) rest d m h = rw (append_assoc (render_members ms) (b'}' ∷ []) rest) (
      scan-render_members ms (b'}' ∷ rest) (d + 1) (max m (d + 1)) (omega arith)
      ∙ closes rest d m (nesting_members ms))
  scan-render (padded before v after) rest d m h =
      rw (append_assoc before.chars (render v ++ after.chars) rest) (
        scan-blank before ((render v ++ after.chars) ++ rest) d m
        ∙ rw (append_assoc (render v) after.chars rest) (
            scan-render v (after.chars ++ rest) d m h
            ∙ scan-blank after rest d (max m (d + nesting v))))

  scan-render_items :
      (xs : Items) (rest : List ℕ) (d m : ℕ)
      → d ≤ m
      → scan (render_items xs ++ rest) (at d m) ≡ scan rest (at d (max m (d + nesting_items xs)))
  scan-render_items (nil blank) rest d m h =
      scan-blank blank rest d m ∙ to_level rest d (omega arith)
  scan-render_items (cons x xs) rest d m h = rw (append_assoc (render x) (render_rest xs) rest) (
      scan-render x (render_rest xs ++ rest) d m h
      ∙ scan-render_rest xs rest d (max m (d + nesting x)) (omega arith)
      ∙ to_level rest d (omega arith))

  scan-render_rest :
      (xs : Items) (rest : List ℕ) (d m : ℕ)
      → d ≤ m
      → scan (render_rest xs ++ rest) (at d m) ≡ scan rest (at d (max m (d + nesting_items xs)))
  scan-render_rest (nil blank) rest d m h =
      scan-blank blank rest d m ∙ to_level rest d (omega arith)
  scan-render_rest (cons x xs) rest d m h = rw (append_assoc (render x) (render_rest xs) rest) (
      scan-render x (render_rest xs ++ rest) d m h
      ∙ scan-render_rest xs rest d (max m (d + nesting x)) (omega arith)
      ∙ to_level rest d (omega arith))

  scan-render_members :
      (ms : Members) (rest : List ℕ) (d m : ℕ)
      → d ≤ m
      → scan (render_members ms ++ rest) (at d m)
        ≡ scan rest (at d (max m (d + nesting_members ms)))
  scan-render_members (end blank) rest d m h =
      scan-blank blank rest d m ∙ to_level rest d (omega arith)
  scan-render_members (member before k after x ms) rest d m h =
      rw (append_assoc (key_text before k after) (render x ++ render_more ms) rest) (
        scan-key_text before k after ((render x ++ render_more ms) ++ rest) d m
        ∙ rw (append_assoc (render x) (render_more ms) rest) (
            scan-render x (render_more ms ++ rest) d m h
            ∙ scan-render_more ms rest d (max m (d + nesting x)) (omega arith)
            ∙ to_level rest d (omega arith)))

  scan-render_more :
      (ms : Members) (rest : List ℕ) (d m : ℕ)
      → d ≤ m
      → scan (render_more ms ++ rest) (at d m) ≡ scan rest (at d (max m (d + nesting_members ms)))
  scan-render_more (end blank) rest d m h =
      scan-blank blank rest d m ∙ to_level rest d (omega arith)
  scan-render_more (member before k after x ms) rest d m h =
      rw (append_assoc (key_text before k after) (render x ++ render_more ms) rest) (
        scan-key_text before k after ((render x ++ render_more ms) ++ rest) d m
        ∙ rw (append_assoc (render x) (render_more ms) rest) (
            scan-render x (render_more ms ++ rest) d m h
            ∙ scan-render_more ms rest d (max m (d + nesting x)) (omega arith)
            ∙ to_level rest d (omega arith)))

-- On every JSON document as it is written, with blanks between its parts and strings with brackets, quotes, backslashes
-- and any other escapes in them, the depth that is counted before parsing is the nesting of the document's
-- arrays and objects.
pub json_nesting_depth-render : (v : Json) → json_nesting_depth (render v) ≡ nesting v
unfolding json_nesting_depth scan
json_nesting_depth-render v =
    let done : scan (render v) start ≡ at 0 (max 0 (0 + nesting v)) =
      rw (append-nil (render v)) at (scan-render v [] 0 0 (omega arith)) in
    ap (λ (s : Scan). s.max_depth) done ∙ omega arith
