-- ===== src/Triggers/Document.antt =====
-- JSON documents as they are written, with the blanks and the escapes of their author, and how deep they nest.
use readyagents_core.Common.{ℕ, suc, ◌≡◌, ◌≢◌, List, [], ◌∷◌, ◌++◌, ◌⊎◌, max, All}

-- No character of an atom means anything to a reader of brackets and strings.
abbrev pub IsPlain : ℕ → Type 0
IsPlain c = (c ≢ b'"') × (c ≢ b'{') × (c ≢ b'[') × (c ≢ b'}') × (c ≢ b']')

-- A space, a tab, a line feed or a carriage return.
abbrev pub IsBlank : ℕ → Type 0
IsBlank c = (c ≡ 32) ⊎ (c ≡ 9) ⊎ (c ≡ 10) ⊎ (c ≡ 13)

pub record Blank : Type 0 where
  pub chars : List ℕ
  pub are_blank : All IsBlank chars

-- What a text is written with: a character that stands for itself, or a backslash and the character after it,
-- whichever it is. (The four digits of a `\u` are characters that stand for themselves.)
pub data Piece : Type 0 where
  itself : (c : ℕ) → c ≢ b'"' → c ≢ b'\\' → Piece
  escaped : ℕ → Piece

-- A JSON document. An atom is a number or a literal, by its characters. Blanks stand around a document, in an
-- empty array or object and around a key.
mutual
  pub data Json : Type 0 where
    atom : (cs : List ℕ) → All IsPlain cs → Json
    text : List Piece → Json
    arr : Items → Json
    obj : Members → Json
    padded : Blank → Json → Blank → Json

  pub data Items : Type 0 where
    nil : Blank → Items
    cons : Json → Items → Items

  pub data Members : Type 0 where
    end : Blank → Members
    member : Blank → List Piece → Blank → Json → Members → Members

unfoldable pub pieces : List Piece → List ℕ
pieces [] = []
pieces (itself c no_quote no_backslash ∷ ps) = c ∷ pieces ps
pieces (escaped c ∷ ps) = b'\\' ∷ c ∷ pieces ps

unfoldable pub quoted : List Piece → List ℕ
unfolding pieces
quoted ps = b'"' ∷ (pieces ps ++ b'"' ∷ [])

-- A key with its colon.
unfoldable pub key_text : Blank → List Piece → Blank → List ℕ
unfolding quoted
key_text before key after = before.chars ++ (quoted key ++ (after.chars ++ b':' ∷ []))

unfoldable mutual
  unfolding key_text

  pub render : Json → List ℕ
  render (atom cs plain) = cs
  render (text ps) = quoted ps
  render (arr xs) = b'[' ∷ (render_items xs ++ b']' ∷ [])
  render (obj ms) = b'{' ∷ (render_members ms ++ b'}' ∷ [])
  render (padded before v after) = before.chars ++ (render v ++ after.chars)

  pub render_items : Items → List ℕ
  render_items (nil blank) = blank.chars
  render_items (cons x xs) = render x ++ render_rest xs

  pub render_rest : Items → List ℕ
  render_rest (nil blank) = blank.chars
  render_rest (cons x xs) = b',' ∷ (render x ++ render_rest xs)

  pub render_members : Members → List ℕ
  render_members (end blank) = blank.chars
  render_members (member before k after x ms) =
      key_text before k after ++ (render x ++ render_more ms)

  pub render_more : Members → List ℕ
  render_more (end blank) = blank.chars
  render_more (member before k after x ms) =
      b',' ∷ (key_text before k after ++ (render x ++ render_more ms))

unfoldable mutual
  pub nesting : Json → ℕ
  nesting (atom cs plain) = 0
  nesting (text ps) = 0
  nesting (arr xs) = suc (nesting_items xs)
  nesting (obj ms) = suc (nesting_members ms)
  nesting (padded before v after) = nesting v

  pub nesting_items : Items → ℕ
  nesting_items (nil blank) = 0
  nesting_items (cons x xs) = max (nesting x) (nesting_items xs)

  pub nesting_members : Members → ℕ
  nesting_members (end blank) = 0
  nesting_members (member before k after x ms) = max (nesting x) (nesting_members ms)
