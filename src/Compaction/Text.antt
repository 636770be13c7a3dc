-- ===== src/Compaction/Text.antt =====
-- Slices, prefixes and joins of texts.
use Prim.Native.Char.{Char}
use readyagents_core.Common.{
  ℕ, zero, suc, ◌≤◌, ◌≡◌, refl, sym, ap, String, true, Option, none, some, List, [], ◌∷◌,
  if◌then◌else◌, str_eq, eq_iff, if_cases, arith,
}
use readyagents_core.Cost.Prices.{text_length}

abbrev pub append : String → String → String
append String.[] t = t
append (String.◌∷◌ c s) t = String.◌∷◌ c (append s t)

-- `s[:n]` and `s[n:]`.
abbrev pub take_text : ℕ → String → String
take_text zero s = ""
take_text (suc n) String.[] = ""
take_text (suc n) (String.◌∷◌ c s) = String.◌∷◌ c (take_text n s)

abbrev pub drop_text : ℕ → String → String
drop_text zero s = s
drop_text (suc n) String.[] = ""
drop_text (suc n) (String.◌∷◌ c s) = drop_text n s

-- `s[len(p):]` if `s.startswith(p)`.
abbrev pub strip_prefix : String → String → Option String
strip_prefix String.[] s = some s
strip_prefix (String.◌∷◌ c p) String.[] = none
strip_prefix (String.◌∷◌ c p) (String.◌∷◌ d s) =
    let rest = strip_prefix p s in
    if str_eq (String.◌∷◌ c String.[]) (String.◌∷◌ d String.[]) then rest else none

-- What `join` puts after the first text.
abbrev pub joined_after : List String → String
joined_after [] = ""
joined_after (s ∷ ss) = append "\n" (append s (joined_after ss))

abbrev pub join_lines : List String → String
join_lines [] = ""
join_lines (s ∷ ss) = append s (joined_after ss)

pub append-nil : (s : String) → append s "" ≡ s
append-nil String.[] = refl
append-nil (String.◌∷◌ c s) = ap (λ t. String.◌∷◌ c t) (append-nil s)

pub append_assoc : (s t u : String) → append (append s t) u ≡ append s (append t u)
append_assoc String.[] t u = refl
append_assoc (String.◌∷◌ c s) t u = ap (λ v. String.◌∷◌ c v) (append_assoc s t u)

abbrev tail_of : String → String
tail_of String.[] = ""
tail_of (String.◌∷◌ c s) = s

abbrev head_of : Char → String → Char
head_of d String.[] = d
head_of d (String.◌∷◌ c s) = c

pub append_cancel : (s t u : String) → append s t ≡ append s u → t ≡ u
append_cancel String.[] t u h = h
append_cancel (String.◌∷◌ c s) t u h = append_cancel s t u (ap tail_of h)

pub append-take_text : (n : ℕ) (s : String) → append (take_text n s) (drop_text n s) ≡ s
append-take_text zero s = refl
append-take_text (suc n) String.[] = refl
append-take_text (suc n) (String.◌∷◌ c s) = ap (λ t. String.◌∷◌ c t) (append-take_text n s)

pub text_length-take_text : (n : ℕ) (s : String) → text_length (take_text n s) ≤ n
unfolding text_length
text_length-take_text zero s = omega arith
text_length-take_text (suc n) String.[] = omega arith
text_length-take_text (suc n) (String.◌∷◌ c s) = omega (arith, text_length-take_text n s)

same_texts :
    (c d : Char)
    → str_eq (String.◌∷◌ c String.[]) (String.◌∷◌ d String.[]) ≡ true
    → String.◌∷◌ c String.[] ≡ String.◌∷◌ d String.[]
same_texts c d = (eq_iff (String.◌∷◌ c String.[]) (String.◌∷◌ d String.[])).0

pub append-strip_prefix : (p s rest : String) → strip_prefix p s ≡ some rest → append p rest ≡ s
append-strip_prefix String.[] s rest h = some_inj (sym h)
  where
    some_inj : some rest ≡ some s → rest ≡ s
    some_inj e = ap (λ (o : Option String). elim o [ none ↦ rest | some t ↦ t ]) e
append-strip_prefix (String.◌∷◌ c p) String.[] rest h = absurd (cc)
append-strip_prefix (String.◌∷◌ c p) (String.◌∷◌ d s) rest h =
    if_cases (λ (o : Option String). o ≡ some rest → append (String.◌∷◌ c p) rest ≡ String.◌∷◌ d s)
      (str_eq (String.◌∷◌ c String.[]) (String.◌∷◌ d String.[]))
      (λ same found.
        let first : c ≡ d = ap (head_of c) (same_texts c d same) in
        let later = append-strip_prefix p s rest found in λ i. String.◌∷◌ (first i) (later i))
      (λ _ found. absurd (cc)) h
