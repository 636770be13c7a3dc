-- ===== src/Common/Dicts.antt =====
-- A Python dictionary keyed by texts, in insertion order: an association list.
use Prim.Native.String.{String}
use mathlib.Core.Path.{◌≡◌, refl}
use mathlib.Core.Bool.{Bool, true, false}
use mathlib.Core.List.{List, [], ◌∷◌}
use mathlib.Core.Option.{Option, none, some}
use native.Mathlib.Omega.{arith}
use text.Mathlib.Text.{◌==◌ as str_eq}
use text.Mathlib.TextEquality.{eq_iff}
use readyagents_core.Common.Tests.{if◌then◌else◌}

abbrev pub Dict {ℓ} : Type ℓ → Type ℓ
Dict V = List (String × V)

module _ {ℓ} {V : Type ℓ} where
  unfoldable pub lookup : String → Dict V → Option V
  lookup k [] = none
  lookup k ((j, v) ∷ m) = if str_eq j k then some v else lookup k m

  -- `m[k] = v`: an old key keeps its place.
  unfoldable pub insert : String → V → Dict V → Dict V
  insert k new [] = (k, new) ∷ []
  insert k new ((j, old) ∷ m) = if str_eq j k then (k, new) ∷ m else (j, old) ∷ insert k new m

  -- `m.pop(k, None)`.
  unfoldable pub remove : String → Dict V → Dict V
  remove k [] = []
  remove k ((j, v) ∷ m) = let rest = remove k m in if str_eq j k then rest else (j, v) ∷ rest

  -- `m.get(k, d)`.
  unfoldable pub get_or : String → V → Dict V → V
  unfolding lookup
  get_or k d m = elim (lookup k m) [ none ↦ d | some v ↦ v ]

  pub lookup-insert :
      (key asked : String) (new : V) (m : Dict V)
      → lookup asked (insert key new m) ≡ (if str_eq key asked then some new else lookup asked m)
  unfolding lookup insert
  lookup-insert key asked new [] = refl
  lookup-insert key asked new ((old_key, old) ∷ rest) = ground (
    arith,
    lookup-insert key asked new rest,
    eq_iff old_key asked,
    eq_iff old_key key,
    eq_iff key asked,
  )

  pub lookup-remove :
      (k j : String) (m : Dict V)
      → lookup j (remove k m) ≡ (if str_eq k j then none else lookup j m)
  unfolding lookup remove
  lookup-remove k j [] = ground arith
  lookup-remove k j ((i, v) ∷ m) =
      ground (arith, lookup-remove k j m, eq_iff i k, eq_iff i j, eq_iff k j)

  value-if :
      (b : Bool) (new default : V) (old : Option V)
      → (elim (if b then some new else old) as (λ _. V) [ none ↦ default | some v ↦ v ])
        ≡ (if b then new else elim old as (λ _. V) [ none ↦ default | some v ↦ v ])
  value-if true new default old = refl
  value-if false new default old = refl

  pub get_or-insert :
      (key asked : String) (new default : V) (m : Dict V)
      → get_or asked default (insert key new m)
        ≡ (if str_eq key asked then new else get_or asked default m)
  unfolding get_or
  get_or-insert key asked new default m =
      rw (lookup-insert key asked new m, get_or)
        (value-if (str_eq key asked) new default (lookup asked m))
