-- ===== src/Routing/Clear.antt =====
-- When the data of a node is trusted.
use text.Mathlib.Text.{starts_with}
use readyagents_core.Common.{
  ◌≡◌, ◌↔◌, refl, String, true, false, Option, none, some, List, [], ◌∷◌, contains, All, if_cases,
  option_cases, lookup, arith,
}
use readyagents_core.Routing.Rules.{Taint, trusted}
use readyagents_core.Routing.Taint.{
  Provenance, RunState, Found, nothing_found, provenance_keys, mark_key, mark_keys, mark_path,
  mark_paths, verdict, resolve_routing_taint,
}

-- A key that nothing speaks against: its provenance is trusted and is not a memory's, or it is an input
-- without a provenance.
pub data IsClear (s : RunState) (key : String) : Type 0 where
  by_provenance :
      (p : Provenance)
      → lookup key s.provenance ≡ some p
      → p.is_untrusted ≡ false
      → starts_with p.source "memory" ≡ false
      → IsClear s key
  by_input : lookup key s.provenance ≡ none → contains key s.inputs ≡ true → IsClear s key

-- A path is clear when it is skipped, or has a key and all of its keys are clear.
abbrev pub KeysAreClear : RunState → Option (List String) → Type 0
KeysAreClear s none = Unit
KeysAreClear s (some []) = false ≡ true
KeysAreClear s (some (key ∷ keys)) = IsClear s key × All (IsClear s) keys

abbrev Clean : Found → Type 0
Clean f = (f.is_untrusted ≡ false) × (f.is_indeterminate ≡ false)

mark_key-Clean :
    (s : RunState) (key : String) (f : Found) → Clean (mark_key s key f) → Clean f × IsClear s key
mark_key-Clean s key f =
    option_cases (λ (f' : Found). Clean f' → Clean f × IsClear s key) (lookup key s.provenance)
      (λ missing.
        if_cases (λ (f' : Found). Clean f' → Clean f × IsClear s key) (contains key s.inputs)
          (λ given clean. (clean, by_input missing given)) (λ _ clean. absurd (cc)))
      (λ p found clean. (
        (ground (arith, clean), clean.1),
        by_provenance p found (ground (arith, clean)) (ground (arith, clean)),
      ))

Clean-mark_key :
    (s : RunState) (key : String) (f : Found) → Clean f → IsClear s key → Clean (mark_key s key f)
Clean-mark_key s key f clean (by_provenance p found honest fresh) =
    rw (found, mark_key) (ground (arith, clean, honest, fresh), clean.1)
Clean-mark_key s key f clean (by_input missing given) = rw (missing, given, mark_key) clean

mark_keys-Clean :
    (s : RunState) (keys : List String) (f : Found)
    → Clean (mark_keys s keys f)
    → Clean f × All (IsClear s) keys
unfolding mark_keys
mark_keys-Clean s [] f clean = (clean, tt)
mark_keys-Clean s (key ∷ keys) f clean =
    let later = mark_keys-Clean s keys (mark_key s key f) clean in
    let now = mark_key-Clean s key f later.0 in (now.0, (now.1, later.1))

Clean-mark_keys :
    (s : RunState) (keys : List String) (f : Found)
    → Clean f
    → All (IsClear s) keys
    → Clean (mark_keys s keys f)
unfolding mark_keys
Clean-mark_keys s [] f clean all = clean
Clean-mark_keys s (key ∷ keys) f clean all =
    Clean-mark_keys s keys (mark_key s key f) (Clean-mark_key s key f clean all.0) all.1

mark_path-Clean :
    (s : RunState) (keys : Option (List String)) (f : Found)
    → Clean (mark_path s keys f)
    → Clean f × KeysAreClear s keys
mark_path-Clean s none f clean = (clean, tt)
mark_path-Clean s (some []) f clean = absurd (cc)
mark_path-Clean s (some (key ∷ keys)) f clean = mark_keys-Clean s (key ∷ keys) f clean

Clean-mark_path :
    (s : RunState) (keys : Option (List String)) (f : Found)
    → Clean f
    → KeysAreClear s keys
    → Clean (mark_path s keys f)
Clean-mark_path s none f clean all = clean
Clean-mark_path s (some []) f clean all = absurd (cc)
Clean-mark_path s (some (key ∷ keys)) f clean all = Clean-mark_keys s (key ∷ keys) f clean all

mark_paths-Clean :
    (s : RunState) (paths : List String) (f : Found)
    → Clean (mark_paths s paths f)
    → Clean f × All (λ path. KeysAreClear s (provenance_keys path)) paths
unfolding mark_paths
mark_paths-Clean s [] f clean = (clean, tt)
mark_paths-Clean s (path ∷ paths) f clean =
    let later = mark_paths-Clean s paths (mark_path s (provenance_keys path) f) clean in
    let now = mark_path-Clean s (provenance_keys path) f later.0 in (now.0, (now.1, later.1))

Clean-mark_paths :
    (s : RunState) (paths : List String) (f : Found)
    → Clean f
    → All (λ path. KeysAreClear s (provenance_keys path)) paths
    → Clean (mark_paths s paths f)
unfolding mark_paths
Clean-mark_paths s [] f clean all = clean
Clean-mark_paths s (path ∷ paths) f clean all =
    Clean-mark_paths s paths (mark_path s (provenance_keys path) f)
      (Clean-mark_path s (provenance_keys path) f clean all.0) all.1

verdict-Clean : (f : Found) → verdict f ≡ trusted → Clean f
verdict-Clean f =
    if_cases (λ (t : Taint). t ≡ trusted → Clean f) f.is_untrusted (λ _ h. absurd (cc))
      λ honest.
        if_cases (λ (t : Taint). t ≡ trusted → Clean f) f.is_indeterminate (λ _ h. absurd (cc))
          (λ known h. (honest, known))

-- A node's data is trusted exactly when every path in its texts is clear: is skipped, or has a key, and each
-- of its keys has a trusted provenance that is not a memory's, or is an input without a provenance.
pub resolve_routing_taint-KeysAreClear :
    (paths : List String) (s : RunState)
    → (resolve_routing_taint paths (some s) ≡ trusted)
      ↔ All (λ path. KeysAreClear s (provenance_keys path)) paths
unfolding resolve_routing_taint
resolve_routing_taint-KeysAreClear [] s = (λ _. tt, λ _. refl)
resolve_routing_taint-KeysAreClear (path ∷ paths) s = (
  λ h.
      (mark_paths-Clean s (path ∷ paths) nothing_found
        (verdict-Clean (mark_paths s (path ∷ paths) nothing_found) h)).1,
  λ all.
      let clean = Clean-mark_paths s (path ∷ paths) nothing_found (refl, refl) all in
      rw (clean.0, clean.1, verdict) refl,
)
