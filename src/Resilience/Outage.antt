-- ===== src/Resilience/Outage.antt =====
-- The circuit of a model over a row of failures.
use readyagents_core.Common.{
  ℕ, ◌+◌, ◌≤◌, ◌≡◌, ◌≢◌, refl, String, true, none, some, List, [], ◌∷◌, arith, leb, ltb, ◌&&◌, not,
  if◌then◌else◌, length, Dict, lookup, insert, get_or, lookup-insert, lookup-remove, str_eq, eq_iff,
  eq_refl,
}
use readyagents_core.Resilience.Breaker.{Breaker, allow, record_success, record_failure}

-- How many failures a model is charged with.
abbrev pub failures : String → Breaker → ℕ
failures model b = get_or model 0 b.fail_count

-- The last of some times, or a time from before them.
abbrev pub last_time : ℕ → List ℕ → ℕ
last_time t [] = t
last_time t (u ∷ us) = last_time u us

unfoldable pub fail_all : String → List ℕ → Breaker → Breaker
fail_all model [] b = b
fail_all model (now ∷ times) b = fail_all model times (record_failure model now b)

get_or-insert :
    (k j : String) (v d : ℕ) (m : Dict ℕ)
    → get_or j d (insert k v m) ≡ (if str_eq k j then v else get_or j d m)
unfolding get_or
get_or-insert k j v d m = ground (arith, lookup-insert k j v m)

-- A further failure of a model: one more on the count, and at the threshold the circuit is open until
-- the pause has passed, from this failure on.
failures-record_failure :
    (model : String) (now : ℕ) (b : Breaker)
    → (failures model (record_failure model now b) ≡ failures model b + 1)
      × (lookup model (record_failure model now b).open_until ≡ (
          if leb b.failure_threshold (failures model b + 1)
          then some (now + b.cooldown_seconds)
          else lookup model b.open_until))
unfolding record_failure
failures-record_failure model now b = ground (
  arith,
  get_or-insert model model (failures model b + 1) 0 b.fail_count,
  lookup-insert model model (now + b.cooldown_seconds) b.open_until,
  eq_refl model,
)

constants :
    (model : String) (now : ℕ) (b : Breaker)
    → ((record_failure model now b).failure_threshold ≡ b.failure_threshold)
      × ((record_failure model now b).cooldown_seconds ≡ b.cooldown_seconds)
unfolding record_failure
constants model now b = (refl, refl)

-- After failures at the given times, and no success between, the circuit of the model is open until
-- the pause after the last failure has passed, if together with what was charged before they reach
-- the threshold; and otherwise it is as it was before them.
pub open_until-fail_all :
    (model : String) (now : ℕ) (times : List ℕ) (b : Breaker)
    → lookup model (fail_all model (now ∷ times) b).open_until ≡ (
        if leb b.failure_threshold (failures model b + length (now ∷ times))
        then some (last_time now times + b.cooldown_seconds)
        else lookup model b.open_until)
unfolding fail_all
open_until-fail_all model now [] b = (failures-record_failure model now b).1
open_until-fail_all model now (next ∷ times) b =
    let b' = record_failure model now b in
    ground (
      arith,
      open_until-fail_all model next times b',
      failures-record_failure model now b,
      constants model now b,
    )

-- A model that nothing is charged to is refused after a row of failures exactly when there are at
-- least as many as the threshold and the pause after the last one has not passed.
pub allow-fail_all :
    (model : String) (now : ℕ) (times : List ℕ) (later : ℕ) (b : Breaker)
    → lookup model b.open_until ≡ none
    → failures model b ≡ 0
    → (allow model later (fail_all model (now ∷ times) b)).0
      ≡ not (
          leb b.failure_threshold (length (now ∷ times))
          && ltb later (last_time now times + b.cooldown_seconds))
unfolding allow
allow-fail_all model now times later b closed clean =
    ground (arith, open_until-fail_all model now times b)

-- A model that is let through again after its pause starts with a clean count: it takes as many
-- failures as the threshold to close it off once more.
pub allow_resets :
    (model : String) (now until : ℕ) (b : Breaker)
    → lookup model b.open_until ≡ some until
    → until ≤ now
    → ((allow model now b).0 ≡ true)
      × (failures model (allow model now b).1 ≡ 0)
      × (lookup model (allow model now b).1.open_until ≡ none)
unfolding allow
allow_resets model now until b open_ past = ground (
  arith,
  get_or-insert model model 0 0 b.fail_count,
  lookup-remove model model b.open_until,
  eq_refl model,
)

-- What a breaker knows of a model: the failures charged to it, and its pause.
abbrev pub Same : String → Breaker → Breaker → Type 0
Same model b c =
    (failures model b ≡ failures model c) × (lookup model b.open_until ≡ lookup model c.open_until)

-- What happens to one model changes nothing that the breaker knows of another.
pub models_apart :
    (model other : String) (now : ℕ) (b : Breaker)
    → model ≢ other
    → Same other (record_failure model now b) b
      × Same other (record_success model b) b
      × Same other (allow model now b).1 b
unfolding record_failure record_success allow
models_apart model other now b apart = (failed, succeeded, asked)
  where
    failed : Same other (record_failure model now b) b
    failed = ground (
      arith,
      get_or-insert model other (failures model b + 1) 0 b.fail_count,
      lookup-insert model other (now + b.cooldown_seconds) b.open_until,
      eq_iff model other,
    )

    succeeded : Same other (record_success model b) b
    succeeded = ground (
      arith,
      get_or-insert model other 0 0 b.fail_count,
      lookup-remove model other b.open_until,
      eq_iff model other,
    )

    asked : Same other (allow model now b).1 b
    asked = ground (
      arith,
      get_or-insert model other 0 0 b.fail_count,
      lookup-remove model other b.open_until,
      eq_iff model other,
    )
