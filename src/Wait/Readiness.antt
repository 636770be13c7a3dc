-- ===== src/Wait/Readiness.antt =====
-- When a wait is satisfied, and what more events do to it.
use mathlib.Core.List.{append-nil}
use readyagents_core.Common.{
  ℕ, ◌+◌, ◌≤◌, ◌≡◌, refl, sym, ◌∙◌, ap, subst, String, Bool, true, false, not, ◌&&◌, ◌||◌, Option,
  none, some, List, [], ◌∷◌, ◌++◌, map, ◌==◌, if◌then◌else◌, str_eq, length, filter, any, if_cases,
  inl, inr, ◌⊎◌, arith,
}
use readyagents_core.Wait.Json.{Json, null, Fields, has_fields}
use readyagents_core.Wait.Record.{WaitRecord}
use readyagents_core.Wait.Evaluation.{
  WaitWorld, WaitOutcome, Condition, conditions, first_event, event_hit, add_hit, hits_of,
  add_waiting, waiting_names, count_set, is_some_hit, is_ready, is_past, outcome_of, evaluate_wait,
}

abbrev pub has_hit : Option Json → Bool
has_hit none = false
has_hit (some payload) = true

abbrev pub is_met : Condition → Bool
is_met c = c.is_set && has_hit c.hit

abbrev pub is_missing : Condition → Bool
is_missing c = c.is_set && not (has_hit c.hit)

-- The conditions of a wait hold: all that are set, of which there is one, or one of them.
abbrev pub holds : Bool → List Condition → Bool
holds wants_all cs =
    if wants_all then any (λ c. c.is_set) cs && not (any is_missing cs) else any is_met cs

hits_step :
    (c : Condition) (is_set : Bool) (hit : Option Json) (hits : List (String × Json)) (n : ℕ)
    (missing : Bool)
    → length hits ≤ n
    → (length hits == n) ≡ not missing
    → (length (if is_set then add_hit c hit hits else hits) ≤ (if is_set then 1 else 0) + n)
      × ((length (if is_set then add_hit c hit hits else hits) == (if is_set then 1 else 0) + n)
          ≡ not (is_set && not (has_hit hit) || missing))
hits_step c false hit hits n missing few same = (omega (arith, few), ground (arith, same))
hits_step c true none hits n missing few same = (omega (arith, few), ground (arith, few))
hits_step c true (some payload) hits n missing few same = (omega (arith, few), ground (arith, same))

-- There are as many hits as conditions when none is missing.
hits_of-count_set :
    (cs : List Condition)
    → (length (hits_of cs) ≤ count_set cs)
      × ((length (hits_of cs) == count_set cs) ≡ not (any is_missing cs))
unfolding hits_of count_set any
hits_of-count_set [] = (omega arith, refl)
hits_of-count_set (c ∷ cs) =
    let before = hits_of-count_set cs in
    hits_step c c.is_set c.hit (hits_of cs) (count_set cs) (any is_missing cs) before.0 before.1

met_step :
    (c : Condition) (is_set : Bool) (hit : Option Json) (hits : List (String × Json)) (met : Bool)
    → is_some_hit hits ≡ met
    → is_some_hit (if is_set then add_hit c hit hits else hits) ≡ (is_set && has_hit hit || met)
met_step c false hit hits met h = h
met_step c true none hits met h = h
met_step c true (some payload) hits met h = refl

is_some_hit-any : (cs : List Condition) → is_some_hit (hits_of cs) ≡ any is_met cs
unfolding hits_of any
is_some_hit-any [] = refl
is_some_hit-any (c ∷ cs) =
    met_step c c.is_set c.hit (hits_of cs) (any is_met cs) (is_some_hit-any cs)

count_set-any : (cs : List Condition) → (count_set cs == 0) ≡ not (any (λ c. c.is_set) cs)
unfolding count_set any
count_set-any [] = refl
count_set-any (c ∷ cs) = ground (arith, count_set-any cs)

any_met_set : (cs : List Condition) → any is_met cs ≡ true → any (λ c. c.is_set) cs ≡ true
unfolding any
any_met_set [] h = h
any_met_set (c ∷ cs) h = ground (arith, any_met_set cs)

is_ready-holds :
    (wants_all : Bool) (cs : List Condition) → is_ready wants_all cs ≡ holds wants_all cs
unfolding is_ready
is_ready-holds wants_all cs =
    ground (arith, count_set-any cs, hits_of-count_set cs, is_some_hit-any cs, any_met_set cs)

waiting_step :
    (c : Condition) (is_set : Bool) (hit : Option Json) (names : List String)
    (missing : List Condition)
    → names ≡ map (λ d. d.name) missing
    → (if is_set then add_waiting c hit names else names)
      ≡ map (λ d. d.name) (if is_set && not (has_hit hit) then c ∷ missing else missing)
waiting_step c false hit names missing h = h
waiting_step c true none names missing h = ap (λ rest. c.name ∷ rest) h
waiting_step c true (some payload) names missing h = h

waiting_names-filter :
    (cs : List Condition) → waiting_names cs ≡ map (λ c. c.name) (filter is_missing cs)
unfolding waiting_names filter
waiting_names-filter [] = refl
waiting_names-filter (c ∷ cs) =
    waiting_step c c.is_set c.hit (waiting_names cs) (filter is_missing cs)
      (waiting_names-filter cs)

-- What the outcome has to be, for conditions that hold or not and a deadline that is past or not.
pub record IsOutcome (holds past : Bool) (r : WaitRecord) (cs : List Condition) (o : WaitOutcome)
    : Type 0 where
  pub satisfied : o.satisfied ≡ holds
  pub deadline : o.deadline ≡ (not holds && past)
  pub waiting_for : o.waiting_for ≡ (
      if holds
      then []
      else map (λ c. c.name) (filter is_missing cs) ++ (if past then [] else "until" ∷ []))
  pub payload : holds ≡ true ⊎ (o.payload ≡ (if past then r.default else null))

guard_step :
    (b : Bool) (x y : Option Json)
    → (has_hit x ≡ true → has_hit y ≡ true)
    → has_hit (if b then x else none) ≡ true
    → has_hit (if b then y else none) ≡ true
guard_step true x y later h = later h
guard_step false x y later h = h

module _ (shown : Json → String) (instant : Json → Option ℕ) (parse_clock : String → Option ℕ) where
  outcome_of-IsOutcome :
      (r : WaitRecord) (now : ℕ) (cs : List Condition)
      → IsOutcome
          (holds (str_eq r.whichever "all") cs)
          (is_past (parse_clock r.deadline_at) now)
          r
          cs
          (outcome_of shown instant parse_clock r now cs)
  unfolding outcome_of
  outcome_of-IsOutcome r now cs =
      let wants_all = str_eq r.whichever "all" in
      let past = is_past (parse_clock r.deadline_at) now in
      subst (λ b. IsOutcome b past r cs (outcome_of shown instant parse_clock r now cs))
        (is_ready-holds wants_all cs)
        (if_cases (λ (o : WaitOutcome). IsOutcome (is_ready wants_all cs) past r cs o)
          (is_ready wants_all cs)
          (λ ready. record {
            satisfied = sym ready;
            deadline = rw ready refl;
            waiting_for = rw ready refl;
            payload = inl ready;
          })
          (λ unready.
            if_cases (λ (o : WaitOutcome). IsOutcome (is_ready wants_all cs) past r cs o) past
              (λ late. record {
                satisfied = sym unready;
                deadline = rw (unready, late) refl;
                waiting_for =
                    rw (unready, late)
                      (waiting_names-filter cs
                        ∙ sym (append-nil (map (λ c. c.name) (filter is_missing cs))));
                payload = inr (rw late refl);
              })
              (λ early. record {
                satisfied = sym unready;
                deadline = rw (unready, early) refl;
                waiting_for =
                    rw (unready, early)
                      (ap (λ names. names ++ "until" ∷ []) (waiting_names-filter cs));
                payload = inr (rw early refl);
              })))

  -- A wait is satisfied exactly when its conditions hold: all of those that are set, of which there is one,
  -- or, unless the record says `all`, one of them. If they do not, the deadline decides, and the outcome
  -- names each condition that is set and not met, and has the default of the record when the deadline is past.
  pub evaluate_wait-IsOutcome :
      (r : WaitRecord) (now : ℕ) (w : WaitWorld)
      → IsOutcome
          (holds (str_eq r.whichever "all") (conditions shown instant r w))
          (is_past (parse_clock r.deadline_at) now)
          r
          (conditions shown instant r w)
          (evaluate_wait shown instant parse_clock r now w)
  unfolding evaluate_wait
  evaluate_wait-IsOutcome r now w = outcome_of-IsOutcome r now (conditions shown instant r w)

  first_event-append :
      (name : String) (wanted : Fields) (events more : List Fields)
      → has_hit (first_event shown instant name wanted events) ≡ true
      → has_hit (first_event shown instant name wanted (events ++ more)) ≡ true
  unfolding first_event
  first_event-append name wanted [] more h = absurd (cc)
  first_event-append name wanted (item ∷ events) more h =
      ground (arith, first_event-append name wanted events more, h)

  event_hit-append :
      (spec : Option Fields) (events more : List Fields)
      → has_hit (event_hit shown instant spec events) ≡ true
      → has_hit (event_hit shown instant spec (events ++ more)) ≡ true
  unfolding event_hit
  event_hit-append none events more h = h
  event_hit-append (some spec) events more h =
      guard_step (has_fields spec) _ _ (first_event-append _ _ events more) h

  holds_more_events :
      (wants_all : Bool) (r : WaitRecord) (w : WaitWorld) (more : List Fields)
      → holds wants_all (conditions shown instant r w) ≡ true
      → holds wants_all (conditions shown instant r (record w { events = w.events ++ more })) ≡ true
  unfolding any
  holds_more_events wants_all r w more h =
      ground (arith, event_hit-append r.for_event w.events more, h)

  -- A wait that is satisfied is so at every later evaluation of the record, at whatever time, when the files
  -- and the runs are as they were and more events came in after the others.
  pub evaluate_wait_stays :
      (r : WaitRecord) (now later : ℕ) (w : WaitWorld) (more : List Fields)
      → (evaluate_wait shown instant parse_clock r now w).satisfied ≡ true
      → (evaluate_wait shown instant parse_clock r later
          (record w { events = w.events ++ more })).satisfied
        ≡ true
  evaluate_wait_stays r now later w more h =
      (evaluate_wait-IsOutcome r later (record w { events = w.events ++ more })).satisfied
      ∙ holds_more_events (str_eq r.whichever "all") r w more
          (sym (evaluate_wait-IsOutcome r now w).satisfied ∙ h)
