-- ===== src/Wait/Evaluation.antt =====
-- `evaluate_wait`: whether a wait is satisfied, past its deadline, or goes on. Instants are natural numbers.
-- `shown` is `str` of a number or of a collection, `instant` reads a time stamp.
use readyagents_core.Common.{
  ℕ, ◌+◌, String, Bool, true, false, not, ◌&&◌, Option, none, some, List, [], ◌∷◌, ◌++◌, ◌==◌,
  if◌then◌else◌, str_eq, leb, strip, lower, length, Dict, lookup,
}
use readyagents_core.Wait.Json.{
  Json, null, text, object, Fields, end, field, has_fields, is_truthy, get_field, str_of, str_or,
}
use readyagents_core.Wait.Record.{WaitRecord}

pub record WaitWorld : Type 0 where
  pub events : List Fields
  pub files : Dict Fields
  pub runs : Dict String

pub record WaitOutcome : Type 0 where
  pub satisfied : Bool
  pub deadline : Bool
  pub reason : String
  pub payload : Json
  pub waiting_for : List String

-- A condition of the record: its name, whether it is set, and what meets it.
pub record Condition : Type 0 where
  pub name : String
  pub is_set : Bool
  pub hit : Option Json

abbrev pub is_asked : Option Fields → Bool
is_asked none = false
is_asked (some spec) = has_fields spec

abbrev dict_of : Option Json → Fields
dict_of (some (object fields)) = fields
dict_of value = end

abbrev is_set_truthy : Option Json → Bool
is_set_truthy none = false
is_set_truthy (some value) = is_truthy value

module _ (shown : Json → String) (instant : Json → Option ℕ) where
  -- `str(d.get(k))`.
  abbrev str_of_field : Option Json → String
  str_of_field none = "None"
  str_of_field (some value) = str_of shown value

  unfoldable pub matches_all : Fields → Fields → Bool
  unfolding get_field
  matches_all end payload = true
  matches_all (field key value rest) payload =
      str_eq (str_of_field (get_field key payload)) (str_of shown value) && matches_all rest payload

  unfoldable pub first_event : String → Fields → List Fields → Option Json
  unfolding get_field matches_all
  first_event name wanted [] = none
  first_event name wanted (item ∷ events) =
      let later = first_event name wanted events in
      if not (str_eq (str_or shown "" (get_field "name" item)) name)
      then later
      else if matches_all wanted (dict_of (get_field "payload" item))
      then some (object item)
      else later

  unfoldable pub event_hit : Option Fields → List Fields → Option Json
  unfolding get_field first_event strip
  event_hit none events = none
  event_hit (some spec) events =
      if has_fields spec
      then first_event (strip (str_or shown "" (get_field "name" spec)))
          (dict_of (get_field "match" spec)) events
      else none

  -- A change counts when its time is known and, if that of the record is known, later.
  abbrev changed_after : Option ℕ → Option ℕ → Bool
  changed_after none created = false
  changed_after (some mtime) none = true
  changed_after (some mtime) (some created) = not (leb mtime created)

  abbrev instant_of : Option Json → Option ℕ
  instant_of none = none
  instant_of (some value) = instant value

  abbrev fields_or_end : Option Fields → Fields
  fields_or_end none = end
  fields_or_end (some info) = info

  unfoldable pub file_hit : Option Fields → String → Dict Fields → Option Json
  unfolding get_field strip lower lookup
  file_hit none created_at files = none
  file_hit (some spec) created_at files =
      let path = strip (str_or shown "" (get_field "path" spec)) in
      let kind = lower (strip (str_or shown "created" (get_field "on" spec))) in
      let info = fields_or_end (lookup path files) in
      if not (has_fields spec)
      then none
      else if is_set_truthy (get_field "symlink" info)
      then none
      else if not (is_set_truthy (get_field "exists" info))
      then none
      else if str_eq kind "changed"
          && not (changed_after (instant_of (get_field "mtime" info)) (instant (text created_at)))
      then none
      else some (object (field "path" (text path) (field "on" (text kind) end)))

  -- `spec.get("run_id") or spec.get("id")`.
  abbrev truthy_else : Option Json → Option Json → Option Json
  truthy_else a b = if is_set_truthy a then a else b

  abbrev text_or_empty : Option String → String
  text_or_empty none = ""
  text_or_empty (some s) = s

  unfoldable pub run_hit : Option Fields → Dict String → Option Json
  unfolding get_field strip lower lookup
  run_hit none runs = none
  run_hit (some spec) runs =
      let run_id =
        strip (str_or shown "" (truthy_else (get_field "run_id" spec) (get_field "id" spec))) in
      let wanted = lower (strip (str_or shown "succeeded" (get_field "status" spec))) in
      let status = text_or_empty (lookup run_id runs) in
      if has_fields spec && str_eq status wanted
      then some (object (field "run_id" (text run_id) (field "status" (text status) end)))
      else none

  abbrev pub conditions : WaitRecord → WaitWorld → List Condition
  conditions r w =
      record { name = "event"; is_set = is_asked r.for_event; hit = event_hit r.for_event w.events }
      ∷ record {
        name = "file";
        is_set = is_asked r.for_file;
        hit = file_hit r.for_file r.created_at w.files;
      }
      ∷ record { name = "run"; is_set = is_asked r.for_run; hit = run_hit r.for_run w.runs }
      ∷ []

-- The hits, and the names of what is waited for, over the conditions that are set.
abbrev pub add_hit : Condition → Option Json → List (String × Json) → List (String × Json)
add_hit c none hits = hits
add_hit c (some payload) hits = (c.name, payload) ∷ hits

unfoldable pub hits_of : List Condition → List (String × Json)
hits_of [] = []
hits_of (c ∷ cs) = let rest = hits_of cs in if c.is_set then add_hit c c.hit rest else rest

abbrev pub add_waiting : Condition → Option Json → List String → List String
add_waiting c none names = c.name ∷ names
add_waiting c (some payload) names = names

unfoldable pub waiting_names : List Condition → List String
waiting_names [] = []
waiting_names (c ∷ cs) =
    let rest = waiting_names cs in if c.is_set then add_waiting c c.hit rest else rest

-- `extras`: how many conditions are set.
unfoldable pub count_set : List Condition → ℕ
count_set [] = 0
count_set (c ∷ cs) = (if c.is_set then 1 else 0) + count_set cs

abbrev pub is_some_hit : List (String × Json) → Bool
is_some_hit [] = false
is_some_hit (hit ∷ hits) = true

unfoldable pub is_ready : Bool → List Condition → Bool
unfolding hits_of count_set
is_ready wants_all cs =
    if count_set cs == 0
    then false
    else if wants_all
    then length (hits_of cs) == count_set cs
    else is_some_hit (hits_of cs)

abbrev pub is_past : Option ℕ → ℕ → Bool
is_past none now = false
is_past (some deadline) now = leb deadline now

unfoldable hit_fields : List (String × Json) → Fields
hit_fields [] = end
hit_fields ((name, payload) ∷ hits) = field name payload (hit_fields hits)

-- The reason and the payload of a wait that is satisfied; without a hit there is none.
unfoldable answer_of : Bool → List (String × Json) → String × Json
unfolding hit_fields
answer_of wants_all [] = ("", null)
answer_of wants_all ((name, payload) ∷ hits) =
    if wants_all then ("all", object (hit_fields ((name, payload) ∷ hits))) else (name, payload)

module _ (shown : Json → String) (instant : Json → Option ℕ) (parse_clock : String → Option ℕ) where
  unfoldable pub outcome_of : WaitRecord → ℕ → List Condition → WaitOutcome
  unfolding is_ready answer_of waiting_names
  outcome_of r now cs =
      let wants_all = str_eq r.whichever "all" in
      let answer = answer_of wants_all (hits_of cs) in
      if is_ready wants_all cs
      then record {
        satisfied = true;
        deadline = false;
        reason = answer.0;
        payload = answer.1;
        waiting_for = [];
      }
      else if is_past (parse_clock r.deadline_at) now
      then record {
        satisfied = false;
        deadline = true;
        reason = "deadline";
        payload = r.default;
        waiting_for = waiting_names cs;
      }
      else record {
        satisfied = false;
        deadline = false;
        reason = "waiting";
        payload = null;
        waiting_for = waiting_names cs ++ "until" ∷ [];
      }

  unfoldable pub evaluate_wait : WaitRecord → ℕ → WaitWorld → WaitOutcome
  unfolding outcome_of event_hit file_hit run_hit
  evaluate_wait r now w = outcome_of r now (conditions shown instant r w)
