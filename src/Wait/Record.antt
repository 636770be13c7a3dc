-- ===== src/Wait/Record.antt =====
-- `WaitRecord` with `as_dict` and `from_dict`. The record is stored with the run.
use readyagents_core.Common.{
  ℕ, String, Bool, true, Option, none, some, List, [], ◌∷◌, if◌then◌else◌, contains, strip, lower,
}
use readyagents_core.Wait.Json.{
  Json, null, flag, number, text, array, object, Items, nil, cons, Fields, end, field, has_fields,
  is_truthy, get_field, str_or, str_items, truthy_or,
}

-- `default` is null when there is none.
pub record WaitRecord : Type 0 where
  pub node_id : String
  pub until : String
  pub deadline_at : String
  pub on_deadline : String
  pub whichever : String
  pub for_event : Option Fields
  pub for_file : Option Fields
  pub for_run : Option Fields
  pub default : Json
  pub escalate_to : List String
  pub created_at : String
  pub wait_record_version : ℕ
  pub dormant_since : String
  pub rebroker : Bool

abbrev pub deadline_actions : List String
deadline_actions = "fail" ∷ "continue" ∷ "escalate" ∷ "branch" ∷ []

abbrev pub whichever_names : List String
whichever_names = "first" ∷ "all" ∷ []

-- A row as it is put together: an entry without a value is not written.
unfoldable pub row_of : List (String × Option Json) → Fields
row_of [] = end
row_of ((key, none) ∷ entries) = row_of entries
row_of ((key, some value) ∷ entries) = field key value (row_of entries)

abbrev pub spec_entry : Option Fields → Option Json
spec_entry none = none
spec_entry (some spec) = if has_fields spec then some (object spec) else none

abbrev pub default_entry : Json → Option Json
default_entry null = none
default_entry value = some value

unfoldable pub text_items : List String → Items
text_items [] = nil
text_items (s ∷ ss) = cons (text s) (text_items ss)

abbrev pub list_entry : List String → Option Json
list_entry [] = none
list_entry (s ∷ ss) = some (array (text_items (s ∷ ss)))

abbrev pub entries_of : WaitRecord → List (String × Option Json)
entries_of r =
    ("wait_record_version", some (number r.wait_record_version))
    ∷ ("node_id", some (text r.node_id))
    ∷ ("until", some (text r.until))
    ∷ ("deadline_at", some (text r.deadline_at))
    ∷ ("on_deadline", some (text r.on_deadline))
    ∷ ("whichever", some (text r.whichever))
    ∷ ("created_at", some (text r.created_at))
    ∷ ("dormant_since", some (text r.dormant_since))
    ∷ ("rebroker", some (flag r.rebroker))
    ∷ ("for_event", spec_entry r.for_event)
    ∷ ("for_file", spec_entry r.for_file)
    ∷ ("for_run", spec_entry r.for_run)
    ∷ ("default", default_entry r.default)
    ∷ ("escalate_to", list_entry r.escalate_to)
    ∷ []

unfoldable pub as_dict : WaitRecord → Fields
unfolding row_of
as_dict r = row_of (entries_of r)

abbrev pub spec_of : Option Json → Option Fields
spec_of (some (object fields)) = some fields
spec_of value = none

abbrev pub json_or_null : Option Json → Json
json_or_null none = null
json_or_null (some value) = value

unfoldable pub one_of : List String → String → String → String
unfolding contains strip lower
one_of names other s =
    let cleaned = lower (strip s) in if contains cleaned names then cleaned else other

-- `shown`, `to_int` and `to_list` are `str`, `int` and `list` of a value of another kind.
module _ (shown : Json → String) (to_int : Json → ℕ) (to_list : Json → List String) where
  abbrev pub int_or : ℕ → Option Json → ℕ
  int_or other none = other
  int_or other (some (number n)) = if is_truthy (number n) then n else other
  int_or other (some value) = if is_truthy value then to_int value else other

  abbrev pub texts_or_none : Option Json → List String
  texts_or_none none = []
  texts_or_none (some (array items)) = str_items shown items
  texts_or_none (some value) = if is_truthy value then to_list value else []

  unfoldable pub from_dict : Fields → WaitRecord
  unfolding get_field one_of str_items
  from_dict row = record {
    node_id = str_or shown "" (get_field "node_id" row);
    until = str_or shown "" (get_field "until" row);
    deadline_at = str_or shown "" (get_field "deadline_at" row);
    on_deadline =
        one_of deadline_actions "fail" (str_or shown "fail" (get_field "on_deadline" row));
    whichever = one_of whichever_names "first" (str_or shown "first" (get_field "whichever" row));
    for_event = spec_of (get_field "for_event" row);
    for_file = spec_of (get_field "for_file" row);
    for_run = spec_of (get_field "for_run" row);
    default = json_or_null (get_field "default" row);
    escalate_to = texts_or_none (get_field "escalate_to" row);
    created_at = str_or shown "" (get_field "created_at" row);
    wait_record_version = int_or 1 (get_field "wait_record_version" row);
    dormant_since = str_or shown "" (get_field "dormant_since" row);
    rebroker = truthy_or true (get_field "rebroker" row);
  }
