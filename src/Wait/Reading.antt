-- ===== src/Wait/Reading.antt =====
-- Reading a wait record that was written.
use readyagents_core.Common.{
  ℕ, ◌≡◌, refl, ◌∙◌, ap, String, true, false, not, Option, none, some, List, [], ◌∷◌, ◌==◌,
  if◌then◌else◌, str_eq, contains, strip, lower, ◌⊎◌, inl, inr, arith, if_cases, eq_iff,
}
use readyagents_core.Wait.Json.{
  Json, null, flag, number, text, array, object, Fields, has_fields, get_field, str_or, str_items,
  truthy_or,
}
use readyagents_core.Wait.Record.{
  WaitRecord, deadline_actions, whichever_names, row_of, spec_entry, default_entry, text_items,
  list_entry, entries_of, as_dict, spec_of, json_or_null, one_of, int_or, texts_or_none, from_dict,
}

-- The first entry of a key that has a value.
abbrev or_else : Option Json → Option Json → Option Json
or_else none other = other
or_else (some value) other = some value

abbrev find : String → List (String × Option Json) → Option Json
find key [] = none
find key ((name, value) ∷ entries) =
    let later = find key entries in if str_eq name key then or_else value later else later

get_field-row_of :
    (key : String) (entries : List (String × Option Json))
    → get_field key (row_of entries) ≡ find key entries
unfolding get_field row_of
get_field-row_of key [] = refl
get_field-row_of key ((name, none) ∷ entries) =
    if_cases (λ (o : Option Json). get_field key (row_of entries) ≡ o) (str_eq name key)
      (λ _. get_field-row_of key entries) (λ _. get_field-row_of key entries)
get_field-row_of key ((name, some value) ∷ entries) = rw (get_field-row_of key entries) refl

abbrev pub IsOneOf : List String → String → Type 0
IsOneOf [] s = false ≡ true
IsOneOf (name ∷ names) s = (s ≡ name) ⊎ IsOneOf names s

abbrev pub HasFields : Option Fields → Type 0
HasFields none = Unit
HasFields (some fields) = has_fields fields ≡ true

-- A record as the code makes it: known words, a version, and conditions that are missing or not empty.
pub record IsNormal (r : WaitRecord) : Type 0 where
  pub on_deadline : IsOneOf deadline_actions r.on_deadline
  pub whichever : IsOneOf whichever_names r.whichever
  pub version : (r.wait_record_version == 0) ≡ false
  pub for_event : HasFields r.for_event
  pub for_file : HasFields r.for_file
  pub for_run : HasFields r.for_run

text_kept : (s : String) → (if not (str_eq s "") then s else "") ≡ s
text_kept s =
    if_cases (λ (x : String). x ≡ s) (not (str_eq s "")) (λ _. refl)
      (λ empty. ground (arith, eq_iff s "", empty))

deadline_kept :
    (s : String)
    → IsOneOf deadline_actions s
    → one_of deadline_actions "fail" (if not (str_eq s "") then s else "fail") ≡ s
unfolding one_of contains strip lower
deadline_kept s (inl h) = rw h refl
deadline_kept s (inr (inl h)) = rw h refl
deadline_kept s (inr (inr (inl h))) = rw h refl
deadline_kept s (inr (inr (inr (inl h)))) = rw h refl
deadline_kept s (inr (inr (inr (inr h)))) = absurd (cc)

whichever_kept :
    (s : String)
    → IsOneOf whichever_names s
    → one_of whichever_names "first" (if not (str_eq s "") then s else "first") ≡ s
unfolding one_of contains strip lower
whichever_kept s (inl h) = rw h refl
whichever_kept s (inr (inl h)) = rw h refl
whichever_kept s (inr (inr h)) = absurd (cc)

spec_kept : (o : Option Fields) → HasFields o → spec_of (or_else (spec_entry o) none) ≡ o
spec_kept none h = refl
spec_kept (some fields) h = rw h refl

default_kept : (j : Json) → json_or_null (or_else (default_entry j) none) ≡ j
default_kept null = refl
default_kept (flag b) = refl
default_kept (number n) = refl
default_kept (text s) = refl
default_kept (array items) = refl
default_kept (object fields) = refl

module _ (shown : Json → String) (to_int : Json → ℕ) (to_list : Json → List String) where
  items_kept : (ss : List String) → str_items shown (text_items ss) ≡ ss
  unfolding str_items text_items
  items_kept [] = refl
  items_kept (s ∷ ss) = ap (λ rest. s ∷ rest) (items_kept ss)

  list_kept :
      (ss : List String) → texts_or_none shown to_int to_list (or_else (list_entry ss) none) ≡ ss
  list_kept [] = refl
  list_kept (s ∷ ss) = items_kept (s ∷ ss)

  version_kept : (n : ℕ) → (n == 0) ≡ false → int_or shown to_int to_list 1 (some (number n)) ≡ n
  version_kept n h = rw h refl

  got : (r : WaitRecord) (key : String) → get_field key (as_dict r) ≡ find key (entries_of r)
  unfolding as_dict
  got r key = get_field-row_of key (entries_of r)

  got_text :
      (r : WaitRecord) (key s : String)
      → find key (entries_of r) ≡ some (text s)
      → str_or shown "" (get_field key (as_dict r)) ≡ s
  got_text r key s h = rw (got r key, h) (text_kept s)

  -- A record that is written and read again is the one it was, if its words are known, its version is not 0
  -- and none of its conditions is an empty dictionary.
  pub from_dict-as_dict :
      (r : WaitRecord) → IsNormal r → from_dict shown to_int to_list (as_dict r) ≡ r
  unfolding from_dict
  from_dict-as_dict r h =
      let node_id = got_text r "node_id" r.node_id refl in
      let until = got_text r "until" r.until refl in
      let deadline_at = got_text r "deadline_at" r.deadline_at refl in
      let created_at = got_text r "created_at" r.created_at refl in
      let dormant_since = got_text r "dormant_since" r.dormant_since refl in
      let on_deadline =
        ap (λ o. one_of deadline_actions "fail" (str_or shown "fail" o)) (got r "on_deadline")
        ∙ deadline_kept r.on_deadline h.on_deadline in
      let whichever =
        ap (λ o. one_of whichever_names "first" (str_or shown "first" o)) (got r "whichever")
        ∙ whichever_kept r.whichever h.whichever in
      let for_event = ap spec_of (got r "for_event") ∙ spec_kept r.for_event h.for_event in
      let for_file = ap spec_of (got r "for_file") ∙ spec_kept r.for_file h.for_file in
      let for_run = ap spec_of (got r "for_run") ∙ spec_kept r.for_run h.for_run in
      let default = ap json_or_null (got r "default") ∙ default_kept r.default in
      let escalate_to =
        ap (texts_or_none shown to_int to_list) (got r "escalate_to") ∙ list_kept r.escalate_to in
      let version =
        ap (int_or shown to_int to_list 1) (got r "wait_record_version")
        ∙ version_kept r.wait_record_version h.version in
      let rebroker = ap (truthy_or true) (got r "rebroker") in
      λ i. record {
        node_id = node_id i;
        until = until i;
        deadline_at = deadline_at i;
        on_deadline = on_deadline i;
        whichever = whichever i;
        for_event = for_event i;
        for_file = for_file i;
        for_run = for_run i;
        default = default i;
        escalate_to = escalate_to i;
        created_at = created_at i;
        wait_record_version = version i;
        dormant_since = dormant_since i;
        rebroker = rebroker i;
      }
