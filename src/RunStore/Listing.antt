-- ===== src/RunStore/Listing.antt =====
-- `JsonRunStore`: listing and collecting records.
use Prim.Native.String.{compare}
use Prim.Native.Nat.{Ordering}
use text.Mathlib.Text.{starts_with}
use readyagents_core.Common.{
  ℕ, zero, suc, String, Bool, true, false, ◌&&◌, not, Option, none, some, List, [], ◌∷◌, ◌++◌,
  if◌then◌else◌, str_eq, Dict, lookup, remove, filter, contains, strip, lower, map,
}
use readyagents_core.RunStore.Files.{
  Entry, File, StoredRun, Store, closed, Result, failed, done, read_file,
}

pub record RunQuery : Type 0 where
  pub status : Option String
  pub workflow : Option String
  pub limit : ℕ
  pub cursor : Option String

abbrev pub all_runs : RunQuery
all_runs = record { status = none; workflow = none; limit = 0; cursor = none }

abbrev add_read : Bool → Result StoredRun → List StoredRun → List StoredRun
add_read true (done stored) rest = stored ∷ rest
add_read hidden r rest = rest

-- The records that can be read; hidden files are left out.
unfoldable pub read_all : Dict File → List StoredRun
read_all [] = []
read_all ((name, f) ∷ files) = add_read (not (starts_with name ".")) (read_file f) (read_all files)

-- `(started_at, run_id)` of one is greater than that of the other.
newer : StoredRun → StoredRun → Bool
newer a b = elim (compare a.entry.started_at b.entry.started_at) [
  | Ordering.gt ↦ true
  | Ordering.lt ↦ false
  | Ordering.eq ↦ elim (compare a.entry.run_id b.entry.run_id) [ Ordering.gt ↦ true | _ ↦ false ]
]

-- Sorting with `reverse=True`, which keeps the order of equals.
insert_sorted : StoredRun → List StoredRun → List StoredRun
unfolding newer
insert_sorted x [] = x ∷ []
insert_sorted x (y ∷ ys) =
    let rest = insert_sorted x ys in if newer y x then y ∷ rest else x ∷ y ∷ ys

unfoldable pub newest_first : List StoredRun → List StoredRun
unfolding insert_sorted
newest_first [] = []
newest_first (x ∷ xs) = insert_sorted x (newest_first xs)

abbrev pub given : Option String → Option String
given none = none
given (some s) = if str_eq s "" then none else some s

abbrev has_status : Option String → StoredRun → Bool
has_status wanted r = elim (given wanted) [
  | none ↦ true
  | some w ↦ str_eq r.entry.status (lower (strip w))
]

abbrev has_workflow : Option String → StoredRun → Bool
has_workflow wanted r = elim (given wanted) [
  | none ↦ true
  | some w ↦ str_eq r.entry.workflow_name (strip w)
]

-- What stands after the record with this id; the whole list if there is none.
unfoldable pub after_id : String → List StoredRun → Option (List StoredRun)
after_id id [] = none
after_id id (r ∷ rs) =
    let rest = after_id id rs in if str_eq r.entry.run_id id then some rs else rest

abbrev pub from_cursor : Option String → List StoredRun → List StoredRun
from_cursor cursor found = elim (given cursor) [
  | none ↦ found
  | some id ↦ elim (after_id id found) [ none ↦ found | some rest ↦ rest ]
]

abbrev pub take {ℓ} : {A : Type ℓ} → ℕ → List A → List A
take zero xs = []
take (suc n) [] = []
take (suc n) (x ∷ xs) = x ∷ take n xs

-- A limit of 0 is none.
abbrev pub limited : ℕ → List StoredRun → List StoredRun
limited zero found = found
limited (suc n) found = take (suc n) found

-- The runs of a query, before the cursor and the limit.
unfoldable pub selected : RunQuery → Store → List StoredRun
unfolding filter newest_first read_all strip lower
selected q s =
    filter (has_workflow q.workflow)
      (filter (has_status q.status) (newest_first (read_all s.files)))

unfoldable pub list : RunQuery → Store → Result (List StoredRun)
list q s =
    if s.is_closed
    then failed closed
    else done (limited q.limit (from_cursor q.cursor (selected q s)))

abbrev pub drop {ℓ} : {A : Type ℓ} → ℕ → List A → List A
drop zero xs = xs
drop (suc n) [] = []
drop (suc n) (x ∷ xs) = drop n xs

-- The statuses that `gc` is asked for, as it reads them.
unfoldable pub wanted_statuses : Option (List String) → Bool → List String
unfolding strip lower
wanted_statuses none include_paused =
    "succeeded" ∷ "failed" ∷ "cancelled" ∷ (if include_paused then "paused" ∷ [] else [])
wanted_statuses (some []) include_paused =
    "succeeded" ∷ "failed" ∷ "cancelled" ∷ (if include_paused then "paused" ∷ [] else [])
wanted_statuses (some (x ∷ xs)) include_paused =
    map (λ s. lower (strip s)) (x ∷ xs) ++ (if include_paused then "paused" ∷ [] else [])

-- The tests of the loop of `gc` on one record; `is_retained` is `in_retention_window` at that time.
module _ (is_retained : Entry → Bool) where
  unfoldable pub is_collected : List String → Bool → Bool → Entry → Bool
  unfolding contains
  is_collected wanted include_paused override e =
      if str_eq e.status "paused" && not include_paused
      then false
      else if str_eq e.status "waiting"
      then false
      else if not (contains e.status wanted)
      then false
      else if is_retained e && not override
      then false
      else true

  -- The files of the records go, as far as they are there.
  unfoldable pub collect : (Entry → Bool) → List StoredRun → Dict File → List String × Dict File
  unfolding lookup remove
  collect test [] files = ([], files)
  collect test (r ∷ rs) files =
      if test r.entry
      then (elim (lookup r.entry.run_id files) [
        | none ↦ collect test rs files
        | some f ↦
            let later = collect test rs (remove r.entry.run_id files) in
            (r.entry.run_id ∷ later.0, later.1)
      ])
      else collect test rs files

  unfoldable pub gc : Option (List String) → Bool → ℕ → Bool → Store → Result (List String) × Store
  unfolding is_collected collect wanted_statuses
  gc statuses include_paused keep override s =
      if s.is_closed
      then (failed closed, s)
      else let out =
          collect (is_collected (wanted_statuses statuses include_paused) include_paused override)
            (drop keep (selected all_runs s)) s.files in
        (done out.0, record s { files = out.1 })
