-- ===== src/RunStore/Files.antt =====
-- `JsonRunStore`: reading, saving and deleting a record. The directory is a dictionary from the names of
-- the files, without `.json`, to what they hold. A method holds the lock of its run, and is one step.
use text.Mathlib.Text.{starts_with}
use readyagents_core.Common.{
  ℕ, ◌+◌, String, Bool, true, ◌&&◌, not, Option, none, some, List, [], ◌∷◌, ◌==◌, if◌then◌else◌,
  str_eq, ℤ, pos, negsuc, Dict, lookup, insert, remove,
}

-- The parts of a run's record that the store reads; `body` is the rest.
pub record Entry : Type 0 where
  pub run_id : String
  pub workflow_name : String
  pub status : String
  pub started_at : String
  pub body : String

-- A file: its field `_store_revision` as far as it is a number, and the record unless the file cannot be
-- read or holds no object.
pub record File : Type 0 where
  pub revision : Option ℤ
  pub entry : Option Entry

pub record StoredRun : Type 0 where
  pub entry : Entry
  pub revision : ℕ

pub record Store : Type 0 where
  pub files : Dict File
  pub is_closed : Bool

pub data Failure : Type 0 where
  closed not_found ambiguous corrupt : Failure
  -- `RunStoreConflict`: the run is missing, or at another revision.
  conflict_missing : Failure
  conflict : ℕ → ℕ → Failure

pub data Result {ℓ} (A : Type ℓ) : Type ℓ where
  failed : Failure → Result A
  done : A → Result A

-- A missing revision, one that is no number and one below 1 all count as 1.
unfoldable pub read_revision : Option ℤ → ℕ
read_revision none = 1
read_revision (some (negsuc n)) = 1
read_revision (some (pos n)) = if n == 0 then 1 else n

-- `_read_path`.
abbrev read_entry : Option ℤ → Option Entry → Result StoredRun
read_entry revision none = failed corrupt
read_entry revision (some e) =
    if str_eq e.run_id ""
    then failed corrupt
    else done (record { entry = e; revision = read_revision revision })

abbrev pub read_file : File → Result StoredRun
read_file f = read_entry f.revision f.entry

-- What is there under this name, if anything is.
abbrev pub read_current : String → Dict File → Option (Result StoredRun)
read_current id files = elim (lookup id files) [ none ↦ none | some f ↦ some (read_file f) ]

-- The revision to write: the test of `expected_revision`, and the next number.
abbrev pub next_revision : Option ℕ → Option (Result StoredRun) → Result ℕ
next_revision expected (some (failed reason)) = failed reason
next_revision (some expected) none = failed conflict_missing
next_revision (some expected) (some (done current)) =
    if current.revision == expected
    then done (expected + 1)
    else failed (conflict current.revision expected)
next_revision none none = done 1
next_revision none (some (done current)) = done (current.revision + 1)

-- The names that begin with a text; hidden files are left out.
unfoldable pub matching : String → Dict File → List String
matching prefix [] = []
matching prefix ((name, f) ∷ files) =
    let rest = matching prefix files in
    if starts_with name prefix && not (starts_with name ".") then name ∷ rest else rest

abbrev pub only_match : List String → Result String
only_match [] = failed not_found
only_match (name ∷ []) = done name
only_match (name ∷ other ∷ more) = failed ambiguous

-- `_resolve_path`.
abbrev pub resolve_path : String → Bool → Dict File → Result String
resolve_path id allow_prefix files = elim (lookup id files) [
  | some f ↦ done id
  | none ↦ if allow_prefix then only_match (matching id files) else failed not_found
]

abbrev found_or_missing : Option (Result StoredRun) → Result StoredRun
found_or_missing none = failed corrupt
found_or_missing (some r) = r

abbrev read_resolved : Dict File → Result String → Result StoredRun
read_resolved files (failed reason) = failed reason
read_resolved files (done name) = found_or_missing (read_current name files)

unfoldable pub get : String → Bool → Store → Result StoredRun
get id allow_prefix s =
    if s.is_closed
    then failed closed
    else read_resolved s.files (resolve_path id allow_prefix s.files)

abbrev unlink : Store → Result StoredRun → Result StoredRun × Store
unlink s (failed reason) = (failed reason, s)
unlink s (done stored) = elim (lookup stored.entry.run_id s.files) [
  | none ↦ (failed not_found, s)
  | some f ↦ (done stored, record s { files = remove stored.entry.run_id s.files })
]

unfoldable pub delete : String → Bool → Store → Result StoredRun × Store
unfolding get lookup remove
delete id allow_prefix s = unlink s (get id allow_prefix s)

unfoldable pub close : Store → Store
close s = record s { is_closed = true }

-- `redact` is the redactor, or gives the record back when there is none; with `none` it did not give an
-- object, and the record is written as it is.
module _ (redact : Entry → Option Entry) where
  abbrev pub shown : Entry → Entry
  shown e = elim (redact e) [ none ↦ e | some e' ↦ e' ]

  abbrev pub write : Entry → Store → Result ℕ → Result ℕ × Store
  write e s (failed reason) = (failed reason, s)
  write e s (done revision) = (
    done revision,
    record s {
      files =
          insert e.run_id (record { revision = some (pos revision); entry = some (shown e) })
            s.files;
    },
  )

  unfoldable pub save : Entry → Option ℕ → Store → Result ℕ × Store
  unfolding insert
  save e expected s =
      if s.is_closed
      then (failed closed, s)
      else write e s (next_revision expected (read_current e.run_id s.files))
