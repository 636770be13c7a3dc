-- ===== src/RunStore/Abstract.antt =====
-- The store as a map from the ids of runs to records with revisions, for a store whose files are sound.
use mathlib.Core.Path.{fun_ext}
use readyagents_core.Common.{
  subst, option_cases, ℕ, ◌+◌, ◌≡◌, refl, sym, ◌∙◌, ap, arith, String, false, Option, none, some,
  ◌==◌, if◌then◌else◌, str_eq, eq_iff, pos, Dict, lookup, insert, remove, lookup-insert,
  lookup-remove, inl, inr, Option-cases, Bool-cases, if_cases,
}
use readyagents_core.RunStore.Files.{
  Entry, File, StoredRun, Store, not_found, conflict_missing, conflict, Result, failed, done,
  read_revision, read_file, read_current, next_revision, resolve_path, get, shown, write, save,
}

-- Every file holds the record of the run that it is named for.
pub record Holds (id : String) (f : File) : Type 0 where
  pub entry : Entry
  pub whole : f.entry ≡ some entry
  pub same : entry.run_id ≡ id
  pub named : str_eq id "" ≡ false

abbrev pub IsSound : Dict File → Type 0
IsSound files = (id : String) (f : File) → lookup id files ≡ some f → Holds id f

abbrev pub Runs : Type 0
Runs = String → Option StoredRun

abbrev stored_or_none : Option (Result StoredRun) → Option StoredRun
stored_or_none (some (done stored)) = some stored
stored_or_none _ = none

abbrev pub view : Dict File → Runs
view files id = stored_or_none (read_current id files)

-- The map with another value at one id.
abbrev pub update : Runs → String → Option StoredRun → Runs
update m id new j = if str_eq id j then new else m j

-- What saving is to do: with an expected revision only to the run at just that one; without, to start at
-- 1 or to go one on.
abbrev pub abstract_step : String → Entry → Option ℕ → Option StoredRun → Runs → Result ℕ × Runs
abstract_step id e none none m = (done 1, update m id (some (record { entry = e; revision = 1 })))
abstract_step id e none (some current) m =
    let next = current.revision + 1 in
    (done next, update m id (some (record { entry = e; revision = next })))
abstract_step id e (some expected) none m = (failed conflict_missing, m)
abstract_step id e (some expected) (some current) m =
    if current.revision == expected
    then (done (expected + 1), update m id (some (record { entry = e; revision = expected + 1 })))
    else (failed (conflict current.revision expected), m)

abbrev pub abstract_save : String → Entry → Option ℕ → Runs → Result ℕ × Runs
abstract_save id e expected m = abstract_step id e expected (m id) m

abbrev pub abstract_get : String → Runs → Result StoredRun
abstract_get id m = elim (m id) [ none ↦ failed not_found | some stored ↦ done stored ]

read_file-Holds :
    (id : String) (f : File) (h : Holds id f)
    → read_file f ≡ done (record { entry = h.entry; revision = read_revision f.revision })
read_file-Holds id f h = rw (h.whole, h.same, h.named)

abbrev lift : Option StoredRun → Option (Result StoredRun)
lift none = none
lift (some stored) = some (done stored)

module _ (files : Dict File) (id : String) where
  view-none : lookup id files ≡ none → view files id ≡ none
  view-none missing = rw (missing, read_current)

  view-some :
      (sound : IsSound files) (f : File) (found : lookup id files ≡ some f)
      → view files id
        ≡ some (record { entry = (sound id f found).entry; revision = read_revision f.revision })
  view-some sound f found = rw (found, read_current, read_file-Holds id f (sound id f found))

  read_current-view : IsSound files → read_current id files ≡ lift (view files id)
  read_current-view sound = elim (Option-cases (lookup id files)) [
    | inl missing ↦ rw (view-none missing, missing, read_current)
    | inr (f, found) ↦
        rw (view-some sound f found, found, read_current, read_file-Holds id f (sound id f found))
  ]

abstract_get-value :
    (id : String) (m : Runs) (found : Option StoredRun)
    → m id ≡ found
    → abstract_get id m ≡ (elim found as (λ _. Result StoredRun) [
      | none ↦ failed not_found
      | some stored ↦ done stored
    ])
abstract_get-value id m found h = rw (h, abstract_get)

-- A record that is looked up by its whole id is found exactly if it is in the map.
pub get-view :
    (s : Store) (id : String)
    → IsSound s.files
    → s.is_closed ≡ false
    → get id false s ≡ abstract_get id (view s.files)
unfolding get
get-view s id sound is_open = elim (Option-cases (lookup id s.files)) [
  | inl missing ↦
      rw (is_open, missing, resolve_path)
        (sym (abstract_get-value id (view s.files) none (view-none s.files id missing)))
  | inr (f, found) ↦
      rw
        (
          is_open,
          found,
          resolve_path,
          read_current-view s.files id sound,
          view-some s.files id sound f found,
        )
        (sym (abstract_get-value id (view s.files) _ (view-some s.files id sound f found)))
]

-- What is seen of a store after a file was written, and after one was removed.
module _ (files : Dict File) (id : String) where
  view-insert :
      (f : File)
      → view (insert id f files) ≡ update (view files) id (stored_or_none (some (read_file f)))
  view-insert f = fun_ext λ j.
      rw (lookup-insert id j f files, read_current)
        (elim (Bool-cases (str_eq id j)) [
          | inl same ↦ rw same
          | inr apart ↦ rw (apart, read_current)
        ])

  view-remove : view (remove id files) ≡ update (view files) id none
  view-remove = fun_ext λ j.
      rw (lookup-remove id j files, read_current)
        (elim (Bool-cases (str_eq id j)) [
          | inl same ↦ rw same
          | inr apart ↦ rw (apart, read_current)
        ])

no_zero : (n : ℕ) → (n + 1 == 0) ≡ false
no_zero n = ground arith

module _ (redact : Entry → Option Entry)
    (keeps_id : (e e' : Entry) → redact e ≡ some e' → e'.run_id ≡ e.run_id) where
  shown-run_id : (e : Entry) → (shown redact e).run_id ≡ e.run_id
  shown-run_id e =
      option_cases (λ (x : Entry). x.run_id ≡ e.run_id) (redact e) (λ _. refl) (keeps_id e)

  -- The file that is written.
  abbrev written : Entry → ℕ → File
  written e revision = record { revision = some (pos revision); entry = some (shown redact e) }

  written-Holds :
      (e : Entry) (revision : ℕ) → str_eq e.run_id "" ≡ false → Holds e.run_id (written e revision)
  written-Holds e revision named = record {
    entry = shown redact e;
    whole = refl;
    same = shown-run_id e;
    named = named;
  }

  insert-IsSound :
      (e : Entry) (revision : ℕ) (files : Dict File)
      → str_eq e.run_id "" ≡ false
      → IsSound files
      → IsSound (insert e.run_id (written e revision) files)
  insert-IsSound e revision files named sound id f found = elim (Bool-cases (str_eq e.run_id id)) [
    | inl same ↦
        let new : written e revision ≡ f =
          cc (rw (lookup-insert e.run_id id (written e revision) files, same) at found) in
        subst (λ j. Holds j f) ((eq_iff e.run_id id).0 same)
          (subst (λ g. Holds e.run_id g) new (written-Holds e revision named))
    | inr apart ↦
        sound id f (rw (lookup-insert e.run_id id (written e revision) files, apart) at found)
  ]

  written-read :
      (e : Entry) (n : ℕ)
      → str_eq e.run_id "" ≡ false
      → read_file (written e (n + 1)) ≡ done (record { entry = shown redact e; revision = n + 1 })
  unfolding read_revision
  written-read e n named = rw (shown-run_id e, named, no_zero n)

  -- The store and the map agree on the answer and on what is then there, and the files are sound.
  abbrev Agree : Result ℕ × Store → Result ℕ × Runs → Type 0
  Agree x y = (x.0 ≡ y.0) × (view x.1.files ≡ y.1) × IsSound x.1.files

  write-Agree :
      (e : Entry) (n : ℕ) (s : Store)
      → IsSound s.files
      → str_eq e.run_id "" ≡ false
      → Agree (write redact e s (done (n + 1))) (
        done (n + 1),
        update (view s.files) e.run_id (some (record { entry = shown redact e; revision = n + 1 })),
      )
  write-Agree e n s sound named = (
    refl,
    view-insert s.files e.run_id (written e (n + 1))
        ∙ ap (λ r. update (view s.files) e.run_id (stored_or_none (some r)))
            (written-read e n named),
    insert-IsSound e (n + 1) s.files named sound,
  )

  step-Agree :
      (e : Entry) (expected : Option ℕ) (current : Option StoredRun) (s : Store)
      → IsSound s.files
      → str_eq e.run_id "" ≡ false
      → Agree
          (write redact e s (next_revision expected (lift current)))
          (abstract_step e.run_id (shown redact e) expected current (view s.files))
  step-Agree e none none s sound named = write-Agree e 0 s sound named
  step-Agree e none (some current) s sound named = write-Agree e current.revision s sound named
  step-Agree e (some expected) none s sound named = (refl, refl, sound)
  step-Agree e (some expected) (some current) s sound named =
      elim (Bool-cases (current.revision == expected)) [
        | inl same ↦ rw same (write-Agree e expected s sound named)
        | inr apart ↦ rw apart (refl, refl, sound)
      ]

  -- Saving does to the map what it is to do, and answers with the same revision or the same refusal; and
  -- every file still holds the record of the run that it is named for. The store is open and its files are
  -- sound, the run has an id, and the redactor keeps it.
  pub save-abstract_save :
      (e : Entry) (expected : Option ℕ) (s : Store)
      → IsSound s.files
      → s.is_closed ≡ false
      → str_eq e.run_id "" ≡ false
      → let x = save redact e expected s in
        let y = abstract_save e.run_id (shown redact e) expected (view s.files) in
        (x.0 ≡ y.0) × (view x.1.files ≡ y.1) × IsSound x.1.files
  unfolding save
  save-abstract_save e expected s sound is_open named =
      if_cases (λ x. Agree x (abstract_save e.run_id (shown redact e) expected (view s.files)))
        s.is_closed (λ is_closed. absurd (cc (is_open, is_closed)))
        λ _.
          subst
            (λ c.
              Agree (write redact e s (next_revision expected c))
                (abstract_save e.run_id (shown redact e) expected (view s.files)))
            (sym (read_current-view s.files e.run_id sound))
            (step-Agree e expected (view s.files e.run_id) s sound named)
