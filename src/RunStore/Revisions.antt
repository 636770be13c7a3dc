-- ===== src/RunStore/Revisions.antt =====
-- The revisions of a run over many saves, and two writers that read the same one.
use readyagents_core.Common.{
  ℕ, ◌+◌, ◌≤◌, ◌≡◌, refl, sym, ◌∙◌, subst, arith, String, false, Option, none, some, List, [], ◌∷◌,
  ◌==◌, str_eq, eq_iff, eq_refl, inl, inr, Bool-cases, All, if_cases,
}
use readyagents_core.RunStore.Files.{
  Entry, StoredRun, Store, Result, failed, done, shown, write, save, next_revision, read_current,
}
use readyagents_core.RunStore.Abstract.{
  IsSound, Runs, view, update, abstract_step, save-abstract_save,
}

-- 0 stands for a run that is not there.
abbrev revision_of : Option StoredRun → ℕ
revision_of none = 0
revision_of (some stored) = stored.revision

abbrev revision_at : String → Runs → ℕ
revision_at id m = revision_of (m id)

revision_at-update :
    (m : Runs) (id j : String) (new : StoredRun)
    → revision_at id m ≤ new.revision
    → revision_at j m ≤ revision_at j (update m id (some new))
revision_at-update m id j new h = elim (Bool-cases (str_eq id j)) [
  | inl same ↦ rw (same, sym ((eq_iff id j).0 same)) h
  | inr apart ↦ rw apart (omega arith)
]

revision_at-abstract_step :
    (id j : String) (e : Entry) (expected : Option ℕ) (current : Option StoredRun) (m : Runs)
    → m id ≡ current
    → revision_at j m ≤ revision_at j (abstract_step id e expected current m).1
revision_at-abstract_step id j e none none m h =
    revision_at-update m id j (record { entry = e; revision = 1 }) (rw h (omega arith))
revision_at-abstract_step id j e none (some current) m h =
    revision_at-update m id j (record { entry = e; revision = current.revision + 1 })
      (rw h (omega arith))
revision_at-abstract_step id j e (some expected) none m h = omega arith
revision_at-abstract_step id j e (some expected) (some current) m h =
    elim (Bool-cases (current.revision == expected)) [
      | inl same ↦ rw same (
          revision_at-update m id j (record { entry = e; revision = expected + 1 })
            (rw h (ground arith)))
      | inr apart ↦ rw apart (omega arith)
    ]

-- What is refused when the run is at a later revision than is expected.
abstract_step-later :
    (id : String) (e : Entry) (expected n : ℕ) (current : Option StoredRun) (m : Runs)
    → expected + 1 ≤ revision_of current
    → ¬ ((abstract_step id e (some expected) current m).0 ≡ done n)
abstract_step-later id e expected n none m h = absurd (omega arith)
abstract_step-later id e expected n (some current) m h =
    let apart : (current.revision == expected) ≡ false = ground arith in rw apart (λ d. cc)

abstract_step-done :
    (id : String) (e : Entry) (expected n : ℕ) (current : Option StoredRun) (m : Runs)
    → (abstract_step id e (some expected) current m).0 ≡ done n
    → expected + 1 ≤ revision_at id (abstract_step id e (some expected) current m).1
abstract_step-done id e expected n none m h = absurd (cc)
abstract_step-done id e expected n (some current) m h =
    elim (Bool-cases (current.revision == expected)) [
      | inl same ↦ rw (same, eq_refl id) (omega arith)
      | inr apart ↦ absurd (cc (rw apart at h))
    ]

abbrev pub IsNamed : Entry × Option ℕ → Type 0
IsNamed x = str_eq x.0.run_id "" ≡ false

-- Saves by anyone, one after the other.
unfoldable pub save_all : (Entry → Option Entry) → List (Entry × Option ℕ) → Store → Store
save_all redact [] s = s
save_all redact ((e, expected) ∷ saves) s = save_all redact saves (save redact e expected s).1

module _ (redact : Entry → Option Entry)
    (keeps_id : (e e' : Entry) → redact e ≡ some e' → e'.run_id ≡ e.run_id) where
  -- An open store with sound files.
  abbrev IsReady : Store → Type 0
  IsReady s = IsSound s.files × (s.is_closed ≡ false)

  write-is_closed :
      (e : Entry) (s : Store) (r : Result ℕ) → (write redact e s r).1.is_closed ≡ s.is_closed
  write-is_closed e s (failed reason) = refl
  write-is_closed e s (done n) = refl

  save-is_closed :
      (e : Entry) (expected : Option ℕ) (s : Store)
      → (save redact e expected s).1.is_closed ≡ s.is_closed
  unfolding save
  save-is_closed e expected s =
      if_cases (λ (x : Result ℕ × Store). x.1.is_closed ≡ s.is_closed) s.is_closed (λ _. refl)
        (λ _. write-is_closed e s (next_revision expected (read_current e.run_id s.files)))

  save-IsReady :
      (e : Entry) (expected : Option ℕ) (s : Store)
      → IsReady s
      → IsNamed (e, expected)
      → IsReady (save redact e expected s).1
  save-IsReady e expected s ready named = (
    (save-abstract_save redact keeps_id e expected s ready.0 ready.1 named).2,
    save-is_closed e expected s ∙ ready.1,
  )

  save-revision_at :
      (e : Entry) (expected : Option ℕ) (s : Store) (j : String)
      → IsReady s
      → IsNamed (e, expected)
      → revision_at j (view s.files) ≤ revision_at j (view (save redact e expected s).1.files)
  save-revision_at e expected s j ready named =
      subst (λ m. revision_at j (view s.files) ≤ revision_at j m)
        (sym (save-abstract_save redact keeps_id e expected s ready.0 ready.1 named).1)
        (revision_at-abstract_step e.run_id j (shown redact e) expected (view s.files e.run_id)
          (view s.files) refl)

  save_all-IsReady :
      (saves : List (Entry × Option ℕ)) (s : Store)
      → IsReady s
      → All IsNamed saves
      → IsReady (save_all redact saves s)
  unfolding save_all
  save_all-IsReady [] s ready named = ready
  save_all-IsReady ((e, expected) ∷ saves) s ready named =
      save_all-IsReady saves (save redact e expected s).1 (save-IsReady e expected s ready named.0)
        named.1

  save_all-revision_at :
      (saves : List (Entry × Option ℕ)) (s : Store) (j : String)
      → IsReady s
      → All IsNamed saves
      → revision_at j (view s.files) ≤ revision_at j (view (save_all redact saves s).files)
  unfolding save_all
  save_all-revision_at [] s j ready named = omega arith
  save_all-revision_at ((e, expected) ∷ saves) s j ready named =
      let first = save-revision_at e expected s j ready named.0 in
      let rest =
        save_all-revision_at saves (save redact e expected s).1 j
          (save-IsReady e expected s ready named.0) named.1 in
      omega arith

  -- Of two writers that read one revision of a run, at most one succeeds: after a save that expected the
  -- revision, and any further saves of this run and others, every save that expects it still is refused.
  pub save_once_per_revision :
      (e e' : Entry) (expected n n' : ℕ) (saves : List (Entry × Option ℕ)) (s : Store)
      → IsSound s.files
      → s.is_closed ≡ false
      → str_eq e.run_id "" ≡ false
      → e'.run_id ≡ e.run_id
      → All IsNamed saves
      → (save redact e (some expected) s).0 ≡ done n
      → ¬ (
          (save redact e'
            (some expected)
            (save_all redact saves (save redact e (some expected) s).1)).0
          ≡ done n')
  save_once_per_revision e e' expected n n' saves s sound is_open named same all_named first
        second =
      let ready : IsReady s = (sound, is_open) in
      let s₁ = (save redact e (some expected) s).1 in
      let ready₁ = save-IsReady e (some expected) s ready named in
      let s₂ = save_all redact saves s₁ in
      let ready₂ = save_all-IsReady saves s₁ ready₁ all_named in
      let one = save-abstract_save redact keeps_id e (some expected) s sound is_open named in
      let two =
        save-abstract_save redact keeps_id e' (some expected) s₂ ready₂.0 ready₂.1
          (rw same named) in
      let reached : expected + 1 ≤ revision_at e.run_id (view s₁.files) =
        subst (λ m. expected + 1 ≤ revision_at e.run_id m) (sym one.1)
          (abstract_step-done e.run_id (shown redact e) expected n (view s.files e.run_id)
            (view s.files) (sym one.0 ∙ first)) in
      let kept = save_all-revision_at saves s₁ e.run_id ready₁ all_named in
      let there : expected + 1 ≤ revision_at e'.run_id (view s₂.files) = rw same (omega arith) in
      abstract_step-later e'.run_id (shown redact e') expected n' (view s₂.files e'.run_id)
        (view s₂.files) there (sym two.0 ∙ second)
