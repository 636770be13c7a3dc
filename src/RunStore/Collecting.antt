-- ===== src/RunStore/Collecting.antt =====
-- What `gc` removes.
use readyagents_core.Common.{
  ℕ, ◌≡◌, refl, ◌∙◌, ap, arith, String, Bool, true, false, Option, none, List, [], ◌∷◌, ◌++◌,
  if◌then◌else◌, str_eq, ◌||◌, inl, inr, Bool-cases, Option-cases, All, Dict, lookup, remove,
  lookup-remove, contains,
}
use readyagents_core.RunStore.Files.{Entry, File, StoredRun, Store, done}
use readyagents_core.RunStore.Listing.{
  all_runs, selected, drop, wanted_statuses, is_collected, collect, gc,
}

-- Why a record may go.
pub record MayGo (is_retained : Entry → Bool) (wanted : List String)
    (include_paused override : Bool) (e : Entry) : Type 0 where
  pub not_waiting : str_eq e.status "waiting" ≡ false
  pub asked_for : contains e.status wanted ≡ true
  pub paused_only_if_included : str_eq e.status "paused" ≡ true → include_paused ≡ true
  pub retained_only_if_overridden : is_retained e ≡ true → override ≡ true

-- An id stands for some record of a list of which something holds.
abbrev pub StandsFor : (Entry → Type 0) → List StoredRun → String → Type 0
StandsFor P rs id =
    (r : StoredRun) × (before : List StoredRun) × (after : List StoredRun) × (rs
      ≡ before ++ r ∷ after)
    × (r.entry.run_id ≡ id)
    × P r.entry

without :
    (c d : Bool) (x y : Option File)
    → x ≡ (if d then none else y)
    → (if c then none else x) ≡ (if d || c then none else y)
without true true x y h = refl
without true false x y h = refl
without false true x y h = h
without false false x y h = h

module _ (is_retained : Entry → Bool) where
  is_collected-MayGo :
      (wanted : List String) (include_paused override : Bool) (e : Entry)
      → is_collected is_retained wanted include_paused override e ≡ true
      → MayGo is_retained wanted include_paused override e
  unfolding is_collected
  is_collected-MayGo wanted include_paused override e h = record {
    not_waiting = ground arith;
    asked_for = ground arith;
    paused_only_if_included = λ p. ground arith;
    retained_only_if_overridden = λ p. ground arith;
  }

  StandsFor-later :
      (P : Entry → Type 0) (r : StoredRun) (rs : List StoredRun) (id : String)
      → StandsFor P rs id
      → StandsFor P (r ∷ rs) id
  StandsFor-later P r rs id (x, before, after, split, same, passed) =
      (x, r ∷ before, after, ap (λ zs. r ∷ zs) split, same, passed)

  All-later :
      (P : Entry → Type 0) (r : StoredRun) (rs : List StoredRun) (ids : List String)
      → All (StandsFor P rs) ids
      → All (StandsFor P (r ∷ rs)) ids
  All-later P r rs [] h = tt
  All-later P r rs (id ∷ ids) h = (StandsFor-later P r rs id h.0, All-later P r rs ids h.1)

  -- Only records that pass go, and the other files are as they were.
  abbrev Collects : (Entry → Type 0) → List StoredRun → Dict File → List String × Dict File → Type 0
  Collects P rs files x =
      All (StandsFor P rs) x.0
      × ((j : String) → lookup j x.1 ≡ (if contains j x.0 then none else lookup j files))

  collect-Collects :
      (test : Entry → Bool) (P : Entry → Type 0)
      → ((e : Entry) → test e ≡ true → P e)
      → (rs : List StoredRun) (files : Dict File)
      → Collects P rs files (collect is_retained test rs files)
  unfolding collect contains
  collect-Collects test P passes [] files = (tt, λ j. refl)
  collect-Collects test P passes (r ∷ rs) files = elim (Bool-cases (test r.entry)) [
    | inr kept ↦
        let later = collect-Collects test P passes rs files in
        rw kept (All-later P r rs _ later.0, later.1)
    | inl gone ↦ elim (Option-cases (lookup r.entry.run_id files)) [
      | inl missing ↦
          let later = collect-Collects test P passes rs files in
          rw (gone, missing) (All-later P r rs _ later.0, later.1)
      | inr (f, found) ↦
          let later = collect-Collects test P passes rs (remove r.entry.run_id files) in
          rw (gone, found)
            (
              ((r, [], rs, refl, refl, passes r.entry gone), All-later P r rs _ later.0),
              λ j.
                  later.1 j
                  ∙ without (contains j _) (str_eq r.entry.run_id j) _ (lookup j files)
                      (lookup-remove r.entry.run_id j files),
            )
    ]
  ]

  -- What is collected of a store: each removed id stands for a run of the listing beyond the newest `keep` of the
  -- whole listing, which are counted whatever their statuses are, and has a status that was asked for. It is not
  -- waiting, it is paused only if paused runs were included, and it is within the time of retention only if that
  -- was overridden. Every file that is not named in the answer is as it was, and every one that is named is
  -- gone. The store is open.
  pub gc-MayGo :
      (statuses : Option (List String)) (include_paused : Bool) (keep : ℕ) (override : Bool)
      (s : Store)
      → s.is_closed ≡ false
      → let wanted = wanted_statuses statuses include_paused in
        let x = gc is_retained statuses include_paused keep override s in
        (ids : List String) × (x.0 ≡ done ids)
        × All
            (StandsFor
              (MayGo is_retained wanted include_paused override)
              (drop keep (selected all_runs s)))
            ids
        × ((j : String) → lookup j x.1.files ≡ (if contains j ids then none else lookup j s.files))
  unfolding gc selected
  gc-MayGo statuses include_paused keep override s is_open =
      let wanted = wanted_statuses statuses include_paused in
      let test = is_collected is_retained wanted include_paused override in
      let runs = drop keep (selected all_runs s) in
      let facts =
        collect-Collects test (MayGo is_retained wanted include_paused override)
          (is_collected-MayGo wanted include_paused override) runs s.files in
      ((collect is_retained test runs s.files).0, rw is_open, facts.0, rw is_open facts.1)
