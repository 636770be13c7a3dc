-- ===== src/RunStore/Tests.antt =====
-- A store of two runs.
use readyagents_core.Common.{
  ◌≡◌, refl, ap, String, Bool, false, Option, none, some, List, [], ◌∷◌, if◌then◌else◌, pos, lookup,
  insert, filter, contains, All, arith,
}
use readyagents_core.RunStore.Files.{Entry, File, Store, done, read_revision, save}
use readyagents_core.RunStore.Listing.{
  RunQuery, all_runs, selected, newest_first, read_all, drop, wanted_statuses, gc,
}
use readyagents_core.RunStore.Abstract.{IsSound, view, abstract_save, save-abstract_save}
use readyagents_core.RunStore.Revisions.{save_all, save_once_per_revision}
use readyagents_core.RunStore.Pages.{HaveOwnIds, walk, walk-selected}
use readyagents_core.RunStore.Collecting.{MayGo, StandsFor, gc-MayGo}

abbrev entry_of : String → String → String → Entry
entry_of id status started_at = record {
  run_id = id;
  workflow_name = "w";
  status = status;
  started_at = started_at;
  body = "{}";
}

abbrev file_of : Entry → File
file_of e = record { revision = some (pos 2); entry = some e }

abbrev two_runs : Store
two_runs = record {
  files =
      ("r1", file_of (entry_of "r1" "failed" "2026-01-01"))
      ∷ ("r2", file_of (entry_of "r2" "waiting" "2026-01-02"))
      ∷ [];
  is_closed = false;
}

abbrev as_it_is : Entry → Option Entry
as_it_is e = some e

as_it_is_keeps_id : (e e' : Entry) → as_it_is e ≡ some e' → e'.run_id ≡ e.run_id
as_it_is_keeps_id e e' h = cc

abbrev empty_store : Store
empty_store = record { files = []; is_closed = false }

empty_store-IsSound : IsSound empty_store.files
unfolding lookup
empty_store-IsSound id f h = absurd (cc)

abbrev first_run : Entry
first_run = entry_of "r1" "running" "2026-01-01"

save-abstract_save_example :
    let x = save as_it_is first_run none empty_store in
    let y = abstract_save "r1" first_run none (view []) in
    (x.0 ≡ y.0) × (view x.1.files ≡ y.1) × IsSound x.1.files
save-abstract_save_example =
    save-abstract_save as_it_is as_it_is_keeps_id first_run none empty_store empty_store-IsSound
      refl refl

abbrev one_run : Store
one_run = record {
  files = ("r1", record { revision = some (pos 1); entry = some first_run }) ∷ [];
  is_closed = false;
}

saved_is_one_run : save as_it_is first_run none empty_store ≡ (done 1, one_run)
unfolding save insert lookup
saved_is_one_run = refl

one_run-IsSound : IsSound one_run.files
one_run-IsSound = rw (← ap (λ x. x.1.files) saved_is_one_run) (save-abstract_save_example.2)

first_writer : (save as_it_is (entry_of "r1" "failed" "2026-01-01") (some 1) one_run).0 ≡ done 2
unfolding save lookup insert read_revision
first_writer = refl

save_once_per_revision_example :
    let s = (save as_it_is (entry_of "r1" "failed" "2026-01-01") (some 1) one_run).1 in
    let s' = save_all as_it_is ((entry_of "r2" "queued" "2026-01-03", none) ∷ []) s in
    ¬ ((save as_it_is first_run (some 1) s').0 ≡ done 2)
save_once_per_revision_example =
    save_once_per_revision as_it_is as_it_is_keeps_id (entry_of "r1" "failed" "2026-01-01")
      first_run 1 2 2 ((entry_of "r2" "queued" "2026-01-03", none) ∷ []) one_run one_run-IsSound
      refl refl refl (refl, tt) first_writer

abbrev one_a_page : RunQuery
one_a_page = record { status = none; workflow = none; limit = 1; cursor = none }

newest_is_first :
    selected one_a_page two_runs
    ≡ record { entry = entry_of "r2" "waiting" "2026-01-02"; revision = 2 }
      ∷ record { entry = entry_of "r1" "failed" "2026-01-01"; revision = 2 }
      ∷ []
unfolding selected newest_first read_all filter read_revision
newest_is_first = refl

own_ids : HaveOwnIds (selected one_a_page two_runs)
own_ids = rw newest_is_first (refl, (refl, tt), (refl, tt, tt))

walk-selected_example : walk 3 one_a_page none two_runs ≡ selected one_a_page two_runs
walk-selected_example =
    walk-selected 3 0 one_a_page two_runs refl refl own_ids (rw newest_is_first (omega arith))

abbrev nothing_retained : Entry → Bool
nothing_retained e = false

gc-MayGo_example :
    let wanted = wanted_statuses none false in
    let x = gc nothing_retained none false 0 false two_runs in
    (ids : List String) × (x.0 ≡ done ids)
    × All
        (StandsFor
          (MayGo nothing_retained wanted false false)
          (drop 0 (selected all_runs two_runs)))
        ids
    × ((j : String)
        → lookup j x.1.files ≡ (if contains j ids then none else lookup j two_runs.files))
gc-MayGo_example = gc-MayGo nothing_retained none false 0 false two_runs refl
