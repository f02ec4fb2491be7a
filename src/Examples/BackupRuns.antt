-- ===== src/Examples/BackupRuns.antt =====
-- backup/backup.go on a directory with one database file, restored over and archived.
use sisyphus.Prelude.{
  ◌≡◌, refl, true, Option, none, some, List, [], ◌∷◌, str_eq, if◌then◌else◌, map,
}
use sisyphus.Fault.{Error, other, Result, ok}
use sisyphus.Engine.Triples.{Post}
use sisyphus.Backup.{Lib, File, Header, archive, extract}
use sisyphus.Backup.Archives.{header_of, extract-archive}
use sisyphus.Backup.Swap.{Dir, replaced, half_replaced, run}
use sisyphus.Backup.Swap.Endings.{Ended}
use sisyphus.Backup.Swap.Runs.{start, run-Ended}
use sisyphus.Backup.Restore.{World, restore}
use sisyphus.Backup.Restore.Steps.{Free}
use sisyphus.Backup.Restore.Safety.{Safe, entries_of, restore-Safe}

abbrev lib : Lib
lib = record { base = λ n. n; clean = λ n. n; sorted = λ ns. ns; checkpointed = λ c w. c }

abbrev old : Dir
old n = if str_eq n "a" then some "old" else if str_eq n "a.wal" then some "log" else none

abbrev new : Dir
new n = if str_eq n "a" then some "new" else none

swap_done : (run ("a" ∷ []) (record { table = start old new; faults = [] })).0 ≡ ok replaced
unfolding run
swap_done = refl

-- The rename of the new file fails, then that of the log back.
abbrev bad_renames : List (Option Error)
bad_renames = none ∷ none ∷ none ∷ none ∷ none ∷ some (other 7) ∷ some (other 8) ∷ []

swap_half :
    (run ("a" ∷ []) (record { table = start old new; faults = bad_renames })).0
    ≡ ok (half_replaced (other 7) ("a.wal" ∷ []))
unfolding run
swap_half = refl

run-Ended_example :
    let r = run ("a" ∷ []) (record { table = start old new; faults = bad_renames }) in
    Post (Ended old new ("a" ∷ []) "a") (λ e t. ⊥) r.0 r.1.table
run-Ended_example = run-Ended old new ("a" ∷ []) "a" bad_renames

abbrev world : World
world = record {
  files = start old (λ n. none);
  kind = λ n. if str_eq n "a" then some true else none;
  held = [];
}

abbrev tar : Result (List (Result Header))
tar = ok (ok (record { name = "a"; regular = true; content = ok "new"; size = 3 }) ∷ [])

restored_now : (restore lib tar (record { table = world; faults = [] })).0 ≡ ok replaced
unfolding restore extract run
restored_now = refl

restored_file :
    (restore lib tar (record { table = world; faults = [] })).1.table.files.dest "a" ≡ some "new"
unfolding restore extract run
restored_file = refl

restore-Safe_example :
    Post
      (Safe lib old world.kind "a" (entries_of lib tar))
      (λ e. Free old world.kind)
      (restore lib tar (record { table = world; faults = [] })).0
      (restore lib tar (record { table = world; faults = [] })).1.table
restore-Safe_example = restore-Safe lib tar "a" (record { table = world; faults = [] }) refl

abbrev archived : List File
archived = record { name = "a"; bytes = "old" } ∷ []

archived_now : (archive lib ("a" ∷ "b" ∷ []) (record { table = old; faults = [] })).0 ≡ ok archived
unfolding archive
archived_now = refl

extract-archive_example : extract lib [] (map (header_of (λ c. 3)) archived) ≡ ok archived
extract-archive_example =
    extract-archive lib (λ c. 3) ("a" ∷ "b" ∷ []) (record { table = old; faults = [] }) archived
      archived_now ((refl, refl, refl), tt)
