-- ===== src/Examples/ConfigRuns.antt =====
-- configdb/configdb.go and manager.go on a store with one document that has been replaced once.
use Prim.Native.String.{◌++◌ as append}
use sisyphus.Prelude.{String, ◌≡◌, refl, none, some, List, [], ◌∷◌, filter, map, ◌⊎◌}
use sisyphus.Prelude.Int.{pos}
use sisyphus.Fault.{other, ok, err}
use sisyphus.Engine.{Db}
use sisyphus.ConfigDb.{Snapshot, Tables, Lib, import_doc, history}
use sisyphus.ConfigDb.Imports.{documents, replaced, imported, import_all_or_nothing}
use sisyphus.ConfigDb.Documents.{snapshot_of, archive_of, import-view}
use sisyphus.ConfigStore.{Item, Reconciliation, Clock, both, reconciliation, plan, apply, effective}
use sisyphus.ConfigStore.Plans.{plan-drifted, drifted, reconciled}
use sisyphus.ConfigStore.Applies.{effective-apply_import}

abbrev lib : Lib
lib = record {
  digest = λ s. append "sha:" s;
  base36 = λ n. "t";
  first12 = λ s. s;
  trim_space = λ s. s;
}

abbrev old : Snapshot
old = record { name = "app"; hash = "sha:1"; format = "toml"; content = "a = 1"; at = 3 }

abbrev older : Snapshot
older = record { name = "app"; hash = "sha:0"; format = "toml"; content = "a = 0"; at = 2 }

abbrev tables : Tables
tables = record { current = old ∷ []; history = older ∷ []; marker = none }

abbrev calm : Db Tables
calm = record { table = tables; faults = [] }

-- The INSERT of the new snapshot fails: the sixth call, behind Open, SELECT, Begin and two others.
abbrev failing : Db Tables
failing = record { table = tables; faults = none ∷ none ∷ none ∷ none ∷ none ∷ some (other 1) ∷ [] }

abbrev item : Item
item = record { name = "app"; file_content = "a = 2"; file_format = "toml" }

abbrev clock : Clock
clock = record { archived = 10; applied = 11; bumped = 12 }

failed_import : (import_doc lib 10 11 12 "app" "a = 2" "toml" failing).0 ≡ err (other 1)
unfolding import_doc
failed_import = refl

newest : (history "app" (pos 1) calm).0 ≡ ok (older ∷ [])
unfolding history
newest = refl

abbrev imported_run : Db Tables
imported_run = (import_doc lib 10 11 12 "app" "a = 2" "toml" calm).1

import-view_example :
    (snapshot_of "app" imported_run.table ≡ some (imported lib 11 "app" "a = 2" "toml"))
    × (archive_of "app" imported_run.table ≡ older ∷ record old { at = 10 } ∷ [])
unfolding import_doc
import-view_example = import-view lib 10 11 12 "app" "a = 2" "toml" calm "app" refl

import_all_or_nothing_example :
    let t = (import_doc lib 10 11 12 "app" "a = 2" "toml" failing).1.table in
    (documents t ≡ documents tables)
    ⊎ (documents t ≡ documents (replaced 10 (imported lib 11 "app" "a = 2" "toml") tables))
import_all_or_nothing_example = import_all_or_nothing lib 10 11 12 "app" "a = 2" "toml" failing

plan-drifted_example :
    reconciliation item old ∷ [] ≡ map (reconciled tables) (filter (drifted lib tables) (item ∷ []))
unfolding plan
plan-drifted_example = plan-drifted lib (item ∷ []) calm (reconciliation item old ∷ []) refl

abbrev none_left : List Reconciliation
none_left = []

abbrev answer : String × String
answer = ("a = 2", "toml")

effective-apply_import_example : answer ≡ answer
unfolding apply effective import_doc
effective-apply_import_example =
    effective-apply_import lib clock item old both calm imported_run answer answer refl refl
