-- ===== src/ConfigDb/Documents.antt =====
-- configdb/configdb.go as its clients see it: the snapshot and the archive of each name.
use sisyphus.Prelude.{
  ℕ, String, ◌≡◌, ◌∙◌, ap, Option, none, some, List, [], ◌∷◌, ◌++◌, arith, str_eq, eq_iff,
  if◌then◌else◌, filter, find?, filter-append,
}
use sisyphus.Fault.{ok}
use sisyphus.Engine.{Db}
use sisyphus.ConfigDb.{Snapshot, Tables, Lib, named, unnamed, import_doc, forget}
use sisyphus.ConfigDb.Imports.{archived_rows, replaced, imported, import-settled, forget-settled}

abbrev pub snapshot_of : String → Tables → Option Snapshot
snapshot_of n t = find? (named n) t.current

abbrev pub archive_of : String → Tables → List Snapshot
archive_of n t = filter (named n) t.history

find?-unnamed :
    (n m : String) (vs : List Snapshot)
    → find? (named m) (unnamed n vs) ≡ (if str_eq n m then none else find? (named m) vs)
find?-unnamed n m [] = ground arith
find?-unnamed n m (v ∷ vs) =
    ground (arith, find?-unnamed n m vs, eq_iff v.name n, eq_iff v.name m, eq_iff n m)

filter-unnamed :
    (n m : String) (vs : List Snapshot)
    → filter (named m) (unnamed n vs) ≡ (if str_eq n m then [] else filter (named m) vs)
filter-unnamed n m [] = ground arith
filter-unnamed n m (v ∷ vs) =
    ground (arith, filter-unnamed n m vs, eq_iff v.name n, eq_iff v.name m, eq_iff n m)

find?-added :
    (m : String) (vs : List Snapshot) (w : Snapshot)
    → find? (named m) (vs ++ w ∷ [])
      ≡ elim (find? (named m) vs) [ some v ↦ some v | none ↦ if named m w then some w else none ]
find?-added m [] w = ground arith
find?-added m (v ∷ vs) w = ground (arith, find?-added m vs w)

replaced_snapshot :
    (now : ℕ) (v : Snapshot) (t : Tables) (m : String)
    → snapshot_of m (replaced now v t) ≡ (if str_eq v.name m then some v else snapshot_of m t)
replaced_snapshot now v t m =
    ground (arith, find?-added m (unnamed v.name t.current) v, find?-unnamed v.name m t.current)

find?-name :
    (n : String) (vs : List Snapshot) (v : Snapshot) → find? (named n) vs ≡ some v → v.name ≡ n
find?-name n [] v h = cc
find?-name n (w ∷ vs) v h = ground (arith, find?-name n vs v, eq_iff w.name n)

filter-archived :
    (now : ℕ) (n m : String) (vs : List Snapshot)
    → filter (named m) (archived_rows now (find? (named n) vs))
      ≡ (if str_eq n m then archived_rows now (find? (named n) vs) else [])
filter-archived now n m [] = ground arith
filter-archived now n m (v ∷ vs) =
    ground (arith, filter-archived now n m vs, eq_iff v.name n, eq_iff v.name m, eq_iff n m)

replaced_archive :
    (now : ℕ) (v : Snapshot) (t : Tables) (m : String)
    → archive_of m (replaced now v t)
      ≡ archive_of m t ++ (if str_eq v.name m then archived_rows now (snapshot_of m t) else [])
replaced_archive now v t m = ground (
  arith,
  filter-append (named m) t.history (archived_rows now (find? (named v.name) t.current)),
  filter-archived now v.name m t.current,
  eq_iff v.name m,
)

-- After an Import that returned no error, its document's snapshot is the content in its format with
-- the hash of both, and the snapshot it had ends the document's archive, dated anew; every other
-- document has the snapshot and the archive that it had.
pub import-view :
    (lib : Lib) (archived applied bumped : ℕ) (n content format : String) (s : Db Tables)
    (m : String)
    → (import_doc lib archived applied bumped n content format s).0 ≡ ok tt
    → let t = (import_doc lib archived applied bumped n content format s).1.table in
      (snapshot_of m t ≡ (
        if str_eq n m then some (imported lib applied n content format) else snapshot_of m s.table))
      × (archive_of m t
          ≡ archive_of m s.table
            ++ (if str_eq n m then archived_rows archived (snapshot_of m s.table) else []))
import-view lib archived applied bumped n content format s m h =
    let e = (import-settled lib archived applied bumped n content format s).1 h in
    let v = imported lib applied n content format in
    (
      ap (λ d. find? (named m) d.0) e ∙ replaced_snapshot archived v s.table m,
      ap (λ d. filter (named m) d.1) e ∙ replaced_archive archived v s.table m,
    )

-- After a Forget that returned no error, its document has neither a snapshot nor an archive, and
-- every other document has those that it had.
pub forget-view :
    (lib : Lib) (bumped : ℕ) (n : String) (s : Db Tables) (m : String)
    → (forget lib bumped n s).0 ≡ ok tt
    → let t = (forget lib bumped n s).1.table in
      (snapshot_of m t ≡ (if str_eq n m then none else snapshot_of m s.table))
      × (archive_of m t ≡ (if str_eq n m then [] else archive_of m s.table))
forget-view lib bumped n s m h =
    let e = (forget-settled lib bumped n s).1 h in
    (
      ap (λ d. find? (named m) d.0) e ∙ find?-unnamed n m s.table.current,
      ap (λ d. filter (named m) d.1) e ∙ filter-unnamed n m s.table.history,
    )
