-- ===== src/Journal/Owners.antt =====
-- journal/journal.go: every record belongs to a run that is there.
use sisyphus.Prelude.{
  ℕ, ◌≤◌, ◌≡◌, refl, Bool, true, false, List, [], ◌∷◌, ◌++◌, arith, ◌==◌, any, map, All, inl, inr,
  Bool-cases, All-append, All-imp,
}
use sisyphus.Engine.{Db}
use sisyphus.Journal.{
  RunRow, RecordRow, Tables, Run, Record, is_child_of, in_runs, keep, record_row, run_row, add,
  delete,
}
use sisyphus.Journal.Cascade.{added, deleted, gone, add-IsAtomic, delete-IsAtomic}

abbrev pub has_run : ℕ → List RunRow → Bool
has_run id runs = any (λ r. r.id == id) runs

-- No record without its run.
abbrev pub IsOwned : Tables → Type 0
IsOwned t = All (λ rec. has_run rec.run_id t.runs ≡ true) t.records

has_run-append :
    (id : ℕ) (runs more : List RunRow) → has_run id runs ≡ true → has_run id (runs ++ more) ≡ true
has_run-append id [] more h = cc
has_run-append id (r ∷ runs) more h = ground (arith, has_run-append id runs more)

has_run-last :
    (id : ℕ) (runs : List RunRow) (r : RunRow) → r.id ≡ id → has_run id (runs ++ r ∷ []) ≡ true
has_run-last id [] r h = ground arith
has_run-last id (q ∷ runs) r h = ground (arith, has_run-last id runs r)

All-records :
    (P : RecordRow → Type 0) (owner : ℕ) (records : List Record)
    → ((r : Record) → P (record_row owner r))
    → All P (map (record_row owner) records)
All-records P owner [] f = tt
All-records P owner (r ∷ records) f = (f r, All-records P owner records f)

added-IsOwned :
    (run : Run) (records : List Record) (t : Tables) → IsOwned t → IsOwned (added run records t)
added-IsOwned run records t h =
    All-append _ t.records _
      (All-imp t.records (λ rec. has_run-append rec.run_id t.runs (run_row run t.next_run ∷ [])) h)
      (All-records _ t.next_run records
        (λ r. has_run-last t.next_run t.runs (run_row run t.next_run) refl))

has_run-keep :
    (id x : ℕ) (runs : List RunRow)
    → has_run x runs ≡ true
    → (x == id) ≡ false
    → in_runs (is_child_of id) runs x ≡ false
    → has_run x (keep (gone id) runs) ≡ true
has_run-keep id x [] h d c = cc
has_run-keep id x (r ∷ runs) h d c = ground (arith, has_run-keep id x runs)

pub All-keep :
    (P Q : RecordRow → Type 0) (p : RecordRow → Bool) (rows : List RecordRow)
    → ((r : RecordRow) → p r ≡ false → P r → Q r)
    → All P rows
    → All Q (keep p rows)
All-keep P Q p [] f h = tt
All-keep P Q p (r ∷ rows) f h = elim (Bool-cases (p r)) [
  | inl e ↦ rw e (All-keep P Q p rows f h.1)
  | inr e ↦ rw e (f r e h.0, All-keep P Q p rows f h.1)
]

deleted-IsOwned : (id : ℕ) (t : Tables) → IsOwned t → IsOwned (deleted id t)
deleted-IsOwned id t h =
    All-keep _ _ _ t.records
      (λ rec e o. has_run-keep id rec.run_id t.runs o (ground arith) (ground arith)) h

-- Add and Delete, whichever calls fail, leave no record without its run.
pub add_delete-IsOwned :
    (run : Run) (records : List Record) (id : ℕ) (s : Db Tables)
    → 1 ≤ id
    → IsOwned s.table
    → IsOwned (add run records s).1.table × IsOwned (delete id s).1.table
add_delete-IsOwned run records id s l h = (
  elim ((add-IsAtomic run records).settled s) [
    | inl e ↦ rw e h
    | inr e ↦ rw e (added-IsOwned run records s.table h)
  ],
  elim ((delete-IsAtomic id l).settled s) [
    | inl e ↦ rw e h
    | inr e ↦ rw e (deleted-IsOwned id s.table h)
  ],
)
