-- ===== src/Journal/Evictions.antt =====
-- What Prune and Retain of journal/journal.go leave, and that no record loses its run to them.
use sisyphus.Prelude.{
  ℕ, zero, suc, ◌≡◌, refl, ap, ◌∙◌, none, some, ◌++◌, Bool, true, false, ◌&&◌, ◌||◌, List, [], ◌∷◌,
  arith, ◌==◌, leb, if◌then◌else◌, count, inl, inr, Bool-cases, fun_ext,
}
use sisyphus.Prelude.Int.{ℤ, pos, negsuc}
use sisyphus.Engine.{Db}
use sisyphus.Engine.Atomic.{
  IsAtomic, Runs, IsAtomic-transaction, IsAtomic-with_db, IsAtomic-call, Runs-bind, Runs-execute,
}
use sisyphus.Engine.Sequence.{IsAtomic-then, IsAtomic-pure, IsAtomic-query_bind}
use sisyphus.Journal.{RunRow, Tables, is_top, in_runs, is_child_in, keep}
use sisyphus.Journal.Retention.{
  rows_in, rewrite_records, rewrite_runs, evict_rows, evict_counted, evict, older_than,
  comes_before, beyond_newest, prune, retain,
}
use sisyphus.Journal.Cascade.{keep-keep}
use sisyphus.Journal.Owners.{has_run, IsOwned, All-keep}

abbrev pub Condition : Type 0
Condition = List RunRow → RunRow → Bool

-- A run that an eviction takes: one that the condition names, or a child of such a one.
abbrev pub taken : Condition → List RunRow → RunRow → Bool
taken doomed runs r = doomed runs r || is_child_in (doomed runs) runs r

-- What an eviction means for the tables: those runs go, and their records.
abbrev pub evicted : Condition → Tables → Tables
evicted doomed t = record t {
  runs = keep (taken doomed t.runs) t.runs;
  records = keep (λ rec. in_runs (taken doomed t.runs) t.runs rec.run_id) t.records;
}

-- No table is left over from the compaction.
abbrev pub compacted : Tables → Tables
compacted t = record t { records_compact = none; runs_compact = none }

-- Nothing is written where the condition names no run.
abbrev pub evicted_if : Condition → Tables → Tables
evicted_if doomed t = if count (doomed t.runs) t.runs == 0 then t else compacted (evicted doomed t)

-- Deleting the children first does not change which runs the condition names.
abbrev Stable : Condition → Type 0
Stable doomed =
    (runs : List RunRow) (r : RunRow)
    → doomed (keep (is_child_in (doomed runs) runs) runs) r ≡ doomed runs r

older_than-Stable : (before : ℕ) → Stable (older_than before)
unfolding older_than
older_than-Stable before runs r = refl

count-keep :
    (p q : RunRow → Bool) (runs : List RunRow)
    → ((r : RunRow) → p r ≡ true → q r ≡ false)
    → count q (keep p runs) ≡ count q runs
count-keep p q [] h = refl
count-keep p q (r ∷ runs) h = elim (Bool-cases (p r)) [
  | inl e ↦ rw e (rw (h r e) (count-keep p q runs h))
  | inr e ↦ rw e (ground (arith, count-keep p q runs h))
]

child_is_no_top :
    (p : RunRow → Bool) (runs : List RunRow) (r : RunRow)
    → is_child_in p runs r ≡ true
    → is_top r ≡ false
child_is_no_top p runs r h = ground arith

beyond_newest-Stable : (max : ℕ) → Stable (beyond_newest max)
unfolding beyond_newest
beyond_newest-Stable max runs r =
    ap (λ n. is_top r && leb max n)
      (count-keep _ (λ q. is_top q && comes_before q r) runs
        (λ q e.
          ap (λ b. b && comes_before q r) (child_is_no_top (beyond_newest max runs) runs q e)))

keep_same :
    (p q : RunRow → Bool) (runs : List RunRow)
    → ((r : RunRow) → p r ≡ q r)
    → keep p runs ≡ keep q runs
keep_same p q runs h = ap (λ f. keep f runs) (fun_ext h)

or_swap : (a b : Bool) → (b || a) ≡ (a || b)
or_swap a b = ground arith

evict_rows-Runs : (doomed : Condition) → Stable doomed → Runs (evict_rows doomed) (evicted doomed)
unfolding evict_rows
evict_rows-Runs doomed h =
    let k =
      Runs-bind
        (Runs-execute (λ t. record t {
          records = keep (λ rec. in_runs (taken doomed t.runs) t.runs rec.run_id) t.records;
        }))
        (λ u.
          Runs-bind
            (Runs-execute
              (λ t. record t { runs = keep (is_child_in (doomed t.runs) t.runs) t.runs }))
            (λ u. Runs-execute (λ t. record t { runs = keep (doomed t.runs) t.runs }))) in
    record {
      at = λ s a e.
          k.at s a e
          ∙ ap (λ rows. record (evicted doomed s.table) { runs = rows })
              (keep_same _ (doomed s.table.runs) _ (h s.table.runs)
                ∙ keep-keep (is_child_in (doomed s.table.runs) s.table.runs) (doomed s.table.runs)
                    s.table.runs
                ∙ keep_same _ (taken doomed s.table.runs) s.table.runs
                    (λ r. or_swap (doomed s.table.runs r) _));
    }

-- The five statements keep the rows.
rewrite_records-Runs : Runs rewrite_records (λ t. record t { records_compact = none })
unfolding rewrite_records
rewrite_records-Runs = Runs-bind (Runs-execute (λ t. record t { records_compact = none })) (λ u.
    Runs-bind (Runs-execute (λ t. record t { records_compact = some [] })) (λ u.
      Runs-bind
        (Runs-execute
          (λ t. record t { records_compact = some (rows_in t.records_compact ++ t.records) }))
        (λ u. Runs-bind (Runs-execute (λ t. record t { records = [] })) (λ u.
          Runs-execute
            (λ t. record t { records = rows_in t.records_compact; records_compact = none })))))

rewrite_runs-Runs : Runs rewrite_runs (λ t. record t { runs_compact = none })
unfolding rewrite_runs
rewrite_runs-Runs = Runs-bind (Runs-execute (λ t. record t { runs_compact = none })) (λ u.
    Runs-bind (Runs-execute (λ t. record t { runs_compact = some [] })) (λ u.
      Runs-bind
        (Runs-execute (λ t. record t { runs_compact = some (rows_in t.runs_compact ++ t.runs) }))
        (λ u. Runs-bind (Runs-execute (λ t. record t { runs = [] })) (λ u.
          Runs-execute (λ t. record t { runs = rows_in t.runs_compact; runs_compact = none })))))

evict_counted-IsAtomic :
    (doomed : Condition)
    → Stable doomed
    → (n : ℕ)
    → IsAtomic (evict_counted doomed n) (λ t. if n == 0 then t else compacted (evicted doomed t))
unfolding evict_counted
evict_counted-IsAtomic doomed h n = elim (Bool-cases (n == 0)) [
  | inl e ↦ rw e (IsAtomic-pure 0)
  | inr e ↦ rw e (
      IsAtomic-then
        (IsAtomic-transaction (
          Runs-bind (evict_rows-Runs doomed h)
            (λ u. Runs-bind rewrite_records-Runs (λ u. rewrite_runs-Runs))))
        (λ u. IsAtomic-then IsAtomic-call (λ u. IsAtomic-pure n)))
]

evict-IsAtomic : (doomed : Condition) → Stable doomed → IsAtomic (evict doomed) (evicted_if doomed)
unfolding evict
evict-IsAtomic doomed h = IsAtomic-with_db (
    IsAtomic-query_bind _ _ (λ n t. if n == 0 then t else compacted (evicted doomed t))
      (evict_counted-IsAtomic doomed h))

-- Prune, whichever calls fail, has removed the top-level runs that started before the time, with
-- their children and all their records, and its compaction has kept every other row, in order, and left
-- no table behind; or it has changed nothing, as with a zero time.
pub prune-IsAtomic :
    (before : ℕ)
    → IsAtomic (prune before) (λ t. if before == 0 then t else evicted_if (older_than before) t)
unfolding prune
prune-IsAtomic before = elim (Bool-cases (before == 0)) [
  | inl e ↦ rw e (IsAtomic-pure 0)
  | inr e ↦ rw e (evict-IsAtomic (older_than before) (older_than-Stable before))
]

abbrev pub retained : ℤ → Tables → Tables
retained (pos zero) t = t
retained (pos (suc n)) t = evicted_if (beyond_newest (suc n)) t
retained (negsuc n) t = t

-- Retain, whichever calls fail, has removed the top-level runs that as many others as it retains
-- come before, with their children and all their records, and its compaction has kept every other row,
-- in order, and left no table behind; or it has changed nothing, as with a number that is not positive.
pub retain-IsAtomic : (max : ℤ) → IsAtomic (retain max) (retained max)
unfolding retain
retain-IsAtomic (pos zero) = IsAtomic-pure 0
retain-IsAtomic (pos (suc n)) =
    evict-IsAtomic (beyond_newest (suc n)) (beyond_newest-Stable (suc n))
retain-IsAtomic (negsuc n) = IsAtomic-pure 0

has_run-keep_others :
    (p : RunRow → Bool) (x : ℕ) (runs : List RunRow)
    → has_run x runs ≡ true
    → in_runs p runs x ≡ false
    → has_run x (keep p runs) ≡ true
has_run-keep_others p x [] h c = cc
has_run-keep_others p x (r ∷ runs) h c = ground (arith, has_run-keep_others p x runs)

evicted_if-IsOwned : (doomed : Condition) (t : Tables) → IsOwned t → IsOwned (evicted_if doomed t)
evicted_if-IsOwned doomed t h = elim (Bool-cases (count (doomed t.runs) t.runs == 0)) [
  | inl e ↦ rw e h
  | inr e ↦ rw e (
      All-keep _ _ _ t.records
        (λ rec q o. has_run-keep_others (taken doomed t.runs) rec.run_id t.runs o q) h)
]

retained-IsOwned : (max : ℤ) (t : Tables) → IsOwned t → IsOwned (retained max t)
retained-IsOwned (pos zero) t h = h
retained-IsOwned (pos (suc n)) t h = evicted_if-IsOwned (beyond_newest (suc n)) t h
retained-IsOwned (negsuc n) t h = h

pruned-IsOwned :
    (before : ℕ) (t : Tables)
    → IsOwned t
    → IsOwned (if before == 0 then t else evicted_if (older_than before) t)
pruned-IsOwned before t h = elim (Bool-cases (before == 0)) [
  | inl e ↦ rw e h
  | inr e ↦ rw e (evicted_if-IsOwned (older_than before) t h)
]

-- Prune and Retain, whichever calls fail, leave no record without its run.
pub prune-retain-IsOwned :
    (before : ℕ) (max : ℤ) (s : Db Tables)
    → IsOwned s.table
    → IsOwned (prune before s).1.table × IsOwned (retain max s).1.table
prune-retain-IsOwned before max s h = (
  elim ((prune-IsAtomic before).settled s) [
    | inl e ↦ rw e h
    | inr e ↦ rw e (pruned-IsOwned before s.table h)
  ],
  elim ((retain-IsAtomic max).settled s) [
    | inl e ↦ rw e h
    | inr e ↦ rw e (retained-IsOwned max s.table h)
  ],
)
