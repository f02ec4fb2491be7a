-- ===== src/Journal/Retention.antt =====
-- Prune and Retain of journal/journal.go, and the statements that they share.
use sisyphus.Prelude.{
  ℕ, zero, suc, Bool, ◌&&◌, ◌||◌, Option, none, some, List, [], ◌++◌, ltb, leb, ◌==◌, if◌then◌else◌,
  count,
}
use sisyphus.Prelude.Int.{ℤ, pos, negsuc}
use sisyphus.Engine.{Exec, ◌>>=◌, ◌>>◌, pure, execute, call, query, transaction, with_db}
use sisyphus.Journal.{RunRow, Tables, is_top, in_runs, is_child_in, keep}

-- parent_id IS NULL AND started_at < ?
unfoldable pub older_than : ℕ → List RunRow → RunRow → Bool
older_than before runs r = is_top r && ltb r.started_at before

-- ORDER BY started_at DESC, id DESC
abbrev pub comes_before : RunRow → RunRow → Bool
comes_before r q = ltb q.started_at r.started_at || (r.started_at == q.started_at && ltb q.id r.id)

-- … id NOT IN (SELECT id … LIMIT ?): among the top-level runs, at least that many come before it.
unfoldable pub beyond_newest : ℕ → List RunRow → RunRow → Bool
beyond_newest max runs r = is_top r && leb max (count (λ q. is_top q && comes_before q r) runs)

-- The rows of a table that may be missing.
module _ {A : Type 0} where
  abbrev pub rows_in : Option (List A) → List A
  rows_in none = []
  rows_in (some rows) = rows

-- rewriteTable("records", …): DROP IF EXISTS, CREATE, INSERT … SELECT, DROP, RENAME. A dropped table
-- has no rows.
unfoldable pub rewrite_records : Exec Tables Unit
unfolding ◌>>=◌ execute
rewrite_records = do
  execute (λ t. record t { records_compact = none })
  execute (λ t. record t { records_compact = some [] })
  execute (λ t. record t { records_compact = some (rows_in t.records_compact ++ t.records) })
  execute (λ t. record t { records = [] })
  execute (λ t. record t { records = rows_in t.records_compact; records_compact = none })

-- rewriteTable("runs", …)
unfoldable pub rewrite_runs : Exec Tables Unit
unfolding ◌>>=◌ execute
rewrite_runs = do
  execute (λ t. record t { runs_compact = none })
  execute (λ t. record t { runs_compact = some [] })
  execute (λ t. record t { runs_compact = some (rows_in t.runs_compact ++ t.runs) })
  execute (λ t. record t { runs = [] })
  execute (λ t. record t { runs = rows_in t.runs_compact; runs_compact = none })

-- evictStatements: the condition is read anew, on the runs that are left, by each statement.
unfoldable pub evict_rows : (List RunRow → RunRow → Bool) → Exec Tables Unit
unfolding ◌>>=◌ execute
evict_rows doomed = do
  execute (λ t. record t {
    records =
        keep
          (λ rec.
            in_runs (λ r. doomed t.runs r || is_child_in (doomed t.runs) t.runs r) t.runs
              rec.run_id)
          t.records;
  })
  execute (λ t. record t { runs = keep (is_child_in (doomed t.runs) t.runs) t.runs })
  execute (λ t. record t { runs = keep (doomed t.runs) t.runs })

-- The rest of evict's closure, behind the count. Where CHECKPOINT fails, evict returns the count
-- beside the error; the model returns the error.
unfoldable pub evict_counted : (List RunRow → RunRow → Bool) → ℕ → Exec Tables ℕ
unfolding ◌>>=◌ pure transaction evict_rows rewrite_records rewrite_runs call
evict_counted doomed doomed_runs = if doomed_runs == 0 then pure 0 else (do
  transaction (do evict_rows doomed; rewrite_records; rewrite_runs)
  call
  pure doomed_runs)

unfoldable pub evict : (List RunRow → RunRow → Bool) → Exec Tables ℕ
unfolding ◌>>=◌ with_db query evict_counted
evict doomed =
    with_db
      (do doomed_runs ← query (λ t. count (doomed t.runs) t.runs); evict_counted doomed doomed_runs)

unfoldable pub prune : ℕ → Exec Tables ℕ
unfolding pure evict older_than
prune before = if before == 0 then pure 0 else evict (older_than before)

unfoldable pub retain : ℤ → Exec Tables ℕ
unfolding pure evict beyond_newest
retain (pos zero) = pure 0
retain (pos (suc n)) = evict (beyond_newest (suc n))
retain (negsuc n) = pure 0
