-- ===== src/Journal/Queries.antt =====
-- Recent, Children, Get and Records of journal/journal.go.
use sisyphus.Prelude.{
  ℕ, Bool, Option, none, some, List, [], ◌∷◌, leb, ◌==◌, if◌then◌else◌, filter, map, take,
}
use sisyphus.Prelude.Int.{ℤ, positive_or}
use sisyphus.Engine.{Exec, ◌>>=◌, ◌>>◌, pure, call, query, with_db}
use sisyphus.Kv.{scan_time}
use sisyphus.Journal.{
  RunRow, RecordRow, Tables, Run, Record, is_top, is_child_of, owned_by, scan_text, scan_count,
}

-- The rows that queryRuns scans, which does not read parent_id.
unfoldable pub scan_run : RunRow → Run
unfolding scan_time
scan_run r = record {
  id = r.id;
  parent_id = 0;
  kind = r.kind;
  name = scan_text r.name;
  started = r.started_at;
  finished = scan_time r.finished_at;
  count = scan_count r.count;
  error = scan_text r.error;
  attrs = scan_text r.attrs;
}

unfoldable pub query_runs : (List RunRow → List RunRow) → Exec Tables (List Run)
unfolding ◌>>=◌ with_db query call pure scan_run
query_runs q = with_db (do rows ← query (λ t. map scan_run (q t.runs)); call; pure rows)

-- ORDER BY started_at; rows of one time keep the order of the table, which is that of their ids.
abbrev pub insert_by : {A : Type 0} → (A → A → Bool) → A → List A → List A
insert_by le x [] = x ∷ []
insert_by le x (y ∷ ys) = let rest = insert_by le x ys in if le x y then x ∷ y ∷ ys else y ∷ rest

abbrev pub sort_by : {A : Type 0} → (A → A → Bool) → List A → List A
sort_by le [] = []
sort_by le (x ∷ xs) = insert_by le x (sort_by le xs)

unfoldable pub recent : ℤ → Exec Tables (List Run)
unfolding query_runs
recent limit = query_runs (λ runs.
    take (positive_or 20 limit)
      (sort_by (λ r q. leb q.started_at r.started_at) (filter is_top runs)))

unfoldable pub children : ℕ → Exec Tables (List Run)
unfolding query_runs
children parent_id =
    query_runs
      (λ runs. sort_by (λ r q. leb r.started_at q.started_at) (filter (is_child_of parent_id) runs))

abbrev pub first_run : List Run → Option Run
first_run [] = none
first_run (r ∷ runs) = some r

unfoldable pub get : ℕ → Exec Tables (Option Run)
unfolding ◌>>=◌ query_runs pure
get id = do runs ← query_runs (filter (λ r. r.id == id)); pure (first_run runs)

unfoldable pub scan_record : RecordRow → Record
unfolding scan_time
scan_record r = record { ts = scan_time r.ts; attrs = scan_text r.attrs }

unfoldable pub records_of : ℕ → Exec Tables (List Record)
unfolding ◌>>=◌ with_db query call pure scan_record
records_of run_id = with_db (do
  rows ← query (λ t.
      map scan_record (
        sort_by (λ r q. leb (scan_time q.ts) (scan_time r.ts))
          (filter (owned_by run_id) t.records)))
  call
  pure rows)
