-- ===== src/Journal.antt =====
-- journal/journal.go: runs, at most one level deep, and their records. A query's SQL text is read as
-- a function on the two tables; an attribute map is the text that it is stored as.
pub mod Cascade
pub mod Owners
pub mod Evictions
pub mod Retention
pub mod Queries
use sisyphus.Prelude.{
  ℕ, zero, suc, ◌+◌, ◌≤◌, String, Bool, true, false, not, ◌&&◌, ◌||◌, Option, none, some, List, [],
  ◌∷◌, ◌++◌, ltb, leb, ◌==◌, if◌then◌else◌, length, filter, count, any, map, take, drop, str_eq,
  min,
}
use sisyphus.Prelude.Int.{ℤ, pos, negsuc, positive_or}
use sisyphus.Fault.{Error, unavailable, Result, ok, err}
use sisyphus.Engine.{
  Db, Exec, ◌>>=◌, ◌>>◌, pure, raise, statement, execute, call, query, transaction, with_db,
  on_store,
}
use sisyphus.Kv.{null_time, scan_time}

-- A row of runs; a `none` is NULL.
pub record RunRow : Type 0 where
  pub id : ℕ
  pub parent_id : Option ℕ
  pub kind : String
  pub name : Option String
  pub started_at : ℕ
  pub finished_at : Option ℕ
  pub count : Option ℕ
  pub error : Option String
  pub attrs : Option String

pub record RecordRow : Type 0 where
  pub run_id : ℕ
  pub ts : Option ℕ
  pub attrs : Option String

-- The tables, and the next value of journal_run_seq; which of its values are skipped after a
-- rollback is not modelled. `records_compact` and `runs_compact` are there while a table is rewritten.
pub record Tables : Type 0 where
  pub runs : List RunRow
  pub records : List RecordRow
  pub next_run : ℕ
  pub records_compact : Option (List RecordRow)
  pub runs_compact : Option (List RunRow)

pub record Run : Type 0 where
  pub id : ℕ
  pub parent_id : ℕ
  pub kind : String
  pub name : String
  pub started : ℕ
  pub finished : ℕ
  pub count : ℕ
  pub error : String
  pub attrs : String

pub record Record : Type 0 where
  pub ts : ℕ
  pub attrs : String

-- duckdb.NullInt and duckdb.NullStr, marshalAttrs of a map that is empty or not, and back.
unfoldable pub null_int : ℕ → Option ℕ
null_int n = if n == 0 then none else some n

unfoldable pub null_str : String → Option String
null_str s = if str_eq s "" then none else some s

abbrev pub scan_text : Option String → String
scan_text none = ""
scan_text (some s) = s

abbrev pub scan_count : Option ℕ → ℕ
scan_count none = 0
scan_count (some n) = n

abbrev pub is_top : RunRow → Bool
is_top r = elim r.parent_id [ none ↦ true | some p ↦ false ]

-- parent_id = ?, which no NULL satisfies.
abbrev pub is_child_of : ℕ → RunRow → Bool
is_child_of p r = elim r.parent_id [ none ↦ false | some q ↦ q == p ]

abbrev pub owned_by : ℕ → RecordRow → Bool
owned_by id rec = rec.run_id == id

-- parent_id IN (SELECT id FROM runs WHERE …)
abbrev pub in_runs : (RunRow → Bool) → List RunRow → ℕ → Bool
in_runs p runs id = any (λ r. p r && r.id == id) runs

abbrev pub is_child_in : (RunRow → Bool) → List RunRow → RunRow → Bool
is_child_in p runs r = elim r.parent_id [ none ↦ false | some q ↦ in_runs p runs q ]

abbrev pub keep : {A : Type 0} → (A → Bool) → List A → List A
keep p rows = filter (λ r. not (p r)) rows

-- INSERT INTO runs … RETURNING id
abbrev pub with_new_run : (ℕ → RunRow) → Tables → ℕ × Tables
with_new_run row t =
    (t.next_run, record t { runs = t.runs ++ row t.next_run ∷ []; next_run = suc t.next_run })

unfoldable pub start_run : ℕ → String → String → String → Exec Tables ℕ
unfolding with_db statement null_str
start_run now kind name attrs = with_db (
    statement (
      with_new_run (λ id. record {
        id = id;
        parent_id = none;
        kind = kind;
        name = some name;
        started_at = now;
        finished_at = none;
        count = none;
        error = none;
        attrs = null_str attrs;
      })))

-- coalesce((SELECT sum(count) FROM runs WHERE parent_id = ?), 0)
unfoldable pub sum_children : ℕ → List RunRow → ℕ
sum_children id [] = 0
sum_children id (r ∷ runs) =
    let rest = sum_children id runs in
    let own = scan_count r.count in if is_child_of id r then own + rest else rest

abbrev pub finish_row : ℕ → ℕ → ℕ → RunRow → RunRow
finish_row now id total r =
    if r.id == id then record r { finished_at = some now; count = some total } else r

unfoldable pub finish_run : ℕ → ℕ → Exec Tables Unit
unfolding pure with_db execute sum_children
finish_run now id =
    if id == 0
    then pure tt
    else with_db
        (execute (λ t. record t { runs = map (finish_row now id (sum_children id t.runs)) t.runs }))

abbrev pub record_row : ℕ → Record → RecordRow
record_row owner r = record { run_id = owner; ts = null_time r.ts; attrs = null_str r.attrs }

abbrev pub record_chunk : ℕ
record_chunk = 200

-- One INSERT of a chunk of records.
unfoldable pub insert_chunk : ℕ → List Record → Exec Tables Unit
unfolding execute
insert_chunk owner chunk =
    execute (λ t. record t { records = t.records ++ map (record_row owner) chunk })

-- The loop of insertRecords over what is left of the records; each turn of it takes one record at
-- least, so as many turns as there are records are enough.
unfoldable pub insert_from : ℕ → ℕ → List Record → Exec Tables Unit
unfolding pure ◌>>=◌ insert_chunk
insert_from fuel owner [] = pure tt
insert_from zero owner (r ∷ records) = pure tt
insert_from (suc fuel) owner (r ∷ records) = do
  insert_chunk owner (take record_chunk (r ∷ records))
  insert_from fuel owner (drop record_chunk (r ∷ records))

unfoldable pub insert_records : ℕ → List Record → Exec Tables Unit
unfolding insert_from
insert_records owner records = insert_from (length records) owner records

abbrev pub run_row : Run → ℕ → RunRow
run_row run id = record {
  id = id;
  parent_id = null_int run.parent_id;
  kind = run.kind;
  name = some run.name;
  started_at = run.started;
  finished_at = some run.finished;
  count = some run.count;
  error = null_str run.error;
  attrs = null_str run.attrs;
}

unfoldable pub add : Run → List Record → Exec Tables ℕ
unfolding ◌>>=◌ with_db transaction statement insert_records pure null_int null_str
add run records = with_db (
    transaction
      (do id ← statement (with_new_run (run_row run)); insert_records id records; pure id))

-- The three statements of Delete.
unfoldable pub delete_rows : ℕ → Exec Tables Unit
unfolding ◌>>=◌ execute
delete_rows id = do
  execute (λ t. record t {
    records = keep (λ rec. owned_by id rec || in_runs (is_child_of id) t.runs rec.run_id) t.records;
  })
  execute (λ t. record t { runs = keep (is_child_of id) t.runs })
  execute (λ t. record t { runs = keep (λ r. r.id == id) t.runs })

unfoldable pub delete : ℕ → Exec Tables Unit
unfolding pure with_db transaction delete_rows
delete id = if id == 0 then pure tt else with_db (transaction (delete_rows id))
