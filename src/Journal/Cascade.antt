-- ===== src/Journal/Cascade.antt =====
-- Add and Delete of journal/journal.go: what they do to both tables, all or nothing, and that every
-- record has its run.
use sisyphus.Prelude.{
  append-nil, append_assoc, ℕ, zero, suc, ◌-◌, ◌≤◌, ◌≡◌, refl, sym, ap, ◌∙◌, Bool, false, ◌||◌,
  List, [], ◌∷◌, ◌++◌, arith, ◌==◌, length, map, take, drop,
}
use sisyphus.Engine.Atomic.{
  IsAtomic, Runs, IsAtomic-transaction, IsAtomic-with_db, Runs-bind, Runs-pure, Runs-execute,
}
use sisyphus.Engine.Sequence.{Runs-statement_bind}
use sisyphus.Journal.{
  RunRow, Tables, Run, Record, is_child_of, owned_by, in_runs, keep, with_new_run, record_row,
  record_chunk, insert_chunk, insert_from, insert_records, run_row, add, delete_rows, delete,
}

abbrev pub with_records : ℕ → List Record → Tables → Tables
with_records owner records t = record t { records = t.records ++ map (record_row owner) records }

module _ {A : Type 0} where
  length-drop : (n : ℕ) (xs : List A) → length (drop n xs) ≤ length xs - n
  length-drop zero xs = omega arith
  length-drop (suc n) [] = omega arith
  length-drop (suc n) (x ∷ xs) = omega (arith, length-drop n xs)

map-take-drop :
    (owner n : ℕ) (xs : List Record)
    → map (record_row owner) (take n xs) ++ map (record_row owner) (drop n xs)
      ≡ map (record_row owner) xs
map-take-drop owner zero xs = refl
map-take-drop owner (suc n) [] = refl
map-take-drop owner (suc n) (x ∷ xs) = ap (λ l. record_row owner x ∷ l) (map-take-drop owner n xs)

with_chunks :
    (owner : ℕ) (xs : List Record) (t : Tables)
    → with_records owner (drop record_chunk xs) (with_records owner (take record_chunk xs) t)
      ≡ with_records owner xs t
with_chunks owner xs t =
    ap (λ rows. record t { records = rows })
      (append_assoc t.records (map (record_row owner) (take record_chunk xs))
          (map (record_row owner) (drop record_chunk xs))
        ∙ ap (λ l. t.records ++ l) (map-take-drop owner record_chunk xs))

insert_from-Runs :
    (fuel owner : ℕ) (xs : List Record)
    → length xs ≤ fuel
    → Runs (insert_from fuel owner xs) (with_records owner xs)
unfolding insert_from insert_chunk
insert_from-Runs fuel owner [] h = record {
  at = λ s a e. ap (λ rows. record s.table { records = rows }) (sym (append-nil _));
}
insert_from-Runs zero owner (x ∷ xs) h = record { at = λ s a e. ground arith }
insert_from-Runs (suc fuel) owner (x ∷ xs) h =
    let k = Runs-bind (Runs-execute (with_records owner (take record_chunk (x ∷ xs)))) (λ u.
      insert_from-Runs fuel owner (drop record_chunk (x ∷ xs))
        (omega (arith, length-drop 199 xs, h))) in
    record { at = λ s a e. k.at s a e ∙ with_chunks owner (x ∷ xs) s.table }

-- What Add means for the tables.
abbrev pub added : Run → List Record → Tables → Tables
added run records t = with_records t.next_run records (with_new_run (run_row run) t).1

-- Add, whichever calls fail, has added the run and every one of its records in order, however many
-- chunks they take, or nothing.
pub add-IsAtomic :
    (run : Run) (records : List Record) → IsAtomic (add run records) (added run records)
unfolding add insert_records
add-IsAtomic run records = IsAtomic-with_db (
    IsAtomic-transaction (
      Runs-statement_bind (with_new_run (run_row run)) _ (λ id. with_records id records)
        (λ id.
          Runs-bind (insert_from-Runs (length records) id records (omega arith))
            (λ u. Runs-pure id))))

-- What Delete means for the tables: the run, its children, and the records of all of these go.
abbrev pub gone : ℕ → RunRow → Bool
gone id r = is_child_of id r || r.id == id

abbrev pub deleted : ℕ → Tables → Tables
deleted id t = record t {
  runs = keep (gone id) t.runs;
  records = keep (λ rec. owned_by id rec || in_runs (is_child_of id) t.runs rec.run_id) t.records;
}

pub keep-keep :
    {A : Type 0} (p q : A → Bool) (xs : List A) → keep q (keep p xs) ≡ keep (λ x. p x || q x) xs
keep-keep p q [] = refl
keep-keep p q (x ∷ xs) = ground (arith, keep-keep p q xs)

delete_rows-Runs : (id : ℕ) → Runs (delete_rows id) (deleted id)
unfolding delete_rows
delete_rows-Runs id =
    let k =
      Runs-bind
        (Runs-execute (λ t. record t {
          records =
              keep (λ rec. owned_by id rec || in_runs (is_child_of id) t.runs rec.run_id) t.records;
        }))
        (λ u.
          Runs-bind (Runs-execute (λ t. record t { runs = keep (is_child_of id) t.runs }))
            (λ u. Runs-execute (λ t. record t { runs = keep (λ r. r.id == id) t.runs }))) in
    record {
      at = λ s a e.
          k.at s a e
          ∙ ap (λ rows. record (deleted id s.table) { runs = rows })
              (keep-keep (is_child_of id) (λ r. r.id == id) s.table.runs);
    }

eq_zero : (id : ℕ) → 1 ≤ id → (id == 0) ≡ false
eq_zero id h = ground arith

-- Delete of an id that is not 0, whichever calls fail, has removed the run, its children and the
-- records of all of these, and nothing else; or nothing.
pub delete-IsAtomic : (id : ℕ) → 1 ≤ id → IsAtomic (delete id) (deleted id)
unfolding delete
delete-IsAtomic id h =
    rw (eq_zero id h) (IsAtomic-with_db (IsAtomic-transaction (delete_rows-Runs id)))
