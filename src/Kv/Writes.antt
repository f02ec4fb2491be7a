-- ===== src/Kv/Writes.antt =====
-- Put, Delete, Clear and Sweep of kv/kv.go: what they do to the view, and all or nothing.
use sisyphus.Prelude.{
  ℕ, ◌≤◌, String, ◌≡◌, refl, inl, inr, Bool, true, false, Option, none, some, [], ◌∷◌, ◌++◌, arith,
  str_eq, eq_iff, if◌then◌else◌, any, count, length, ◌||◌, ◌+◌,
}
use sisyphus.Fault.{ok}
use sisyphus.Engine.{Db}
use sisyphus.Engine.Atomic.{
  IsAtomic, Runs, IsAtomic-statement, IsAtomic-execute, Runs-execute, Runs-bind,
  IsAtomic-transaction, IsAtomic-with_db,
}
use sisyphus.Kv.{
  Row, Entry, Table, entry, expired, at_key, in_namespace, delete_where, is_stale, null_time,
  insert, put, delete, sweep_on, sweep, clear, delete_count,
}
use sisyphus.Kv.Table.{
  view, same_key, IsKeyed, find?-delete_key, find?-append, any_delete_key, append-IsKeyed,
  view-delete_stale, filter-IsKeyed, is_timed, find?-delete_namespace,
}

abbrev pub row : ℕ → String → String → String → ℕ → Row
row now ns k v expiry = record {
  namespace = ns;
  key = k;
  value = v;
  expiry = null_time expiry;
  updated_at = now;
}

-- What Put means for the table.
abbrev pub upsert : ℕ → String → String → String → ℕ → Table → Table
upsert now ns k v expiry rows = delete_where (at_key ns k) rows ++ row now ns k v expiry ∷ []

insert-Runs : (r : Row) → Runs (insert r) (λ rows. rows ++ r ∷ [])
unfolding insert
insert-Runs r = record { at = λ s a h. ground arith }

-- Put, whichever calls fail, has replaced the row of its key by the new one, or changed nothing;
-- and it has replaced it where it returns no error.
pub put-IsAtomic :
    (now : ℕ) (ns k v : String) (expiry : ℕ)
    → IsAtomic (put now ns k v expiry) (upsert now ns k v expiry)
unfolding put
put-IsAtomic now ns k v expiry = IsAtomic-with_db (
    IsAtomic-transaction (
      Runs-bind (Runs-execute (delete_where (at_key ns k)))
        (λ _. insert-Runs (row now ns k v expiry))))

-- The DELETE before the INSERT keeps the primary key: with no failing call Put succeeds.
pub put_succeeds :
    (now : ℕ) (ns k v : String) (expiry : ℕ) (rows : Table)
    → put now ns k v expiry (record { table = rows; faults = [] })
      ≡ (ok tt, record { table = upsert now ns k v expiry rows; faults = [] })
unfolding put
put_succeeds now ns k v expiry rows = ground (arith, any_delete_key ns k rows)

abbrev written : ℕ → ℕ → String → ℕ → Option Entry
written later now v expiry =
    if expired later expiry
    then none
    else some (record { value = v; expiry = expiry; updated = now })

view-upsert :
    (now later : ℕ) (ns k v : String) (expiry : ℕ) (rows : Table) (ms j : String)
    → view later (upsert now ns k v expiry rows) ms j
      ≡ (if same_key ns k ms j then written later now v expiry else view later rows ms j)
unfolding view entry null_time
view-upsert now later ns k v expiry rows ms j =
    rw (find?-append (at_key ms j) (delete_where (at_key ns k) rows) (row now ns k v expiry ∷ []))
      (ground (arith, find?-delete_key ns k ms j rows, eq_iff ns ms, eq_iff k j))

-- After a Put that returned no error, its key has the value until its expiry, for ever where that
-- is the zero time, and every other key has what it had.
pub put-view :
    (now later : ℕ) (ns k v : String) (expiry : ℕ) (s : Db Table) (ms j : String)
    → (put now ns k v expiry s).0 ≡ ok tt
    → view later (put now ns k v expiry s).1.table ms j
      ≡ (if same_key ns k ms j then written later now v expiry else view later s.table ms j)
put-view now later ns k v expiry s ms j h =
    rw ((put-IsAtomic now ns k v expiry).done s tt h)
      (view-upsert now later ns k v expiry s.table ms j)

-- Delete removes its key and no other, or changes nothing.
pub delete-IsAtomic : (ns k : String) → IsAtomic (delete ns k) (delete_where (at_key ns k))
unfolding delete
delete-IsAtomic ns k = IsAtomic-with_db (IsAtomic-execute (delete_where (at_key ns k)))

-- After a Delete that returned no error, its key has no entry and every other key has what it had.
pub delete-view :
    (now : ℕ) (ns k : String) (s : Db Table) (ms j : String)
    → (delete ns k s).0 ≡ ok tt
    → view now (delete ns k s).1.table ms j
      ≡ (if same_key ns k ms j then none else view now s.table ms j)
unfolding view
delete-view now ns k s ms j h =
    rw ((delete-IsAtomic ns k).done s tt h)
      (ground (arith, find?-delete_key ns k ms j s.table, eq_iff ns ms, eq_iff k j))

pub sweep_on-IsAtomic : (now : ℕ) → IsAtomic (sweep_on now) (delete_where (is_stale now))
unfolding sweep_on
sweep_on-IsAtomic now = IsAtomic-statement (delete_count (is_stale now))

pub sweep-IsAtomic : (now : ℕ) → IsAtomic (sweep now) (delete_where (is_stale now))
unfolding sweep
sweep-IsAtomic now = IsAtomic-with_db (sweep_on-IsAtomic now)

-- A Sweep, also one that fails, changes what no key has, now or later.
pub sweep_keeps_view :
    (now later : ℕ) (s : Db Table) (ns k : String)
    → now ≤ later
    → IsKeyed s.table
    → view later (sweep now s).1.table ns k ≡ view later s.table ns k
sweep_keeps_view now later s ns k l h = elim ((sweep-IsAtomic now).settled s) [
  | inl e ↦ rw e
  | inr e ↦ rw e (view-delete_stale now later s.table ns k l h)
]

length-delete_where :
    (p : Row → Bool) (rows : Table) → length (delete_where p rows) + count p rows ≡ length rows
length-delete_where p [] = omega arith
length-delete_where p (r ∷ rows) = ground (arith, length-delete_where p rows)

no_stale_left :
    (now : ℕ) (rows : Table) → any (is_stale now) (delete_where (is_stale now) rows) ≡ false
no_stale_left now [] = refl
no_stale_left now (r ∷ rows) = ground (arith, no_stale_left now rows)

sweep_result :
    (now : ℕ) (s : Db Table) (n : ℕ)
    → (sweep now s).0 ≡ ok n
    → (n ≡ count (is_stale now) s.table)
      × ((sweep now s).1.table ≡ delete_where (is_stale now) s.table)
unfolding sweep
sweep_result now s n h = ground arith

-- A Sweep that returns n has removed n rows, and has left none that has expired.
pub sweep_counts :
    (now : ℕ) (s : Db Table) (n : ℕ)
    → (sweep now s).0 ≡ ok n
    → (length (sweep now s).1.table + n ≡ length s.table)
      × (any (is_stale now) (sweep now s).1.table ≡ false)
sweep_counts now s n h =
    let (e, t) = sweep_result now s n h in
    rw (t, e) (length-delete_where (is_stale now) s.table, no_stale_left now s.table)

delete_all : (rows : Table) → delete_where (λ r. true) rows ≡ []
delete_all [] = refl
delete_all (r ∷ rows) = delete_all rows

clear_result :
    (ns : String) (s : Db Table) (n : ℕ)
    → (clear ns s).0 ≡ ok n
    → (clear ns s).1.table ≡ (
        if str_eq ns ""
        then delete_where (λ r. true) s.table
        else delete_where (in_namespace ns) s.table)
unfolding clear
clear_result ns s n h = ground arith

-- After a Clear that returned no error, its namespace is empty and every other one is as it was;
-- but a Clear of the empty namespace leaves no entry in any.
pub clear-view :
    (now : ℕ) (ns : String) (s : Db Table) (n : ℕ) (ms j : String)
    → (clear ns s).0 ≡ ok n
    → view now (clear ns s).1.table ms j
      ≡ (if str_eq ns "" || str_eq ns ms then none else view now s.table ms j)
unfolding view
clear-view now ns s n ms j h =
    rw (clear_result ns s n h)
      (ground (arith, delete_all s.table, find?-delete_namespace ns ms j s.table))

-- Whatever calls fail, every operation that writes keeps the primary key.
pub put-IsKeyed :
    (now : ℕ) (ns k v : String) (expiry : ℕ) (s : Db Table)
    → IsKeyed s.table
    → IsKeyed (put now ns k v expiry s).1.table
put-IsKeyed now ns k v expiry s h = elim ((put-IsAtomic now ns k v expiry).settled s) [
  | inl e ↦ rw e h
  | inr e ↦ rw e (
      append-IsKeyed (delete_where (at_key ns k) s.table) (row now ns k v expiry)
        (filter-IsKeyed _ s.table h) (any_delete_key ns k s.table) (timed expiry))
]
  where
    timed : (t : ℕ) → is_timed (row now ns k v t) ≡ true
    timed t = unfold null_time in ground arith
