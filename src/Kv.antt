-- ===== src/Kv.antt =====
-- kv/kv.go: the namespaced key/value store. A method is an action on the table `kv`, run through
-- Handle.Do; the SQL text of each statement is read as a function on the list of rows. A time is a
-- natural number, 0 is Go's zero time, and each reading of the clock is an argument `now`.
pub mod Table
pub mod Reads
pub mod Writes
pub mod Stats
use sisyphus.Prelude.{
  ℕ, ◌-◌, ◌≤◌, String, Bool, true, false, not, ◌&&◌, Option, none, some, List, [], ◌∷◌, ◌++◌, map,
  str_eq, ltb, leb, ◌==◌, if◌then◌else◌, length, filter, count, find?, any, min,
}
use sisyphus.Fault.{Error, constraint, Result, ok, err}
use sisyphus.Engine.{
  Db, Exec, ◌>>=◌, ◌>>◌, pure, raise, statement, execute, ignoring, call, query, transaction,
  with_db, on_store,
}

pub record Row : Type 0 where
  pub namespace : String
  pub key : String
  pub value : String
  pub expiry : Option ℕ
  pub updated_at : ℕ

pub record Entry : Type 0 where
  pub value : String
  pub expiry : ℕ
  pub updated : ℕ

abbrev pub Table : Type 0
Table = List Row

-- duckdb.NullTime, and the `.Time` of a scanned sql.NullTime.
unfoldable pub null_time : ℕ → Option ℕ
null_time t = if t == 0 then none else some t

unfoldable pub scan_time : Option ℕ → ℕ
scan_time none = 0
scan_time (some t) = t

unfoldable pub entry : Row → Entry
unfolding scan_time
entry r = record { value = r.value; expiry = scan_time r.expiry; updated = r.updated_at }

-- !expiry.IsZero() && !expiry.After(time.Now())
unfoldable pub expired : ℕ → ℕ → Bool
expired now expiry = not (expiry == 0) && not (ltb now expiry)

-- WHERE namespace = ? AND key = ?
abbrev pub at_key : String → String → Row → Bool
at_key ns k r = str_eq r.namespace ns && str_eq r.key k

abbrev pub in_namespace : String → Row → Bool
in_namespace ns r = str_eq r.namespace ns

-- WHERE expiry IS NOT NULL AND expiry <= ?
unfoldable pub is_stale : ℕ → Row → Bool
is_stale now r = elim r.expiry [ none ↦ false | some t ↦ leb t now ]

abbrev pub delete_where : (Row → Bool) → Table → Table
delete_where p rows = filter (λ r. not (p r)) rows

-- INSERT under PRIMARY KEY (namespace, key)
unfoldable pub insert : Row → Exec Table Unit
unfolding ◌>>=◌ query raise execute
insert r = do
  taken ← query (λ rows. any (at_key r.namespace r.key) rows)
  if taken then raise constraint else execute (λ rows. rows ++ r ∷ [])

-- The closure that Get passes to Do, behind its SELECT.
unfoldable pub get_row : ℕ → String → String → Option Row → Exec Table (Option Entry)
unfolding ◌>>=◌ pure ignoring execute entry expired
get_row now ns k none = pure none
get_row now ns k (some r) =
    if expired now (entry r).expiry
    then ignoring (execute (delete_where (at_key ns k))) >> pure none
    else pure (some (entry r))

unfoldable pub get : ℕ → String → String → Exec Table (Option Entry)
unfolding ◌>>=◌ with_db query get_row
get now ns k = with_db (do found ← query (find? (at_key ns k)); get_row now ns k found)

unfoldable pub put : ℕ → String → String → String → ℕ → Exec Table Unit
unfolding ◌>>=◌ with_db transaction execute insert null_time
put now ns k value expiry = with_db (
    transaction (do
      execute (delete_where (at_key ns k))
      insert (record {
        namespace = ns;
        key = k;
        value = value;
        expiry = null_time expiry;
        updated_at = now;
      })))

unfoldable pub delete : String → String → Exec Table Unit
unfolding with_db execute
delete ns k = with_db (execute (delete_where (at_key ns k)))

-- The rows that a DELETE takes, and how many.
abbrev pub delete_count : (Row → Bool) → Table → ℕ × Table
delete_count p rows = (count p rows, delete_where p rows)

unfoldable pub sweep_on : ℕ → Exec Table ℕ
unfolding statement is_stale
sweep_on now = statement (delete_count (is_stale now))

-- found[key] = e
unfoldable pub assign : String → Entry → List (String × Entry) → List (String × Entry)
assign k e [] = (k, e) ∷ []
assign k e ((j, d) ∷ m) = if str_eq j k then (k, e) ∷ m else (j, d) ∷ assign k e m

-- The loop over the rows of List, in the order that the query returns them.
unfoldable pub collect : List (String × Entry) → List Row → List (String × Entry)
unfolding assign entry
collect found [] = found
collect found (r ∷ rows) = collect (assign r.key (entry r) found) rows

unfoldable pub list : ℕ → String → Exec Table (List (String × Entry))
unfolding ◌>>=◌ with_db sweep_on query call pure collect
list now ns =
    with_db (do sweep_on now; rows ← query (filter (in_namespace ns)); call; pure (collect [] rows))

unfoldable pub sweep : ℕ → Exec Table ℕ
unfolding with_db sweep_on
sweep now = with_db (sweep_on now)

unfoldable pub clear : String → Exec Table ℕ
unfolding with_db statement
clear ns =
    if str_eq ns ""
    then with_db (statement (delete_count (λ r. true)))
    else with_db (statement (delete_count (in_namespace ns)))
