-- ===== src/Kv/Reads.antt =====
-- Get and List of kv/kv.go against the view of a key.
use sisyphus.Prelude.{
  ℕ, ◌≤◌, String, ◌≡◌, refl, sym, ◌∙◌, ◌⊎◌, inl, inr, Option, none, some, List, [], ◌∷◌, arith,
  str_eq, eq_iff, if◌then◌else◌, filter, find?, Bool-cases,
}
use sisyphus.Fault.{ok}
use sisyphus.Engine.{Db}
use sisyphus.Kv.{
  Row, Entry, Table, entry, expired, at_key, in_namespace, delete_where, is_stale, assign, collect,
  get, list,
}
use sisyphus.Kv.Table.{
  view, IsKeyed, find?-delete_key, view-delete_stale, visible_later, filter-IsKeyed, find?-none,
  or_else,
}

-- Where Get succeeds, whatever other calls fail, it returns the entry that the key has now.
pub get-view :
    (now : ℕ) (ns k : String) (s : Db Table) (v : Option Entry)
    → (get now ns k s).0 ≡ ok v
    → v ≡ view now s.table ns k
unfolding get view
get-view now ns k s v h = ground arith

-- A Get, also one that fails, leaves the table or deletes a row of this key that has expired.
pub get_table :
    (now : ℕ) (ns k : String) (s : Db Table)
    → ((get now ns k s).1.table ≡ s.table)
      ⊎ (((get now ns k s).1.table ≡ delete_where (at_key ns k) s.table)
          × (view now s.table ns k ≡ none))
unfolding get view
get_table now ns k s = ground arith

view_of_deleted :
    (now later : ℕ) (ns k ms j : String) (rows : Table)
    → now ≤ later
    → view now rows ns k ≡ none
    → view later (delete_where (at_key ns k) rows) ms j ≡ view later rows ms j
unfolding view
view_of_deleted now later ns k ms j rows h e = ground (
  arith,
  find?-delete_key ns k ms j rows,
  eq_iff ns ms,
  eq_iff k j,
  visible_later now later (find? (at_key ns k) rows) h e,
)

-- A Get, whatever its result, changes what no key has, now or later.
pub get_keeps_view :
    (now later : ℕ) (ns k ms j : String) (s : Db Table)
    → now ≤ later
    → view later (get now ns k s).1.table ms j ≡ view later s.table ms j
get_keeps_view now later ns k ms j s h = elim (get_table now ns k s) [
  | inl e ↦ rw e
  | inr (e, gone) ↦ rw e (view_of_deleted now later ns k ms j s.table h gone)
]

-- What a Go map holds under a key.
unfoldable pub lookup : String → List (String × Entry) → Option Entry
lookup k [] = none
lookup k ((j, e) ∷ m) = if str_eq j k then some e else lookup k m

pub lookup-assign :
    (k j : String) (e : Entry) (m : List (String × Entry))
    → lookup j (assign k e m) ≡ (if str_eq k j then some e else lookup j m)
unfolding lookup assign
lookup-assign k j e [] = ground arith
lookup-assign k j e ((i, d) ∷ m) =
    ground (arith, eq_iff i k, eq_iff i j, eq_iff k j, lookup-assign k j e m)

abbrev entry_of : Option Row → Option Entry
entry_of none = none
entry_of (some r) = some (entry r)

lookup-collect :
    (ns k : String) (found : List (String × Entry)) (rows : Table)
    → IsKeyed rows
    → lookup k (collect found (filter (in_namespace ns) rows))
      ≡ or_else (entry_of (find? (at_key ns k) rows)) (lookup k found)
unfolding collect
lookup-collect ns k found [] h = refl
lookup-collect ns k found (r ∷ rows) h = elim (Bool-cases (in_namespace ns r)) [
  | inl e ↦ rw e (
      ground (
        arith,
        lookup-collect ns k (assign r.key (entry r) found) rows h.2,
        lookup-assign r.key k (entry r) found,
        eq_iff r.namespace ns,
        eq_iff r.key k,
        find?-none (at_key ns k) rows,
      ))
  | inr e ↦ rw e (ground (arith, lookup-collect ns k found rows h.2))
]

pub list_result :
    (now : ℕ) (ns : String) (s : Db Table) (m : List (String × Entry))
    → (list now ns s).0 ≡ ok m
    → (m ≡ collect [] (filter (in_namespace ns) (delete_where (is_stale now) s.table)))
      × ((list now ns s).1.table ≡ delete_where (is_stale now) s.table)
unfolding list
list_result now ns s m h = ground arith

no_stale :
    (now : ℕ) (ns k : String) (rows : Table)
    → view now (delete_where (is_stale now) rows) ns k
      ≡ entry_of (find? (at_key ns k) (delete_where (is_stale now) rows))
unfolding view is_stale expired entry
no_stale now ns k [] = refl
no_stale now ns k (r ∷ rows) = elim (Bool-cases (is_stale now r)) [
  | inl e ↦ rw e (no_stale now ns k rows)
  | inr e ↦ rw e (ground (arith, no_stale now ns k rows))
]

-- List returns, under each key, the entry that the key has now: it and Get agree.
pub list-view :
    (now : ℕ) (ns k : String) (s : Db Table) (m : List (String × Entry))
    → IsKeyed s.table
    → (list now ns s).0 ≡ ok m
    → lookup k m ≡ view now s.table ns k
list-view now ns k s m keyed h =
    let (e, t) = list_result now ns s m h in
    let swept = delete_where (is_stale now) s.table in
    rw e (
      lookup-collect ns k [] swept (filter-IsKeyed _ s.table keyed)
      ∙ absent (find? (at_key ns k) swept)
      ∙ sym (no_stale now ns k s.table)
      ∙ view-delete_stale now now s.table ns k (omega arith) keyed)
  where
    absent : (o : Option Row) → or_else (entry_of o) (lookup k []) ≡ entry_of o
    absent none = unfold lookup in refl
    absent (some r) = refl
