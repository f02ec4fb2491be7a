-- ===== src/Stream/KvStore.antt =====
-- kv.Store behind the interface KV of stream/persist.go, at a reading of the clock and with no
-- failing call: the operations of kv/kv.go satisfy what the cursors and dedupers rely on.
use sisyphus.Prelude.{
  member, IsDistinct, ℕ, String, ◌≡◌, refl, ap, sym, subst, ◌∙◌, inl, inr, false, ◌&&◌, ◌||◌,
  Option, none, some, List, [], ◌∷◌, arith, str_eq, eq_iff, if◌then◌else◌, filter, Bool-cases,
}
use sisyphus.Fault.{ok}
use sisyphus.Engine.{Db}
use sisyphus.Kv.{
  Row, Entry, Table, expired, get, put, delete, list, entry, is_stale, delete_where, collect,
  assign, in_namespace,
}
use sisyphus.Kv.Table.{view, IsKeyed, filter-IsKeyed, view-delete_stale}
use sisyphus.Kv.Reads.{get_table, get_keeps_view, list-view, lookup}
use sisyphus.Kv.Writes.{put-view, put-IsKeyed, put_succeeds, delete-IsAtomic, delete-view}
use sisyphus.Stream.Store.{KvOps, KvLaws, names, is_stored, value_of}

unfoldable pub kv_ops : ℕ → KvOps (Db Table)
kv_ops now = record {
  get = λ ns k s. get now ns k s;
  put = λ ns k v t s. put now ns k v t s;
  delete = λ ns k s. delete ns k s;
  list = λ ns s. list now ns s;
}

pub record Working (s : Db Table) : Type 0 where
  pub calm : s.faults ≡ []
  pub keyed : IsKeyed s.table

abbrev pub stored : ℕ → Db Table → String → String → Option String
stored now s ns k = value_of (view now s.table ns k)

pub get_ok :
    (now : ℕ) (ns k : String) (s : Db Table)
    → s.faults ≡ []
    → ((get now ns k s).0 ≡ ok (view now s.table ns k)) × ((get now ns k s).1.faults ≡ [])
unfolding get view
get_ok now ns k s h = ground arith

pub get-IsKeyed :
    (now : ℕ) (ns k : String) (s : Db Table) → IsKeyed s.table → IsKeyed (get now ns k s).1.table
get-IsKeyed now ns k s h = elim (get_table now ns k s) [
  | inl e ↦ rw e h
  | inr (e, gone) ↦ rw e (filter-IsKeyed _ s.table h)
]

pub put_ok :
    (now : ℕ) (ns k v : String) (s : Db Table)
    → s.faults ≡ []
    → ((put now ns k v 0 s).0 ≡ ok tt) × ((put now ns k v 0 s).1.faults ≡ [])
put_ok now ns k v s h =
    subst
      (λ fs.
        ((put now ns k v 0 (record { table = s.table; faults = fs })).0 ≡ ok tt)
        × ((put now ns k v 0 (record { table = s.table; faults = fs })).1.faults ≡ []))
      (sym h) (rw (put_succeeds now ns k v 0 s.table) (refl, refl))

pub put_stored :
    (now : ℕ) (ns k v ms j : String) (s : Db Table)
    → s.faults ≡ []
    → stored now (put now ns k v 0 s).1 ms j
      ≡ (if str_eq ns ms && str_eq k j then some v else stored now s ms j)
unfolding expired
put_stored now ns k v ms j s h =
    rw (put-view now now ns k v 0 s ms j (put_ok now ns k v s h).0) (ground arith)

pub put_any_ok :
    (now : ℕ) (ns k v : String) (t : ℕ) (s : Db Table)
    → s.faults ≡ []
    → (put now ns k v t s).0 ≡ ok tt
put_any_ok now ns k v t s h =
    subst (λ fs. (put now ns k v t (record { table = s.table; faults = fs })).0 ≡ ok tt) (sym h)
      (rw (put_succeeds now ns k v t s.table) refl)

pub put_any_stored :
    (now : ℕ) (ns k v ms j : String) (t : ℕ) (s : Db Table)
    → s.faults ≡ []
    → stored now (put now ns k v t s).1 ms j ≡ (
        if str_eq ns ms && str_eq k j
        then (if expired now t then none else some v)
        else stored now s ms j)
unfolding expired
put_any_stored now ns k v ms j t s h =
    rw (put-view now now ns k v t s ms j (put_any_ok now ns k v t s h)) (ground arith)

pub delete_ok :
    (ns k : String) (s : Db Table)
    → s.faults ≡ []
    → ((delete ns k s).0 ≡ ok tt) × ((delete ns k s).1.faults ≡ [])
unfolding delete
delete_ok ns k s h = ground arith

pub delete-IsKeyed :
    (ns k : String) (s : Db Table) → IsKeyed s.table → IsKeyed (delete ns k s).1.table
delete-IsKeyed ns k s h = elim ((delete-IsAtomic ns k).settled s) [
  | inl e ↦ rw e h
  | inr e ↦ rw e (filter-IsKeyed _ s.table h)
]

pub delete_stored :
    (now : ℕ) (ns k ms j : String) (s : Db Table)
    → s.faults ≡ []
    → stored now (delete ns k s).1 ms j
      ≡ (if str_eq ns ms && str_eq k j then none else stored now s ms j)
delete_stored now ns k ms j s h =
    rw (delete-view now ns k s ms j (delete_ok ns k s h).0) (ground arith)

pub list_ok :
    (now : ℕ) (ns : String) (s : Db Table)
    → s.faults ≡ []
    → ((list now ns s).0
        ≡ ok (collect [] (filter (in_namespace ns) (delete_where (is_stale now) s.table))))
      × ((list now ns s).1.faults ≡ [])
      × ((list now ns s).1.table ≡ delete_where (is_stale now) s.table)
unfolding list
list_ok now ns s h = ground arith

-- A Go map has each key once.
member-assign :
    (k j : String) (e : Entry) (m : List (String × Entry))
    → member j (names (assign k e m)) ≡ (str_eq k j || member j (names m))
unfolding assign
member-assign k j e [] = refl
member-assign k j e ((i, d) ∷ m) =
    ground (arith, member-assign k j e m, eq_iff i k, eq_iff i j, eq_iff k j)

IsDistinct-assign :
    (k : String) (e : Entry) (m : List (String × Entry))
    → IsDistinct (names m)
    → IsDistinct (names (assign k e m))
unfolding assign
IsDistinct-assign k e [] h = (refl, tt)
IsDistinct-assign k e ((i, d) ∷ m) h = elim (Bool-cases (str_eq i k)) [
  | inl q ↦ rw q (subst (λ x. member x (names m) ≡ false) ((eq_iff i k).0 q) h.0, h.1)
  | inr q ↦
      rw q
        (ground (arith, member-assign k i e m, eq_iff i k, eq_iff k i), IsDistinct-assign k e m h.1)
]

pub IsDistinct-collect :
    (m : List (String × Entry)) (rows : List Row)
    → IsDistinct (names m)
    → IsDistinct (names (collect m rows))
unfolding collect
IsDistinct-collect m [] h = h
IsDistinct-collect m (r ∷ rows) h =
    IsDistinct-collect (assign r.key (entry r) m) rows (IsDistinct-assign r.key (entry r) m h)

pub member-lookup :
    (k : String) (m : List (String × Entry))
    → member k (names m) ≡ is_stored (value_of (lookup k m))
unfolding lookup
member-lookup k [] = refl
member-lookup k ((j, e) ∷ m) = ground (arith, member-lookup k m)

-- A kv.Store is a KV: with no failing call and a table that keeps its primary key, each operation
-- succeeds, keeps both, and does to the stored values what its documentation says.
unfoldable pub kv_laws : (now : ℕ) → KvLaws (kv_ops now)
unfolding kv_ops
kv_laws now = record {
  IsUp = Working;
  value = stored now;
  has_passed = expired now;
  get_lem = λ ns k s up. (view now s.table ns k, (get_ok now ns k s up.calm).0, refl);
  get-IsUp = λ ns k s up. record {
    calm = (get_ok now ns k s up.calm).1;
    keyed = get-IsKeyed now ns k s up.keyed;
  };
  get-value = λ ns k ms j s up. ap value_of (get_keeps_view now now ns k ms j s (omega arith));
  put_lem = λ ns k v s up. (put_ok now ns k v s up.calm).0;
  put-IsUp = λ ns k v s up. record {
    calm = (put_ok now ns k v s up.calm).1;
    keyed = put-IsKeyed now ns k v 0 s up.keyed;
  };
  put-value = λ ns k v ms j s up. put_stored now ns k v ms j s up.calm;
  put_until = λ ns k v ms j t s up. put_any_stored now ns k v ms j t s up.calm;
  delete_lem = λ ns k s up. (delete_ok ns k s up.calm).0;
  delete-IsUp = λ ns k s up. record {
    calm = (delete_ok ns k s up.calm).1;
    keyed = delete-IsKeyed ns k s up.keyed;
  };
  delete-value = λ ns k ms j s up. delete_stored now ns k ms j s up.calm;
  list_lem = λ ns s up.
      let m = collect [] (filter (in_namespace ns) (delete_where (is_stale now) s.table)) in
      let listed = (list_ok now ns s up.calm).0 in
      (
        m,
        listed,
        IsDistinct-collect [] _ tt,
        λ k.
            member-lookup k m
            ∙ ap (λ o. is_stored (value_of o)) (list-view now ns k s m up.keyed listed),
      );
  list-IsUp = λ ns s up. record {
    calm = (list_ok now ns s up.calm).1;
    keyed = rw ((list_ok now ns s up.calm).2) (filter-IsKeyed _ s.table up.keyed);
  };
  list-value = λ ns ms j s up.
      rw ((list_ok now ns s up.calm).2)
        (ap value_of (view-delete_stale now now s.table ms j (omega arith) up.keyed));
}
