-- ===== src/Kv/Table.antt =====
-- What the rows of kv/kv.go mean: the entry that a key has at a time, what the statements of the
-- file do to it, and the primary key.
use sisyphus.Prelude.{
  subst, ℕ, ◌≤◌, String, ◌≡◌, refl, Bool, true, false, not, ◌&&◌, Option, none, some, [], ◌∷◌, ◌++◌,
  arith, str_eq, eq_iff, if◌then◌else◌, filter, find?, any, inl, inr, Bool-cases, ◌==◌,
}
use sisyphus.Kv.{Row, Entry, Table, entry, expired, at_key, in_namespace, delete_where, is_stale}

-- What a client may see of a row: nothing once it has expired.
abbrev pub visible : ℕ → Option Row → Option Entry
visible now none = none
visible now (some r) = if expired now (entry r).expiry then none else some (entry r)

unfoldable pub view : ℕ → Table → String → String → Option Entry
view now rows ns k = visible now (find? (at_key ns k) rows)

abbrev pub same_key : String → String → String → String → Bool
same_key ns k ms j = str_eq ns ms && str_eq k j

-- What has expired stays expired.
pub visible_later :
    (now later : ℕ) (o : Option Row) → now ≤ later → visible now o ≡ none → visible later o ≡ none
unfolding expired
visible_later now later o h e = ground arith

pub find?-delete_key :
    (ns k ms j : String) (rows : Table)
    → find? (at_key ms j) (delete_where (at_key ns k) rows)
      ≡ (if same_key ns k ms j then none else find? (at_key ms j) rows)
find?-delete_key ns k ms j [] = ground arith
find?-delete_key ns k ms j (r ∷ rows) = ground (
  arith,
  find?-delete_key ns k ms j rows,
  eq_iff r.namespace ns,
  eq_iff r.namespace ms,
  eq_iff ns ms,
  eq_iff r.key k,
  eq_iff r.key j,
  eq_iff k j,
)

pub find?-delete_namespace :
    (ns ms j : String) (rows : Table)
    → find? (at_key ms j) (delete_where (in_namespace ns) rows)
      ≡ (if str_eq ns ms then none else find? (at_key ms j) rows)
find?-delete_namespace ns ms j [] = ground arith
find?-delete_namespace ns ms j (r ∷ rows) = ground (
  arith,
  find?-delete_namespace ns ms j rows,
  eq_iff r.namespace ns,
  eq_iff r.namespace ms,
  eq_iff ns ms,
)

-- The first of two options that is there.
abbrev pub or_else {ℓ} : {A : Type ℓ} → Option A → Option A → Option A
or_else (some a) o = some a
or_else none o = o

pub find?-append :
    (p : Row → Bool) (xs ys : Table) → find? p (xs ++ ys) ≡ or_else (find? p xs) (find? p ys)
find?-append p [] ys = refl
find?-append p (x ∷ xs) ys = ground (arith, find?-append p xs ys)

-- A row taken from a table by a key has that key.
pub find?-key :
    (ns k : String) (rows : Table) (r : Row)
    → find? (at_key ns k) rows ≡ some r
    → at_key ns k r ≡ true
find?-key ns k [] r h = cc
find?-key ns k (x ∷ rows) r h = ground (arith, find?-key ns k rows r)

-- A stored expiry is never the zero time, which is written as NULL.
abbrev pub is_timed : Row → Bool
is_timed r = elim r.expiry [ none ↦ true | some t ↦ not (t == 0) ]

-- The primary key, no two rows with one namespace and key, and the expiries.
abbrev pub IsKeyed : Table → Type 0
IsKeyed [] = Unit {0}
IsKeyed (r ∷ rows) =
    (any (at_key r.namespace r.key) rows ≡ false) × (is_timed r ≡ true) × IsKeyed rows

pub any-filter :
    (p q : Row → Bool) (rows : Table) → any p rows ≡ false → any p (filter q rows) ≡ false
any-filter p q [] h = refl
any-filter p q (r ∷ rows) h = ground (arith, any-filter p q rows)

pub filter-IsKeyed : (q : Row → Bool) (rows : Table) → IsKeyed rows → IsKeyed (filter q rows)
filter-IsKeyed q [] h = tt
filter-IsKeyed q (r ∷ rows) h =
    ground (arith, filter-IsKeyed q rows h.2, any-filter (at_key r.namespace r.key) q rows h.0)

pub any-append :
    (p : Row → Bool) (xs ys : Table)
    → any p xs ≡ false
    → any p ys ≡ false
    → any p (xs ++ ys) ≡ false
any-append p [] ys h g = g
any-append p (x ∷ xs) ys h g = ground (arith, any-append p xs ys)

pub any_delete_key :
    (ns k : String) (rows : Table) → any (at_key ns k) (delete_where (at_key ns k) rows) ≡ false
any_delete_key ns k [] = refl
any_delete_key ns k (r ∷ rows) = ground (arith, any_delete_key ns k rows)

pub append-IsKeyed :
    (rows : Table) (r : Row)
    → IsKeyed rows
    → any (at_key r.namespace r.key) rows ≡ false
    → is_timed r ≡ true
    → IsKeyed (rows ++ r ∷ [])
append-IsKeyed [] r h g t = (refl, t, tt)
append-IsKeyed (x ∷ rows) r h g t = (
  any-append (at_key x.namespace x.key) rows (r ∷ []) h.0 (
      ground (
        arith,
        eq_iff x.namespace r.namespace,
        eq_iff r.namespace x.namespace,
        eq_iff x.key r.key,
        eq_iff r.key x.key,
      )),
  h.1,
  append-IsKeyed rows r h.2 (ground arith) t,
)

pub find?-none : (p : Row → Bool) (rows : Table) → any p rows ≡ false → find? p rows ≡ none
find?-none p [] h = refl
find?-none p (r ∷ rows) h = ground (arith, find?-none p rows)

-- Rows that agree on their key answer the same lookups.
pub at_key_trans :
    (ns k : String) (r : Row) (rows : Table)
    → at_key ns k r ≡ true
    → any (at_key r.namespace r.key) rows ≡ false
    → any (at_key ns k) rows ≡ false
at_key_trans ns k r rows e h =
    let p : r.namespace ≡ ns = ground (arith, eq_iff r.namespace ns) in
    let q : r.key ≡ k = ground (arith, eq_iff r.key k) in
    subst (λ x. any (at_key x k) rows ≡ false) p
      (subst (λ y. any (at_key r.namespace y) rows ≡ false) q h)

is_stale-expired :
    (now : ℕ) (r : Row) → is_timed r ≡ true → is_stale now r ≡ expired now (entry r).expiry
unfolding expired is_stale entry
is_stale-expired now r h = ground arith

expired_later : (now later t : ℕ) → now ≤ later → expired now t ≡ true → expired later t ≡ true
unfolding expired
expired_later now later t h e = ground arith

-- Under the primary key, a DELETE of what has expired takes from no view, then or later.
pub view-delete_stale :
    (now later : ℕ) (rows : Table) (ns k : String)
    → now ≤ later
    → IsKeyed rows
    → view later (delete_where (is_stale now) rows) ns k ≡ view later rows ns k
unfolding view
view-delete_stale now later [] ns k l h = refl
view-delete_stale now later (r ∷ rows) ns k l h = elim (Bool-cases (is_stale now r)) [
  | inl e ↦ rw e (
      ground (
        arith,
        is_stale-expired now r,
        expired_later now later (entry r).expiry,
        view-delete_stale now later rows ns k l h.2,
        find?-none (at_key ns k) rows,
        at_key_trans ns k r rows,
      ))
  | inr e ↦
      rw e (ground (arith, is_stale-expired now r, view-delete_stale now later rows ns k l h.2))
]
