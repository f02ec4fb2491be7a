-- ===== src/ConfigDb/Imports.antt =====
-- What Import and Forget of configdb/configdb.go do to the documents, and that they do all of it or
-- nothing, whichever engine calls fail.
use sisyphus.Prelude.{
  append-nil, ℕ, String, ◌≡◌, refl, sym, ◌∙◌, ap, Option, none, some, List, [], ◌∷◌, ◌++◌, arith,
  find?, inl, inr, ◌⊎◌,
}
use sisyphus.Fault.{Result, ok, err}
use sisyphus.Engine.{Db, Exec, ◌>>=◌, ◌>>◌, continue}
use sisyphus.Engine.Atomic.{
  IsAtomic, IsAtomic-execute, Runs, Runs-execute, Runs-bind, IsAtomic-transaction, IsAtomic-with_db,
}
use sisyphus.Engine.Sequence.{IsAtomic-query_bind}
use sisyphus.ConfigDb.{
  Snapshot, Tables, Lib, hash, named, unnamed, current_on, insert_current, archive, drop_current,
  bump, revision, set_marker, replace_current, import_doc, forget_doc, forget,
}

-- The two tables, without the marker.
abbrev pub documents : Tables → List Snapshot × List Snapshot
documents t = (t.current, t.history)

abbrev pub archived_rows : ℕ → Option Snapshot → List Snapshot
archived_rows now none = []
archived_rows now (some v) = record v { at = now } ∷ []

-- What Import means for the two tables.
abbrev pub replaced : ℕ → Snapshot → Tables → Tables
replaced now v t = record t {
  current = unnamed v.name t.current ++ v ∷ [];
  history = t.history ++ archived_rows now (find? (named v.name) t.current);
}

abbrev pub forgotten : String → Tables → Tables
forgotten n t = record t { current = unnamed n t.current; history = unnamed n t.history }

abbrev inserted : Snapshot → Tables → Tables
inserted v t = record t { current = t.current ++ v ∷ [] }

insert_current-Runs : (v : Snapshot) → Runs (insert_current v) (inserted v)
unfolding insert_current
insert_current-Runs v = record { at = λ s a h. ground arith }

archive-Runs :
    (now : ℕ) (o : Option Snapshot)
    → Runs (archive now o) (λ t. record t { history = t.history ++ archived_rows now o })
unfolding archive
archive-Runs now none = record {
  at = λ s a h. ap (λ rows. record s.table { history = rows }) (sym (append-nil s.table.history));
}
archive-Runs now (some v) = Runs-execute _

drop_current-Runs :
    (n : String) → Runs (drop_current n) (λ t. record t { current = unnamed n t.current })
unfolding drop_current
drop_current-Runs n = Runs-execute _

pub replace_current-IsAtomic :
    (now : ℕ) (v : Snapshot) → IsAtomic (replace_current now v) (replaced now v)
unfolding replace_current current_on
replace_current-IsAtomic now v =
    IsAtomic-query_bind _ _
      (λ o t. record t {
        current = unnamed v.name t.current ++ v ∷ [];
        history = t.history ++ archived_rows now o;
      })
      (λ o. IsAtomic-transaction (
        Runs-bind (archive-Runs now o)
          (λ _. Runs-bind (drop_current-Runs v.name) (λ _. insert_current-Runs v))))

pub forget_doc-IsAtomic : (n : String) → IsAtomic (forget_doc n) (forgotten n)
unfolding forget_doc
forget_doc-IsAtomic n = IsAtomic-transaction (Runs-bind (drop_current-Runs n) (λ _. Runs-execute _))

bump_keeps :
    (lib : Lib) (now : ℕ) (c : String) (s : Db Tables)
    → documents (bump lib now c s).1.table ≡ documents s.table
unfolding bump
bump_keeps lib now c s = elim ((IsAtomic-execute (set_marker (revision lib now c))).settled s) [
  | inl e ↦ ap documents e
  | inr e ↦ ap documents e
]

module _ {A : Type 0} (m : Exec Tables A) (lib : Lib) (now : ℕ) (c : String) where
  after_bump :
      (r : Result A) (s : Db Tables)
      → documents (continue r (λ _. bump lib now c) s).1.table ≡ documents s.table
  after_bump (ok a) s = bump_keeps lib now c s
  after_bump (err e) s = refl

  after_bump-ok :
      (r : Result A) (s : Db Tables)
      → (continue r (λ _. bump lib now c) s).0 ≡ ok tt
      → (a : A) × (r ≡ ok a)
  after_bump-ok (ok a) s h = (a, refl)
  after_bump-ok (err e) s h = cc

  bumped-settled :
      {g : Tables → Tables}
      → IsAtomic m g
      → (s : Db Tables)
      → (documents ((m >> bump lib now c) s).1.table ≡ documents s.table)
        ⊎ (documents ((m >> bump lib now c) s).1.table ≡ documents (g s.table))
  unfolding ◌>>=◌
  bumped-settled k s = elim (k.settled s) [
    | inl e ↦ inl (after_bump (m s).0 (m s).1 ∙ ap documents e)
    | inr e ↦ inr (after_bump (m s).0 (m s).1 ∙ ap documents e)
  ]

  bumped-done :
      {g : Tables → Tables}
      → IsAtomic m g
      → (s : Db Tables) → ((m >> bump lib now c) s).0 ≡ ok tt
      → documents ((m >> bump lib now c) s).1.table ≡ documents (g s.table)
  unfolding ◌>>=◌
  bumped-done k s h =
      let (a, e) = after_bump-ok (m s).0 (m s).1 h in
      after_bump (m s).0 (m s).1 ∙ ap documents (k.done s a e)

abbrev pub imported : Lib → ℕ → String → String → String → Snapshot
imported lib applied n content format = record {
  name = n;
  hash = hash lib format content;
  format = format;
  content = content;
  at = applied;
}

pub import-settled :
    (lib : Lib) (archived applied bumped : ℕ) (n content format : String) (s : Db Tables)
    → let t = (import_doc lib archived applied bumped n content format s).1.table in
      let new = replaced archived (imported lib applied n content format) s.table in
      ((documents t ≡ documents s.table) ⊎ (documents t ≡ documents new))
      × ((import_doc lib archived applied bumped n content format s).0 ≡ ok tt
          → documents t ≡ documents new)
unfolding import_doc
import-settled lib archived applied bumped n content format s =
    let k =
      IsAtomic-with_db
        (replace_current-IsAtomic archived (imported lib applied n content format)) in
    (bumped-settled _ lib _ _ k s, λ h. bumped-done _ lib _ _ k s h)

pub forget-settled :
    (lib : Lib) (bumped : ℕ) (n : String) (s : Db Tables)
    → let t = (forget lib bumped n s).1.table in
      ((documents t ≡ documents s.table) ⊎ (documents t ≡ documents (forgotten n s.table)))
      × ((forget lib bumped n s).0 ≡ ok tt → documents t ≡ documents (forgotten n s.table))
unfolding forget
forget-settled lib bumped n s =
    let k = IsAtomic-with_db (forget_doc-IsAtomic n) in
    (bumped-settled _ lib _ _ k s, λ h. bumped-done _ lib _ _ k s h)

-- Import, whichever calls fail, has changed neither table, or made the content the document's
-- snapshot and archived the one before it, both.
pub import_all_or_nothing :
    (lib : Lib) (archived applied bumped : ℕ) (n content format : String) (s : Db Tables)
    → let t = (import_doc lib archived applied bumped n content format s).1.table in
      (documents t ≡ documents s.table)
      ⊎ (documents t
          ≡ documents (replaced archived (imported lib applied n content format) s.table))
import_all_or_nothing lib archived applied bumped n content format s =
    (import-settled lib archived applied bumped n content format s).0
