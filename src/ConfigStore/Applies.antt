-- ===== src/ConfigStore/Applies.antt =====
-- What Apply of manager.go leaves for Plan and Effective.
use sisyphus.Prelude.{
  String, ◌≡◌, refl, sym, ◌∙◌, ap, true, false, not, Option, some, List, [], ◌∷◌, arith, str_eq,
  eq_refl, if◌then◌else◌, map,
}
use sisyphus.Fault.{Result, ok, err}
use sisyphus.Engine.{Db}
use sisyphus.ConfigDb.{Snapshot, Tables, Lib, hash, import_doc as db_import, current as db_current}
use sisyphus.ConfigDb.Imports.{imported}
use sisyphus.ConfigDb.Documents.{snapshot_of, import-view}
use sisyphus.ConfigStore.{
  Store, Item, Reconciliation, Clock, Backend, both, files, db, action_import, has_file,
  reconciliation, current, returning, import_doc, plan, apply, effective, effective_of,
  effective_on, db_content_or,
}
use sisyphus.ConfigStore.Plans.{
  plan-drifted, reconciled, current_answers, same_hash, file_hash, db_hash,
}

-- What a database's tables are after an import that Apply reports as done.
apply_import-db :
    (lib : Lib) (c : Clock) (rec : Reconciliation) (s : Db Tables) (r : String × String)
    → (apply lib c rec action_import (some s)).0 ≡ ok r
    → let run =
        db_import lib c.archived c.applied c.bumped rec.name rec.file_content rec.file_format s in
      (run.0 ≡ ok tt)
      × (r ≡ (rec.file_content, rec.file_format))
      × ((apply lib c rec action_import (some s)).1 ≡ some run.1)
unfolding apply import_doc
apply_import-db lib c rec s r h =
    go (db_import lib c.archived c.applied c.bumped rec.name rec.file_content rec.file_format s).0
      (db_import lib c.archived c.applied c.bumped rec.name rec.file_content rec.file_format s).1 h
  where
    go :
        (q : Result (Unit {0})) (t : Db Tables)
        → (returning {A = String × String} (rec.file_content, rec.file_format) (q, some t)).0 ≡ ok r
        → (q ≡ ok tt)
          × (r ≡ (rec.file_content, rec.file_format))
          × ((returning {A = String × String} (rec.file_content, rec.file_format) (q, some t)).1
              ≡ some t)
    go (ok u) t e = (refl, cc, refl)
    go (err x) t e = let q : true ≡ false = cc in cc

apply_import-snapshot :
    (lib : Lib) (c : Clock) (rec : Reconciliation) (s s' : Db Tables) (r : String × String)
    → apply lib c rec action_import (some s) ≡ (ok r, some s')
    → (snapshot_of rec.name s'.table
        ≡ some (imported lib c.applied rec.name rec.file_content rec.file_format))
      × (r ≡ (rec.file_content, rec.file_format))
apply_import-snapshot lib c rec s s' r h =
    let run : Db Tables =
      (db_import lib c.archived c.applied c.bumped rec.name rec.file_content rec.file_format s).1 in
    let (done, answer, e) = apply_import-db lib c rec s r (ap (λ p. p.0) h) in
    let q : run ≡ s' = some_injective run s' (sym e ∙ ap (λ p. p.1) h) in
    (
      ap (λ d. snapshot_of rec.name d.table) (sym q)
          ∙ (import-view lib c.archived c.applied c.bumped rec.name rec.file_content rec.file_format
              s rec.name done).0
          ∙ own_name rec.name (snapshot_of rec.name s.table) _,
      answer,
    )
  where
    some_injective : (x y : Db Tables) → some x ≡ some y → x ≡ y
    some_injective x y e = cc

    own_name : (n : String) (o p : Option Snapshot) → (if str_eq n n then p else o) ≡ p
    own_name n o p = rw (eq_refl n) refl

-- After an Apply that imported an item's file, a Plan of the item that returns no error lists
-- nothing: the file and the snapshot no longer differ.
pub plan-apply_import :
    (lib : Lib) (c : Clock) (it : Item) (v : Snapshot) (s s' : Db Tables) (r : String × String)
    (recs : List Reconciliation)
    → has_file it ≡ true
    → apply lib c (reconciliation it v) action_import (some s) ≡ (ok r, some s')
    → (plan lib both (it ∷ []) (some s')).0 ≡ ok recs
    → recs ≡ []
plan-apply_import lib c it v s s' r recs f h k =
    let (e, d) = apply_import-snapshot lib c (reconciliation it v) s s' r h in
    plan-drifted lib (it ∷ []) s' recs k ∙ in_sync (snapshot_of it.name s'.table) e
  where
    in_sync :
        (o : Option Snapshot)
        → o ≡ some (imported lib c.applied it.name it.file_content it.file_format)
        → map
            (reconciled s'.table)
            (if not (same_hash (file_hash lib it) (db_hash o)) then it ∷ [] else [])
          ≡ []
    in_sync o e = rw e (rw f (rw (eq_refl (hash lib it.file_format it.file_content)) refl))

of_current :
    (b : Backend) (it : Item) (q : Result (Option Snapshot)) (t : Store) (e : String × String)
    {o : Option Snapshot}
    → (effective_of b it (q, t)).0 ≡ ok e
    → ((v : Option Snapshot) → q ≡ ok v → v ≡ o)
    → e ≡ effective_on b it o
of_current b it (ok v) t e k h =
    let d : e ≡ effective_on b it v = cc in d ∙ ap (effective_on b it) (h v refl)
of_current b it (err x) t e k h = cc

effective_on-imported :
    (it : Item) (w : Snapshot)
    → w.content ≡ it.file_content
    → w.format ≡ it.file_format
    → effective_on both it (some w) ≡ (it.file_content, it.file_format)
unfolding db_content_or
effective_on-imported it w p q = ground arith

-- What Effective returns for an item, whatever the backend, after an Apply that imported it is what
-- that Apply returned.
pub effective-apply_import :
    (lib : Lib) (c : Clock) (it : Item) (v : Snapshot) (b : Backend) (s s' : Db Tables)
    (r e : String × String)
    → apply lib c (reconciliation it v) action_import (some s) ≡ (ok r, some s')
    → (effective b it (some s')).0 ≡ ok e
    → e ≡ r
unfolding effective current db_content_or
effective-apply_import lib c it v files s s' r e h k =
    let (p, d) = apply_import-snapshot lib c (reconciliation it v) s s' r h in cc
effective-apply_import lib c it v both s s' r e h k =
    let (p, d) = apply_import-snapshot lib c (reconciliation it v) s s' r h in
    of_current both it (db_current it.name s').0 _ e k (λ o q. current_answers it.name s' o q ∙ p)
    ∙ effective_on-imported it (imported lib c.applied it.name it.file_content it.file_format) refl
        refl
    ∙ sym d
effective-apply_import lib c it v db s s' r e h k =
    let (p, d) = apply_import-snapshot lib c (reconciliation it v) s s' r h in
    of_current db it (db_current it.name s').0 _ e k (λ o q. current_answers it.name s' o q ∙ p)
    ∙ sym d
