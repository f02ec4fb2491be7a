-- ===== src/ConfigStore.antt =====
-- manager.go: the facade over files and the versioned store. Without a database, a *configdb.Store
-- that is nil, the store is `none`. Bytes are texts, and no bytes are the empty text.
pub mod Plans
pub mod Applies
use sisyphus.Prelude.{
  ℕ, zero, String, Bool, true, false, not, ◌&&◌, ◌||◌, Option, none, some, List, [], ◌∷◌, str_eq,
  if◌then◌else◌, is_some,
}
use sisyphus.Prelude.Int.{ℤ}
use sisyphus.Fault.{Error, unavailable, Result, ok, err}
use sisyphus.Engine.{Db, Exec, on_store}
use sisyphus.ConfigDb.{
  Snapshot, Tables, Lib, hash, current as db_current, history as db_history,
  import_doc as db_import, forget as db_forget,
}

pub data Backend : Type 0 where
  both : Backend
  files : Backend
  db : Backend

abbrev pub Store : Type 0
Store = Option (Db Tables)

-- A read of configdb: on a nil *Store it reports absent with a nil error.
unfoldable pub absent_or : {A : Type 0} → A → Exec Tables A → Store → Result A × Store
absent_or a m none = (ok a, none)
absent_or a m (some s) = let (r, s') = m s in (r, some s')

unfoldable pub current : String → Store → Result (Option Snapshot) × Store
unfolding absent_or db_current
current n = absent_or none (db_current n)

unfoldable pub history : String → ℤ → Store → Result (List Snapshot) × Store
unfolding absent_or db_history
history n limit = absent_or [] (db_history n limit)

unfoldable pub import_doc :
    Lib → ℕ → ℕ → ℕ → String → String → String → Store → Result (Unit {0}) × Store
unfolding on_store db_import
import_doc lib archived applied bumped n content format =
    on_store (db_import lib archived applied bumped n content format)

unfoldable pub forget : Lib → ℕ → String → Store → Result (Unit {0}) × Store
unfolding on_store db_forget
forget lib bumped n = on_store (db_forget lib bumped n)

pub data Action : Type 0 where
  action_import : Action
  action_use_file : Action
  action_use_db : Action

pub record Item : Type 0 where
  pub name : String
  pub file_content : String
  pub file_format : String

pub record Reconciliation : Type 0 where
  pub name : String
  pub file_content : String
  pub file_format : String
  pub db : Snapshot

abbrev pub has_file : Item → Bool
has_file it = not (str_eq it.file_content "")

abbrev pub has_db : Reconciliation → Bool
has_db rec = not (str_eq rec.db.hash "")

-- Snapshot{}
abbrev pub zero_snapshot : Snapshot
zero_snapshot = record { name = ""; hash = ""; format = ""; content = ""; at = 0 }

abbrev pub reconciliation : Item → Snapshot → Reconciliation
reconciliation it v = record {
  name = it.name;
  file_content = it.file_content;
  file_format = it.file_format;
  db = v;
}

-- The body of Plan's loop behind Current: what it appends to `out`, if anything.
unfoldable pub plan_item : Lib → Item → Option Snapshot → List Reconciliation
unfolding hash
plan_item lib it none = if has_file it then reconciliation it zero_snapshot ∷ [] else []
plan_item lib it (some cur) =
    if has_file it && str_eq cur.hash (hash lib it.file_format it.file_content)
    then []
    else reconciliation it cur ∷ []

abbrev pub append_plan : List Reconciliation → List Reconciliation → List Reconciliation
append_plan [] out = out
append_plan (rec ∷ recs) out = rec ∷ append_plan recs out

-- The two early returns of an error, of this item's Current and of a later one.
abbrev pub with_rest :
    List Reconciliation
    → Result (List Reconciliation) × Store
    → Result (List Reconciliation) × Store
with_rest recs (ok out, s) = (ok (append_plan recs out), s)
with_rest recs (err e, s) = (err e, s)

abbrev pub plan_after :
    Lib
    → Item
    → Result (Option Snapshot)
    → Store
    → Result (List Reconciliation) × Store
    → Result (List Reconciliation) × Store
plan_after lib it (ok cur) s rest = with_rest (plan_item lib it cur) rest
plan_after lib it (err e) s rest = (err e, s)

unfoldable pub plan_items : Lib → List Item → Store → Result (List Reconciliation) × Store
unfolding current plan_item
plan_items lib [] s = (ok [], s)
plan_items lib (it ∷ items) s =
    let (r, s') = current it.name s in
    let rest = plan_items lib items s' in plan_after lib it r s' rest

unfoldable pub plan : Lib → Backend → List Item → Store → Result (List Reconciliation) × Store
unfolding plan_items
plan lib both items s = plan_items lib items s
plan lib files items s = (ok [], s)
plan lib db items s = (ok [], s)

unfoldable pub db_content_or : Option Snapshot → String → String × String
db_content_or none fallback_format = ("", fallback_format)
db_content_or (some cur) fallback_format = (cur.content, cur.format)

-- The clock as Import reads it.
pub record Clock : Type 0 where
  pub archived : ℕ
  pub applied : ℕ
  pub bumped : ℕ

abbrev pub returning : {A : Type 0} → A → Result (Unit {0}) × Store → Result A × Store
returning a (ok u, s) = (ok a, s)
returning a (err e, s) = (err e, s)

unfoldable pub apply :
    Lib → Clock → Reconciliation → Action → Store → Result (String × String) × Store
unfolding import_doc db_content_or
apply lib c rec action_import s =
    returning (rec.file_content, rec.file_format)
      (import_doc lib c.archived c.applied c.bumped rec.name rec.file_content rec.file_format s)
apply lib c rec action_use_db s =
    (ok (db_content_or (if has_db rec then some rec.db else none) rec.file_format), s)
apply lib c rec action_use_file s = (ok (rec.file_content, rec.file_format), s)

abbrev pub effective_on : Backend → Item → Option Snapshot → String × String
effective_on db it cur = db_content_or cur it.file_format
effective_on both it cur =
    if has_file it then (it.file_content, it.file_format) else db_content_or cur it.file_format
effective_on files it cur = (it.file_content, it.file_format)

abbrev pub effective_of :
    Backend → Item → Result (Option Snapshot) × Store → Result (String × String) × Store
effective_of b it (ok cur, s) = (ok (effective_on b it cur), s)
effective_of b it (err e, s) = (err e, s)

unfoldable pub effective : Backend → Item → Store → Result (String × String) × Store
unfolding current db_content_or
effective files it s = (ok (it.file_content, it.file_format), s)
effective both it s = effective_of both it (current it.name s)
effective db it s = effective_of db it (current it.name s)
