-- ===== src/ConfigStore/Plans.antt =====
-- manager.go: drift between files and snapshots, and the items that are reported.
use sisyphus.Prelude.{
  String, ◌≡◌, refl, ◌∙◌, ap, Bool, true, false, not, Option, none, some, List, [], ◌∷◌, arith,
  str_eq, if◌then◌else◌, filter, map, inl, inr, Option-cases,
}
use sisyphus.Fault.{Result, ok, err}
use sisyphus.Engine.{Db}
use sisyphus.Engine.Sequence.{query_answers, query_keeps}
use sisyphus.ConfigDb.{Snapshot, Tables, Lib, hash, current as db_current, current_on}
use sisyphus.ConfigDb.Documents.{snapshot_of}
use sisyphus.ConfigStore.{
  Store, Item, Reconciliation, both, has_file, reconciliation, zero_snapshot, plan_item,
  append_plan, with_rest, plan_after, plan_items, plan,
}

-- The hash of a document's file, if there is one, and of its snapshot.
abbrev pub file_hash : Lib → Item → Option String
file_hash lib it = if has_file it then some (hash lib it.file_format it.file_content) else none

abbrev pub db_hash : Option Snapshot → Option String
db_hash none = none
db_hash (some v) = some v.hash

abbrev pub same_hash : Option String → Option String → Bool
same_hash none none = true
same_hash none (some h) = false
same_hash (some h) none = false
same_hash (some h) (some k) = str_eq k h

abbrev pub drifted : Lib → Tables → Item → Bool
drifted lib t it = not (same_hash (file_hash lib it) (db_hash (snapshot_of it.name t)))

abbrev pub zero_or : Option Snapshot → Snapshot
zero_or none = zero_snapshot
zero_or (some v) = v

abbrev pub reconciled : Tables → Item → Reconciliation
reconciled t it = reconciliation it (zero_or (snapshot_of it.name t))

plan_item-drifted :
    (lib : Lib) (t : Tables) (it : Item) (out : List Reconciliation)
    → append_plan (plan_item lib it (snapshot_of it.name t)) out
      ≡ (if drifted lib t it then reconciled t it ∷ out else out)
unfolding plan_item
plan_item-drifted lib t it out = elim (Option-cases (snapshot_of it.name t)) [
  | inl e ↦ rw e (ground arith)
  | inr (v, e) ↦ rw e (ground arith)
]

pub current_answers :
    (n : String) (s : Db Tables) (v : Option Snapshot)
    → (db_current n s).0 ≡ ok v
    → v ≡ snapshot_of n s.table
unfolding db_current current_on
current_answers n s v h = query_answers _ s v h

pub current_keeps : (n : String) (s : Db Tables) → (db_current n s).1.table ≡ s.table
unfolding db_current current_on
current_keeps n s = query_keeps (λ t. snapshot_of n t) s

map-if :
    {A B : Type 0} (f : A → B) (b : Bool) (x : A) (xs : List A)
    → (if b then f x ∷ map f xs else map f xs) ≡ map f (if b then x ∷ xs else xs)
map-if f true x xs = refl
map-if f false x xs = refl

with_rest-ok :
    (recs : List Reconciliation) (r : Result (List Reconciliation) × Store)
    (out : List Reconciliation)
    → (with_rest recs r).0 ≡ ok out
    → (rest : List Reconciliation) × (r.0 ≡ ok rest) × (out ≡ append_plan recs rest)
with_rest-ok recs (ok rest, s) out h = (rest, refl, cc)
with_rest-ok recs (err e, s) out h = cc

module _ (lib : Lib) where
  after_current :
      (it : Item) (r : Result (Option Snapshot)) (t : Tables) (o : Store)
      (rest : Result (List Reconciliation) × Store) (tail recs : List Reconciliation)
      → ((v : Option Snapshot) → r ≡ ok v → v ≡ snapshot_of it.name t)
      → ((out : List Reconciliation) → rest.0 ≡ ok out → out ≡ tail)
      → (plan_after lib it r o rest).0 ≡ ok recs
      → recs ≡ (if drifted lib t it then reconciled t it ∷ tail else tail)
  after_current it (ok v) t o rest tail recs answer later h =
      let (out, e, d) = with_rest-ok (plan_item lib it v) rest recs h in
      d
      ∙ ap (λ w. append_plan (plan_item lib it w) out) (answer v refl)
      ∙ plan_item-drifted lib t it out
      ∙ ap (λ w. if drifted lib t it then reconciled t it ∷ w else w) (later out e)
  after_current it (err e) t o rest tail recs answer later h = cc

  plan_items-drifted :
      (items : List Item) (s : Db Tables) (t : Tables) (recs : List Reconciliation)
      → s.table ≡ t
      → (plan_items lib items (some s)).0 ≡ ok recs
      → recs ≡ map (reconciled t) (filter (drifted lib t) items)
  unfolding plan_items
  plan_items-drifted [] s t recs q h = cc
  plan_items-drifted (it ∷ items) s t recs q h =
      after_current it (db_current it.name s).0 t (some (db_current it.name s).1)
        (plan_items lib items (some (db_current it.name s).1))
        (map (reconciled t) (filter (drifted lib t) items)) recs
        (λ v e. current_answers it.name s v e ∙ ap (snapshot_of it.name) q)
        (λ out e.
          plan_items-drifted items (db_current it.name s).1 t out (current_keeps it.name s ∙ q) e)
        h
      ∙ map-if (reconciled t) (drifted lib t it) it (filter (drifted lib t) items)

-- On a store with a database, a Plan that returned no error lists exactly the items of which the
-- file's hash, or that there is no file, differs from the snapshot's, or that there is none; in
-- order, each with its file and its snapshot.
pub plan-drifted :
    (lib : Lib) (items : List Item) (s : Db Tables) (recs : List Reconciliation)
    → (plan lib both items (some s)).0 ≡ ok recs
    → recs ≡ map (reconciled s.table) (filter (drifted lib s.table) items)
unfolding plan
plan-drifted lib items s recs h = plan_items-drifted lib items s s.table recs refl h
