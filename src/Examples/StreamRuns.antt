-- ===== src/Examples/StreamRuns.antt =====
-- stream/ over an empty kv.Store in which no call fails.
use sisyphus.Prelude.{
  member, String, ◌≡◌, refl, inr, true, false, ◌||◌, some, List, [], ◌∷◌, arith, str_eq, any,
}
use sisyphus.Engine.{Db}
use sisyphus.Kv.{Table, expired}
use sisyphus.Kv.Table.{view}
use sisyphus.Stream.Store.{KvOps}
use sisyphus.Stream.KvStore.{Working, kv_ops, kv_laws}
use sisyphus.Stream.Scoped.{scope, scoped_kv, scoped_isolated}
use sisyphus.Stream.Cursor.{Cursor, load, save, clear, load-save}
use sisyphus.Stream.Deduper.{Deduper, unseen, new_persistent_deduper}
use sisyphus.Stream.Deduper.Fresh.{unseen-new_items, unseen_again}
use sisyphus.Stream.Deduper.Bounds.{IsWf, unseen-IsWf}
use sisyphus.Stream.Deduper.Mirror.{Persists, unseen-Persists}
use sisyphus.Stream.Deduper.Restart.{unseen_after_restart}

abbrev empty_store : Db Table
empty_store = record { table = []; faults = [] }

abbrev kv : KvOps (Db Table)
kv = kv_ops 10

empty-Working : Working empty_store
empty-Working = record { calm = refl; keyed = tt }

abbrev whole : String → String
whole x = x

abbrev batch : List String
batch = "x" ∷ "y" ∷ "x" ∷ []

-- A first pass, and a second batch.
abbrev fresh : Deduper
fresh = record { keys = []; order = []; max = 8192; first = true; ns = some "seen" }

second_batch :
    (unseen kv whole (unseen kv whole fresh batch empty_store).1 ("y" ∷ "z" ∷ []) empty_store).0
    ≡ "z" ∷ []
unfolding unseen
second_batch = refl

fresh-IsWf : IsWf fresh
fresh-IsWf = record {
  agrees = record { distinct = tt; same = λ k. refl };
  fits = inr (omega arith);
}

fresh-Persists : Persists kv (kv_laws 10) "seen" fresh empty_store
unfolding kv_laws view
fresh-Persists = record {
  named = refl;
  wf = fresh-IsWf;
  mirrors = record { up = empty-Working; unmarked = λ k m. refl; held = λ k m. refl };
  marked = λ f. cc;
}

unseen-new_items_example :
    ((unseen kv whole fresh batch empty_store).0 ≡ [])
    × ((unseen kv whole fresh batch empty_store).1.first ≡ false)
    × ((k : String)
        → member k (unseen kv whole fresh batch empty_store).1.keys
          ≡ (member k [] || any (λ it. str_eq it k) batch))
unseen-new_items_example = unseen-new_items kv whole fresh batch empty_store (inr (omega arith))

unseen-IsWf_example : IsWf (unseen kv whole fresh batch empty_store).1
unseen-IsWf_example = unseen-IsWf kv whole fresh batch empty_store fresh-IsWf

unseen_again_example :
    (unseen kv whole (unseen kv whole fresh batch empty_store).1 batch empty_store).0 ≡ []
unfolding unseen
unseen_again_example =
    unseen_again kv whole fresh batch empty_store empty_store (inr (omega arith))
      (inr (omega arith))

abbrev seen : Deduper
seen = (unseen kv whole fresh batch empty_store).1

abbrev seen_store : Db Table
seen_store = (unseen kv whole fresh batch empty_store).2

unseen-Persists_example : Persists kv (kv_laws 10) "seen" seen seen_store
unseen-Persists_example =
    unseen-Persists kv (kv_laws 10) whole "seen" fresh batch empty_store (refl, (refl, (refl, tt)))
      fresh-Persists

unseen_after_restart_example :
    (unseen kv whole (new_persistent_deduper kv "seen" seen_store).0 ("y" ∷ "z" ∷ []) empty_store).0
    ≡ (unseen kv whole seen ("y" ∷ "z" ∷ []) seen_store).0
unfolding unseen
unseen_after_restart_example =
    unseen_after_restart kv (kv_laws 10) whole "seen" seen seen_store empty_store ("y" ∷ "z" ∷ [])
      unseen-Persists_example refl refl (omega arith)

load-save_example :
    let c : Cursor = record { ns = "pos"; key = "mail" } in
    ((load kv (some c) (save kv (some c) "41" empty_store).1).0 ≡ "41")
    × ((load kv (some c) (clear kv (some c) empty_store).1).0 ≡ "")
unfolding kv_laws
load-save_example =
    load-save kv (kv_laws 10) (record { ns = "pos"; key = "mail" }) "41" empty_store empty-Working

scoped_isolated_example :
    let kv' = scoped_kv kv "a:" in
    let laws = kv_laws 10 in
    (laws.value (kv'.get "x" "k" empty_store).1 "b:x" "j" ≡ laws.value empty_store "b:x" "j")
    × (laws.value (kv'.put "x" "k" "v" 12 empty_store).1 "b:x" "j"
        ≡ laws.value empty_store "b:x" "j")
    × (laws.value (kv'.delete "x" "k" empty_store).1 "b:x" "j" ≡ laws.value empty_store "b:x" "j")
    × (laws.value (kv'.list "x" empty_store).1 "b:x" "j" ≡ laws.value empty_store "b:x" "j")
    × (laws.value (kv'.put "x" "k" "v" 12 empty_store).1 (scope "a:" "x") "k" ≡ some "v")
unfolding kv_laws expired
scoped_isolated_example =
    scoped_isolated kv (kv_laws 10) "a:" "x" "k" "v" "b:x" "j" 12 empty_store empty-Working refl
