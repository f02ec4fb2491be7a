-- ===== src/Stream/Deduper.antt =====
-- Deduper of stream/stream.go and NewPersistentDeduper of stream/persist.go. The Go map `keys` is
-- the list of its keys; errors of the store are ignored, as in the source.
pub mod Fresh
pub mod Bounds
pub mod Mirror
pub mod Restart
use sisyphus.Prelude.{
  member, ℕ, zero, suc, String, Bool, true, false, not, ◌&&◌, ◌||◌, Option, none, some, List, [],
  ◌∷◌, ◌++◌, str_eq, ltb, leb, ◌==◌, if◌then◌else◌, length, filter,
}
use sisyphus.Fault.{Result, ok, err}
use sisyphus.Kv.{Entry}
use sisyphus.Stream.Store.{KvOps, names}

abbrev pub default_seen_cap : ℕ
default_seen_cap = 8192

abbrev pub seen_init_key : String
seen_init_key = "_deduper:init"

abbrev pub legacy_seen_init_key : String
legacy_seen_init_key = "sisyphus:deduper:init"

pub record Deduper : Type 0 where
  pub keys : List String
  pub order : List String
  pub max : ℕ
  pub first : Bool
  -- The namespace in the store, if there is a store.
  pub ns : Option String

abbrev pub without : String → List String → List String
without k ks = filter (λ j. not (str_eq j k)) ks

unfoldable pub new_deduper : Deduper
new_deduper = record { keys = []; order = []; max = default_seen_cap; first = true; ns = none }

-- What NewPersistentDeduper makes of the entries of its namespace, before it evicts.
abbrev pub remembered : String → List (String × Entry) → Deduper
remembered ns existing =
    let ks = names existing in
    let kept = without legacy_seen_init_key (without seen_init_key ks) in
    let marked = member seen_init_key ks || member legacy_seen_init_key ks in
    record {
      keys = kept;
      order = kept;
      max = default_seen_cap;
      first = not (marked || ltb 0 (length kept));
      ns = some ns;
    }

module _ {S : Type 0} (kv : KvOps S) where
  -- if d.kv != nil { _ = d.kv.Put(…) }
  unfoldable pub put_key : Option String → String → S → S
  put_key none k s = s
  put_key (some ns) k s = (kv.put ns k "1" 0 s).1

  unfoldable pub delete_key : Option String → String → S → S
  delete_key none k s = s
  delete_key (some ns) k s = (kv.delete ns k s).1

  -- for len(d.order) > d.max, over the keys and the order.
  unfoldable pub evict_loop :
      ℕ → Option String → List String → List String → S → List String × List String × S
  unfolding delete_key
  evict_loop max ns keys [] s = (keys, [], s)
  evict_loop max ns keys (oldest ∷ order) s =
      let rest = evict_loop max ns (without oldest keys) order (delete_key ns oldest s) in
      if ltb max (length (oldest ∷ order)) then rest else (keys, oldest ∷ order, s)

  unfoldable pub evict : Deduper → S → Deduper × S
  unfolding evict_loop
  evict d s =
      let (keys, order, s') = evict_loop d.max d.ns d.keys d.order s in
      if d.max == 0 then (d, s) else (record d { keys = keys; order = order }, s')

  -- The body of Unseen's loop: the new state, and whether the item is handed out.
  unfoldable pub see : Deduper → String → S → Deduper × S × Bool
  unfolding evict put_key
  see d k s =
      let (d', s') =
        evict (record d { keys = k ∷ d.keys; order = d.order ++ k ∷ [] }) (put_key d.ns k s) in
      if member k d.keys then (d, s, false) else (d', s', not d.first)

  module _ {T : Type 0} (key : T → String) where
    unfoldable pub see_all : Deduper → List T → S → List T × Deduper × S
    unfolding see
    see_all d [] s = ([], d, s)
    see_all d (it ∷ items) s =
        let (d', s', handed) = see d (key it) s in
        let (out, d'', s'') = see_all d' items s' in (if handed then it ∷ out else out, d'', s'')

    -- if d.first { d.first = false; … }
    unfoldable pub unseen : Deduper → List T → S → List T × Deduper × S
    unfolding see_all put_key
    unseen d items s =
        let (out, d', s') = see_all d items s in
        if d'.first
        then (out, record d' { first = false }, put_key d'.ns seen_init_key s')
        else (out, d', s')

  abbrev pub restored : String → Result (List (String × Entry)) → S → Deduper × S
  restored ns (err e) s = (record new_deduper { ns = some ns }, s)
  restored ns (ok existing) s = evict (remembered ns existing) s

  unfoldable pub new_persistent_deduper : String → S → Deduper × S
  unfolding evict new_deduper
  new_persistent_deduper ns s = let (r, s') = kv.list ns s in restored ns r s'
