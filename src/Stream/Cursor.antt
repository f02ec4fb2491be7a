-- ===== src/Stream/Cursor.antt =====
-- Cursor of stream/persist.go: a saved position. `none` is a nil *Cursor, or one over a nil store.
use sisyphus.Prelude.{String, ◌≡◌, refl, ap, ◌∙◌, Option, none, some, eq_refl}
use sisyphus.Fault.{Result, ok, err}
use sisyphus.Kv.{Entry}
use sisyphus.Stream.Store.{KvOps, KvLaws, value_of}

pub record Cursor : Type 0 where
  pub ns : String
  pub key : String

module _ {S : Type 0} (kv : KvOps S) where
  -- A read failure and a missing entry both give "": the zero Entry has an empty value.
  abbrev loaded : Result (Option Entry) → String
  loaded (err e) = ""
  loaded (ok none) = ""
  loaded (ok (some e)) = e.value

  unfoldable pub load : Option Cursor → S → String × S
  load none s = ("", s)
  load (some c) s = let (r, s') = kv.get c.ns c.key s in (loaded r, s')

  unfoldable pub save : Option Cursor → String → S → Result (Unit {0}) × S
  save none v s = (ok tt, s)
  save (some c) v s = kv.put c.ns c.key v 0 s

  unfoldable pub clear : Option Cursor → S → Result (Unit {0}) × S
  clear none s = (ok tt, s)
  clear (some c) s = kv.delete c.ns c.key s

abbrev text_or_empty : Option String → String
text_or_empty none = ""
text_or_empty (some v) = v

module _ {S : Type 0} (kv : KvOps S) (laws : KvLaws kv) where
  load-value :
      (c : Cursor) (s : S)
      → laws.IsUp s
      → (load kv (some c) s).0 ≡ text_or_empty (laws.value s c.ns c.key)
  unfolding load
  load-value c s up =
      let (o, e, v) = laws.get_lem c.ns c.key s up in rw e (of_entry o ∙ ap text_or_empty v)
    where
      of_entry : (o : Option Entry) → loaded kv (ok o) ≡ text_or_empty (value_of o)
      of_entry none = refl
      of_entry (some x) = refl

  -- On a store that is up, a position that was saved is the one that is loaded, and a cleared one
  -- loads as "".
  pub load-save :
      (c : Cursor) (v : String) (s : S)
      → laws.IsUp s
      → ((load kv (some c) (save kv (some c) v s).1).0 ≡ v)
        × ((load kv (some c) (clear kv (some c) s).1).0 ≡ "")
  unfolding save clear
  load-save c v s up = (
    load-value c _ (laws.put-IsUp c.ns c.key v s up)
        ∙ rw (laws.put-value c.ns c.key v c.ns c.key s up) (simp eq_refl),
    load-value c _ (laws.delete-IsUp c.ns c.key s up)
        ∙ rw (laws.delete-value c.ns c.key c.ns c.key s up) (simp eq_refl),
  )
