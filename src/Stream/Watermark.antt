-- ===== src/Stream/Watermark.antt =====
-- stream/watermark.go: the time of the last run, kept as decimal seconds. `none` is a nil
-- *Watermark, or one over a nil store. FormatInt and ParseInt are calls of Go's library and so
-- arguments; a time is its seconds since 1970, and `none` is the zero time.
use sisyphus.Prelude.{String, ◌≡◌, ◌∙◌, false, Option, none, some, eq_refl, str_eq, if◌then◌else◌}
use sisyphus.Prelude.Int.{ℤ}
use sisyphus.Fault.{Result, ok, err}
use sisyphus.Kv.{Entry}
use sisyphus.Stream.Store.{KvOps, KvLaws, value_of}

pub record Watermark : Type 0 where
  pub ns : String
  pub key : String

module _ {S : Type 0} (kv : KvOps S) (format_int : ℤ → String) (parse_int : String → Option ℤ) where
  -- The early returns of Load, and ParseInt.
  abbrev pub stamp_of : Result (Option Entry) → Option ℤ
  stamp_of (err e) = none
  stamp_of (ok none) = none
  stamp_of (ok (some e)) = if str_eq e.value "" then none else parse_int e.value

  unfoldable pub load_stamp : Option Watermark → S → Option ℤ × S
  load_stamp none s = (none, s)
  load_stamp (some w) s = let (r, s') = kv.get w.ns w.key s in (stamp_of r, s')

  unfoldable pub save_stamp : Option Watermark → ℤ → S → Result (Unit {0}) × S
  save_stamp none t s = (ok tt, s)
  save_stamp (some w) t s = kv.put w.ns w.key (format_int t) 0 s

  -- On a store that is up, a stamp that was saved is the one that is loaded, where ParseInt reads
  -- back what FormatInt writes, which is not empty.
  pub load-save_stamp :
      (laws : KvLaws kv) (w : Watermark) (t : ℤ) (s : S)
      → laws.IsUp s
      → parse_int (format_int t) ≡ some t
      → str_eq (format_int t) "" ≡ false
      → (load_stamp (some w) (save_stamp (some w) t s).1).0 ≡ some t
  unfolding load_stamp save_stamp
  load-save_stamp laws w t s up p q =
      let (o, e, v) = laws.get_lem w.ns w.key _ (laws.put-IsUp w.ns w.key (format_int t) s up) in
      rw e (
        of_entry o
          (v ∙ rw (laws.put-value w.ns w.key (format_int t) w.ns w.key s up) (simp eq_refl)))
    where
      of_entry : (o : Option Entry) → value_of o ≡ some (format_int t) → stamp_of (ok o) ≡ some t
      of_entry none h = cc
      of_entry (some x) h = let e : x.value ≡ format_int t = cc in rw e (rw q p)
