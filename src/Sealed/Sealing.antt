-- ===== src/Sealed/Sealing.antt =====
-- What sealed/sealed.go keeps and returns: entries come back.
use sisyphus.Prelude.{
  ℕ, String, ◌≡◌, refl, sym, ap, ◌∙◌, Bool, true, false, Option, none, some, [], arith, eq_refl,
  if◌then◌else◌, length,
}
use sisyphus.Fault.{Result, ok}
use sisyphus.Engine.{Db}
use sisyphus.Crypt.{Bytes, GcmLaws, key_bytes, then_with, decrypt-encrypt}
use sisyphus.Kv
use sisyphus.Kv.{Table, expired}
use sisyphus.Kv.Table.{view}
use sisyphus.Kv.Writes.{upsert, put_succeeds, put-view}
use sisyphus.Stream.KvStore.{get_ok}
use sisyphus.Sealed.{
  Entry, Lib, Provider, Store, encryption_key, unseal, got, get_on, get, seal, put_value, put_with,
  put_on, put,
}

-- What is relied on of base64, JSON and the cipher.
pub record LibLaws (lib : Lib) : Type 0 where
  pub gcm_laws : GcmLaws lib.gcm
  pub decodes : (b : Bytes) → lib.decode64 (lib.encode64 b) ≡ ok b
  pub unmarshals : (e : Entry) (b : Bytes) → lib.marshal e ≡ ok b → lib.unmarshal b ≡ ok e

module _ (lib : Lib) (laws : LibLaws lib) where
  pub unseal-seal :
      (nonce key b : Bytes) (e : Entry)
      → lib.marshal e ≡ ok b
      → length key ≡ key_bytes
      → length nonce ≡ lib.gcm.nonce_size
      → (v : String) × (seal lib (ok nonce) key e ≡ ok v) × (unseal lib key v ≡ ok e)
  unseal-seal nonce key b e m k n =
      let (sealed, p, q) = decrypt-encrypt lib.gcm laws.gcm_laws nonce b key k n in
      (
        lib.encode64 sealed,
        unfold seal in rw m (rw p),
        unfold unseal in rw (laws.decodes sealed) (rw q (rw (laws.unmarshals e b m))),
      )

  -- The key that an operation uses is kept, and nothing else of the store changes.
  key_kept :
      (provided : Provider → Result Bytes) (s : Store) (key : Bytes)
      → (encryption_key provided s).0 ≡ ok key
      → encryption_key provided s ≡ (ok key, record s { key = some key })
  unfolding encryption_key
  key_kept provided s key h = ground arith

  put-does :
      (provided : Provider → Result Bytes) (random : Result Bytes) (now : ℕ) (name v : String)
      (e : Entry) (s : Store) (key : Bytes) (rows : Table)
      → s.kv ≡ some (record { table = rows; faults = [] })
      → (encryption_key provided s).0 ≡ ok key
      → seal lib random key e ≡ ok v
      → put lib provided random now name e s ≡ (
        ok tt,
        record s {
          kv = some (record { table = upsert now s.ns name v e.ttl rows; faults = [] });
          key = some key;
        },
      )
  put-does provided random now name v e s key rows d k h =
      unfold put in
      ap (put_on lib provided random now name e s) d
      ∙ ap (put_with lib random now name e (record { table = rows; faults = [] }))
          (key_kept provided s key k)
      ∙ ap
          (λ (r : Result String).
            put_value lib now name e.ttl (record { table = rows; faults = [] }) r
              (record s { key = some key }))
          h
      ∙ ap
          (λ (p : Result (Unit {0}) × Db Table).
            let q : Result (Unit {0}) × Store = (p.0, record s { kv = some p.1; key = some key }) in
            q)
          (put_succeeds now s.ns name v e.ttl rows)

  -- What Get makes of a stored value.
  abbrev pub opened : Bytes → Option Kv.Entry → Result (Option Entry)
  opened key none = ok none
  opened key (some v) = then_with (unseal lib key v.value) (λ e. ok (some e))

  got-opened :
      (provided : Provider → Result Bytes) (o : Option Kv.Entry) (s : Store) (key : Bytes)
      → s.key ≡ some key
      → (got lib provided (ok o) s).0 ≡ opened key o
  unfolding encryption_key
  got-opened provided none s key k = refl
  got-opened provided (some v) s key k = ground arith

  get-opened :
      (provided : Provider → Result Bytes) (later : ℕ) (name : String) (s : Store) (key : Bytes)
      (db : Db Table)
      → s.kv ≡ some db
      → db.faults ≡ []
      → s.key ≡ some key
      → (get lib provided later name s).0 ≡ opened key (view later db.table s.ns name)
  get-opened provided later name s key db d f k =
      unfold get in
      ap (λ (o : Option (Db Table)). (get_on lib provided later name s o).0) d
      ∙ ap
          (λ (r : Result (Option Kv.Entry)).
            (got lib provided r (record s { kv = some (Kv.get later s.ns name db).1 })).0)
          (get_ok later s.ns name db f).0
      ∙ got-opened provided (view later db.table s.ns name)
          (record s { kv = some (Kv.get later s.ns name db).1 }) key k

  view-put :
      (now later : ℕ) (ns name v : String) (ttl : ℕ) (rows : Table)
      → view later (upsert now ns name v ttl rows) ns name ≡ (
          if expired later ttl
          then none
          else some (record { value = v; expiry = ttl; updated = now }))
  view-put now later ns name v ttl rows =
      let db : Db Table = record { table = rows; faults = [] } in
      let e : Kv.put now ns name v ttl db
          ≡ (ok tt, record { table = upsert now ns name v ttl rows; faults = [] }) =
        put_succeeds now ns name v ttl rows in
      ap (λ (p : Result (Unit {0}) × Db Table). view later p.1.table ns name) (sym e)
      ∙ put-view now later ns name v ttl db ns name
          (ap (λ (p : Result (Unit {0}) × Db Table). p.0) e)
      ∙ ground (arith, eq_refl ns, eq_refl name)

  opened_unless :
      (gone : Bool) (key : Bytes) (v : String) (e : Entry) (now : ℕ)
      → unseal lib key v ≡ ok e
      → opened key
          (if gone then none else some (record { value = v; expiry = e.ttl; updated = now }))
        ≡ ok (if gone then none else some e)
  opened_unless true key v e now u = refl
  opened_unless false key v e now u = rw u

  -- A Put of an entry on a store whose calls succeed returns no error, for a key of the right
  -- length, a nonce of the size of the cipher's, and an entry that JSON can render; and a later Get
  -- returns the entry, whole, until its TTL, and nothing from then on. Its Expiry deletes nothing.
  pub get-put :
      (provided provided' : Provider → Result Bytes) (nonce b key : Bytes) (now later : ℕ)
      (name : String) (e : Entry) (s : Store) (rows : Table)
      → s.kv ≡ some (record { table = rows; faults = [] })
      → (encryption_key provided s).0 ≡ ok key
      → length key ≡ key_bytes
      → length nonce ≡ lib.gcm.nonce_size
      → lib.marshal e ≡ ok b
      → let r : Result (Unit {0}) × Store = put lib provided (ok nonce) now name e s in
        (r.0 ≡ ok tt)
        × ((get lib provided' later name r.1).0 ≡ ok (if expired later e.ttl then none else some e))
  get-put provided provided' nonce b key now later name e s rows d k kl nl m =
      let (v, sealed, unsealed) = unseal-seal nonce key b e m kl nl in
      let does = put-does provided (ok nonce) now name v e s key rows d k sealed in
      (
        ap (λ (p : Result (Unit {0}) × Store). p.0) does,
        ap (λ (p : Result (Unit {0}) × Store). (get lib provided' later name p.1).0) does
            ∙ get-opened provided' later name
                (record s {
                  kv = some (record { table = upsert now s.ns name v e.ttl rows; faults = [] });
                  key = some key;
                })
                key (record { table = upsert now s.ns name v e.ttl rows; faults = [] }) refl refl
                refl
            ∙ ap (opened key) (view-put now later s.ns name v e.ttl rows)
            ∙ opened_unless (expired later e.ttl) key v e now unsealed,
      )
