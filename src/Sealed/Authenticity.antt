-- ===== src/Sealed/Authenticity.antt =====
-- What Get of sealed/sealed.go takes for an entry.
use sisyphus.Prelude.{ℕ, String, ◌≡◌, refl, sym, ap, subst, ◌∙◌, Option, none, some, ◌++◌, arith}
use sisyphus.Fault.{Result, ok, err}
use sisyphus.Engine.{Db}
use sisyphus.Crypt.{Bytes, then_with, decrypt, decrypt_authentic}
use sisyphus.Kv
use sisyphus.Kv.{Table, expired}
use sisyphus.Kv.Table.{view}
use sisyphus.Kv.Reads.{get-view}
use sisyphus.Sealed.{
  Entry, Lib, Provider, Store, encryption_key, or_undecodable, unseal, unseal_with, got, get_on,
  get,
}
use sisyphus.Sealed.Sealing.{LibLaws}

module _ (lib : Lib) (laws : LibLaws lib) where
  -- What unseals was sealed under the key.
  abbrev pub SealedUnder : Bytes → String → Entry → Type 0
  SealedUnder key value e =
      (nonce : Bytes) × (plain : Bytes) × (lib.decode64 value
        ≡ ok (nonce ++ lib.gcm.seal key nonce plain))
      × (lib.unmarshal plain ≡ ok e)

  then_with-ok :
      {A B : Type 0} (r : Result A) (f : A → Result B) (b : B)
      → then_with r f ≡ ok b
      → (a : A) × (r ≡ ok a) × (f a ≡ ok b)
  then_with-ok (ok a) f b h = (a, refl, h)
  then_with-ok (err e) f b h = cc

  or_undecodable-ok : {A : Type 0} (r : Result A) (a : A) → or_undecodable lib r ≡ ok a → r ≡ ok a
  or_undecodable-ok (ok a) b h = h
  or_undecodable-ok (err e) b h = cc

  pub unseal-SealedUnder :
      (key : Bytes) (value : String) (e : Entry)
      → unseal lib key value ≡ ok e
      → SealedUnder key value e
  unfolding unseal
  unseal-SealedUnder key value e h =
      let (raw, r, h1) = then_with-ok (lib.decode64 value) _ e (or_undecodable-ok _ e h) in
      let (plain, p, u) = then_with-ok (decrypt lib.gcm raw key) _ e h1 in
      let (k, (nonce, s)) = decrypt_authentic lib.gcm laws.gcm_laws raw key plain p in
      (nonce, plain, r ∙ ap ok s, u)

  -- What a Get may return where its name has this value, and the current key is this one.
  abbrev pub Authentic : Result Bytes → Option Kv.Entry → Result (Option Entry) → Type 0
  Authentic current o (ok none) = o ≡ none
  Authentic current o (ok (some e)) =
      (v : Kv.Entry) × (key : Bytes) × (o ≡ some v) × (current ≡ ok key) × SealedUnder key v.value e
  Authentic current o (err x) = Unit {0}

  unsealed-Authentic :
      (v : Kv.Entry) (key : Bytes) (r : Result Entry)
      → unseal lib key v.value ≡ r
      → Authentic (ok key) (some v) (then_with r (λ e. ok (some e)))
  unsealed-Authentic v key (ok e) h = (v, key, refl, refl, unseal-SealedUnder key v.value e h)
  unsealed-Authentic v key (err x) h = tt

  unseal_with-Authentic :
      (v : Kv.Entry) (r : Result Bytes × Store)
      → Authentic r.0 (some v) (unseal_with lib v.value r).0
  unseal_with-Authentic v (ok key, s) = unsealed-Authentic v key (unseal lib key v.value) refl
  unseal_with-Authentic v (err x, s) = tt

  got-Authentic :
      (provided : Provider → Result Bytes) (o : Option Kv.Entry) (r : Result (Option Kv.Entry))
      (s : Store)
      → ((v : Option Kv.Entry) → r ≡ ok v → v ≡ o)
      → Authentic (encryption_key provided s).0 o (got lib provided r s).0
  got-Authentic provided o (err x) s h = tt
  got-Authentic provided o (ok none) s h = sym (h none refl)
  got-Authentic provided o (ok (some v)) s h =
      subst (λ o. Authentic (encryption_key provided s).0 o (got lib provided (ok (some v)) s).0)
        (h (some v) refl) (unseal_with-Authentic v (encryption_key provided s))

  key_of_handle :
      (provided : Provider → Result Bytes) (s : Store) (o : Option (Db Table))
      → (encryption_key provided (record s { kv = o })).0 ≡ (encryption_key provided s).0
  unfolding encryption_key
  key_of_handle provided s o = ground arith

  -- Get has no cleartext fallback: whichever calls fail and whatever the rows hold, an entry that it
  -- returns was sealed under the current key, in the value that its name has now; and it reports a
  -- miss only where the name has no value, so that one which does not authenticate is an error.
  pub get-Authentic :
      (provided : Provider → Result Bytes) (now : ℕ) (name : String) (s : Store) (db : Db Table)
      → s.kv ≡ some db
      → Authentic
          (encryption_key provided s).0
          (view now db.table s.ns name)
          (get lib provided now name s).0
  get-Authentic provided now name s db d =
      unfold get in
      subst
        (λ (o : Option (Db Table)).
          Authentic (encryption_key provided s).0 (view now db.table s.ns name)
            (get_on lib provided now name s o).0)
        (sym d)
        (subst
          (λ (k : Result Bytes).
            Authentic k (view now db.table s.ns name)
              (got lib provided (Kv.get now s.ns name db).0
                (record s { kv = some (Kv.get now s.ns name db).1 })).0)
          (key_of_handle provided s (some (Kv.get now s.ns name db).1))
          (got-Authentic provided (view now db.table s.ns name) (Kv.get now s.ns name db).0
            (record s { kv = some (Kv.get now s.ns name db).1 })
            (λ v e. get-view now s.ns name db v e)))
