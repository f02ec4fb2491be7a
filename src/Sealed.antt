-- ===== src/Sealed.antt =====
-- sealed/sealed.go: the encrypted store over kv/kv.go. Base64 and JSON are those of Go's library; what
-- the key provider and the random source would return in a call are arguments of it.
pub mod Sealing
pub mod Authenticity
use sisyphus.Prelude.{
  ℕ, String, ◌≡◌, Bool, Option, none, some, List, [], ◌∷◌, str_eq, if◌then◌else◌,
}
use sisyphus.Fault.{Error, unavailable, undecodable, Result, ok, err}
use sisyphus.Engine.{Db}
use sisyphus.Crypt.{Bytes, Gcm, then_with, encrypt, decrypt, new_key}
use sisyphus.Secret.{SecretOps, get_or_create}
use sisyphus.Kv
use sisyphus.Kv.{Table}

pub record Entry : Type 0 where
  pub access_token : String
  pub refresh_token : String
  pub scope : String
  pub expiry : ℕ
  pub ttl : ℕ

pub record Lib : Type 0 where
  pub gcm : Gcm
  pub encode64 : Bytes → String
  pub decode64 : String → Result Bytes
  pub marshal : Entry → Result Bytes
  pub unmarshal : Bytes → Result Entry

-- Where the key comes from: Options.KeyProvider, or the keyring under a service and a name.
pub data Provider : Type 0 where
  given_provider : Provider
  keyring : String → String → Provider

pub record Options : Type 0 where
  pub namespace : String
  pub keyring_service : String
  pub key_name : String
  pub has_key_provider : Bool

-- `kv` is none once the store is closed; `key` is the key that was fetched.
pub record Store : Type 0 where
  pub kv : Option (Db Table)
  pub ns : String
  pub provider : Provider
  pub key : Option Bytes

abbrev pub text_or : String → String → String
text_or d s = if str_eq s "" then d else s

unfoldable pub provider_of : Options → Provider
provider_of opts =
    if opts.has_key_provider
    then given_provider
    else keyring (text_or "sisyphus" opts.keyring_service) (text_or "sealed-key" opts.key_name)

-- Open, where `opened` is what kv.Open returned.
unfoldable pub open_store : Result (Db Table) → Options → Result Store
unfolding provider_of
open_store opened opts = then_with opened (λ k. ok (record {
  kv = some k;
  ns = text_or "sealed" opts.namespace;
  provider = provider_of opts;
  key = none;
}))

-- keyringKey behind secret.Open, with the state of the manager.
unfoldable pub keyring_key :
    {S : Type 0} → Lib → SecretOps S → Result Bytes → String → S → Result Bytes × S
unfolding get_or_create new_key
keyring_key lib ops random name s =
    let (v, s') =
      get_or_create ops (then_with (new_key random) (λ k. ok (lib.encode64 k))) name s in
    (then_with v lib.decode64, s')

-- A nil *Store, or a closed one.
abbrev pub handle : Option Store → Option (Db Table)
handle none = none
handle (some s) = s.kv

-- Close; whether closing the database fails is for its handle to say.
unfoldable pub close : Option Store → Option Store
close none = none
close (some s) = some (record s { kv = none })

abbrev pub keep_key : Store → Result Bytes → Result Bytes × Store
keep_key s (ok k) = (ok k, record s { key = some k })
keep_key s (err e) = (err e, s)

abbrev pub key_or : Option Bytes → (Provider → Result Bytes) → Store → Result Bytes × Store
key_or (some k) provided s = (ok k, s)
key_or none provided s = keep_key s (provided s.provider)

-- `provided` is what the key provider would return.
unfoldable pub encryption_key : (Provider → Result Bytes) → Store → Result Bytes × Store
encryption_key provided s = key_or s.key provided s

module _ (lib : Lib) where
  abbrev pub or_undecodable : {A : Type 0} → Result A → Result A
  or_undecodable (ok a) = ok a
  or_undecodable (err e) = err undecodable

  -- The three steps from a stored value to an entry.
  unfoldable pub unseal : Bytes → String → Result Entry
  unseal key value = or_undecodable (
      then_with (lib.decode64 value)
        (λ raw. then_with (decrypt lib.gcm raw key) (λ plain. lib.unmarshal plain)))

  abbrev pub unseal_with : String → Result Bytes × Store → Result (Option Entry) × Store
  unseal_with value (ok key, s) = (then_with (unseal key value) (λ e. ok (some e)), s)
  unseal_with value (err e, s) = (err e, s)

  -- Behind the Get of the kv store.
  abbrev pub got :
      (Provider → Result Bytes) → Result (Option Kv.Entry) → Store → Result (Option Entry) × Store
  got provided (err e) s = (err e, s)
  got provided (ok none) s = (ok none, s)
  got provided (ok (some v)) s = unseal_with v.value (encryption_key provided s)

  abbrev pub get_on :
      (Provider → Result Bytes)
      → ℕ
      → String
      → Store
      → Option (Db Table)
      → Result (Option Entry) × Store
  get_on provided now name s none = (err unavailable, s)
  get_on provided now name s (some db) =
      let (r, db') = Kv.get now s.ns name db in got provided r (record s { kv = some db' })

  unfoldable pub get :
      (Provider → Result Bytes) → ℕ → String → Store → Result (Option Entry) × Store
  unfolding encryption_key unseal decrypt
  get provided now name s = get_on provided now name s s.kv

  -- json.Marshal and Encrypt.
  unfoldable pub seal : Result Bytes → Bytes → Entry → Result String
  seal random key e =
      then_with (lib.marshal e)
        (λ b. then_with (encrypt lib.gcm random b key) (λ sealed. ok (lib.encode64 sealed)))

  abbrev pub put_value :
      ℕ → String → ℕ → Db Table → Result String → Store → Result (Unit {0}) × Store
  put_value now name ttl db (err e) s = (err e, s)
  put_value now name ttl db (ok v) s =
      let (r, db') = Kv.put now s.ns name v ttl db in (r, record s { kv = some db' })

  abbrev pub put_with :
      Result Bytes
      → ℕ
      → String
      → Entry
      → Db Table
      → Result Bytes × Store
      → Result (Unit {0}) × Store
  put_with random now name e db (err x, s) = (err x, s)
  put_with random now name e db (ok key, s) = put_value now name e.ttl db (seal random key e) s

  abbrev pub put_on :
      (Provider → Result Bytes)
      → Result Bytes
      → ℕ
      → String
      → Entry
      → Store
      → Option (Db Table)
      → Result (Unit {0}) × Store
  put_on provided random now name e s none = (err unavailable, s)
  put_on provided random now name e s (some db) =
      put_with random now name e db (encryption_key provided s)

  unfoldable pub put :
      (Provider → Result Bytes)
      → Result Bytes
      → ℕ
      → String
      → Entry
      → Store
      → Result (Unit {0}) × Store
  unfolding encryption_key seal encrypt
  put provided random now name e s = put_on provided random now name e s s.kv

abbrev pub delete_on : String → Store → Option (Db Table) → Result (Unit {0}) × Store
delete_on name s none = (err unavailable, s)
delete_on name s (some db) =
    let (r, db') = Kv.delete s.ns name db in (r, record s { kv = some db' })

unfoldable pub delete : String → Store → Result (Unit {0}) × Store
delete name s = delete_on name s s.kv

-- The methods on a nil *Store.
module _ {A : Type 0} where
  unfoldable pub on_sealed : (Store → Result A × Store) → Option Store → Result A × Option Store
  on_sealed m none = (err unavailable, none)
  on_sealed m (some s) = let (r, s') = m s in (r, some s')
