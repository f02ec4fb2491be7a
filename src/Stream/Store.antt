-- ===== src/Stream/Store.antt =====
-- The interface KV of stream/persist.go: its operations over a state of the store, and what a
-- client relies on while the store is up.
use sisyphus.Prelude.{
  member, IsDistinct, ℕ, String, ◌≡◌, Bool, true, false, ◌&&◌, Option, none, some, List, [], ◌∷◌,
  str_eq, if◌then◌else◌,
}
use sisyphus.Fault.{Result, ok}
use sisyphus.Kv.{Entry}

pub record KvOps (S : Type 0) : Type 0 where
  pub get : String → String → S → Result (Option Entry) × S
  pub put : String → String → String → ℕ → S → Result (Unit {0}) × S
  pub delete : String → String → S → Result (Unit {0}) × S
  pub list : String → S → Result (List (String × Entry)) × S

abbrev pub names : List (String × Entry) → List String
names [] = []
names ((k, e) ∷ m) = k ∷ names m

abbrev pub is_stored : Option String → Bool
is_stored none = false
is_stored (some v) = true

abbrev pub value_of : Option Entry → Option String
value_of none = none
value_of (some e) = some e.value

-- A store that is up: what each operation returns, and does to the values that have not expired.
pub record KvLaws {S : Type 0} (kv : KvOps S) : Type 1 where
  pub IsUp : S → Type 0
  pub value : S → String → String → Option String
  -- That an expiry has passed; 0 is none.
  pub has_passed : ℕ → Bool
  pub get_lem :
      (ns k : String) (s : S)
      → IsUp s
      → (o : Option Entry) × ((kv.get ns k s).0 ≡ ok o) × (value_of o ≡ value s ns k)
  pub get-IsUp : (ns k : String) (s : S) → IsUp s → IsUp (kv.get ns k s).1
  pub get-value :
      (ns k ms j : String) (s : S) → IsUp s → value (kv.get ns k s).1 ms j ≡ value s ms j
  pub put_lem : (ns k v : String) (s : S) → IsUp s → (kv.put ns k v 0 s).0 ≡ ok tt
  pub put-IsUp : (ns k v : String) (s : S) → IsUp s → IsUp (kv.put ns k v 0 s).1
  pub put-value :
      (ns k v ms j : String) (s : S)
      → IsUp s
      → value (kv.put ns k v 0 s).1 ms j
        ≡ (if str_eq ns ms && str_eq k j then some v else value s ms j)
  pub put_until :
      (ns k v ms j : String) (t : ℕ) (s : S)
      → IsUp s
      → value (kv.put ns k v t s).1 ms j ≡ (
          if str_eq ns ms && str_eq k j
          then (if has_passed t then none else some v)
          else value s ms j)
  pub delete_lem : (ns k : String) (s : S) → IsUp s → (kv.delete ns k s).0 ≡ ok tt
  pub delete-IsUp : (ns k : String) (s : S) → IsUp s → IsUp (kv.delete ns k s).1
  pub delete-value :
      (ns k ms j : String) (s : S)
      → IsUp s
      → value (kv.delete ns k s).1 ms j
        ≡ (if str_eq ns ms && str_eq k j then none else value s ms j)
  pub list_lem :
      (ns : String) (s : S)
      → IsUp s
      → (m : List (String × Entry)) × ((kv.list ns s).0 ≡ ok m)
        × IsDistinct (names m)
        × ((k : String) → member k (names m) ≡ is_stored (value s ns k))
  pub list-IsUp : (ns : String) (s : S) → IsUp s → IsUp (kv.list ns s).1
  pub list-value : (ns ms j : String) (s : S) → IsUp s → value (kv.list ns s).1 ms j ≡ value s ms j
