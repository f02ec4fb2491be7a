-- ===== src/Secret.antt =====
-- secret/secret.go: which secret manager a name selects, and GetOrCreate over the interface Store,
-- whose state is the manager's. Whether the command-line tools are configured is an argument.
use sisyphus.Prelude.{
  String, ◌≡◌, refl, sym, ◌∙◌, Bool, false, Option, none, some, List, [], ◌∷◌, arith, str_eq,
  eq_iff, ap, Bool-cases, inl, inr, if◌then◌else◌, member,
}
use sisyphus.Fault.{Error, other, Result, ok, err}

-- A Backend is a text.
abbrev pub backend_auto : String
backend_auto = "auto"

abbrev pub backend_bitwarden : String
backend_bitwarden = "bitwarden"

abbrev pub backend_1password : String
backend_1password = "1password"

abbrev pub backend_keyring : String
backend_keyring = "keyring"

unfoldable pub backends : List String
backends = backend_auto ∷ backend_bitwarden ∷ backend_1password ∷ backend_keyring ∷ []

unfoldable pub parse_backend : String → Option String
parse_backend s =
    if member s ("" ∷ backend_auto ∷ [])
    then some backend_auto
    else if member s (backend_bitwarden ∷ "bw" ∷ [])
    then some backend_bitwarden
    else if member s (backend_1password ∷ "op" ∷ [])
    then some backend_1password
    else if str_eq s backend_keyring
    then some backend_keyring
    else none

-- The stores that Open returns; a keyring store has the name of its service.
pub data Manager : Type 0 where
  bw_store op_store : Manager
  keyring_store : String → Manager

unfoldable pub new_keyring_store : String → Manager
new_keyring_store service = keyring_store (if str_eq service "" then "sisyphus" else service)

abbrev pub unknown_backend : Error
unknown_backend = other 20

abbrev pub not_configured : Error
not_configured = other 21

abbrev pub selected : Bool → Bool → String → String → Result Manager
selected bw op service b =
    if str_eq b backend_bitwarden
    then (if bw then ok bw_store else err not_configured)
    else if str_eq b backend_1password
    then (if op then ok op_store else err not_configured)
    else if str_eq b backend_keyring
    then ok (new_keyring_store service)
    else if bw
    then ok bw_store
    else if op
    then ok op_store
    else ok (new_keyring_store service)

abbrev pub opened_backend : Bool → Bool → String → Option String → Result Manager
opened_backend bw op service none = err unknown_backend
opened_backend bw op service (some b) = selected bw op service b

-- `ctx_err` is what ctx.Err returns; `bw` and `op` say which tool is configured.
unfoldable pub open_backend : Option Error → Bool → Bool → String → String → Result Manager
unfolding parse_backend new_keyring_store
open_backend (some e) bw op backend service = err e
open_backend none bw op backend service = opened_backend bw op service (parse_backend backend)

-- The interface Store: what Get and Set return, and what they make of the manager.
pub record SecretOps (S : Type 0) : Type 0 where
  pub get : String → S → Result (Option String) × S
  pub set : String → String → S → Result (Unit {0}) × S

module _ {S : Type 0} (ops : SecretOps S) where
  abbrev pub stored_as : String → Result (Unit {0}) × S → Result String × S
  stored_as v (ok u, s) = (ok v, s)
  stored_as v (err e, s) = (err e, s)

  abbrev pub store_new : String → Result String → S → Result String × S
  store_new key (err e) s = (err e, s)
  store_new key (ok v) s = stored_as v (ops.set key v s)

  abbrev pub found_or : Result String → String → Result (Option String) × S → Result String × S
  found_or gen key (err e, s) = (err e, s)
  found_or gen key (ok (some v), s) = (ok v, s)
  found_or gen key (ok none, s) = store_new key gen s

  -- `gen` is what a call of gen would return.
  unfoldable pub get_or_create : Result String → String → S → Result String × S
  get_or_create gen key s = found_or gen key (ops.get key s)

-- What a manager promises: a value that Get finds or that Set has stored is found by every later Get
-- that returns no error, and a Set of one key, also where it fails, leaves the others alone.
pub record SecretLaws {S : Type 0} (ops : SecretOps S) : Type 0 where
  pub holds : String → S → Option String
  pub get_holds :
      (key : String) (s : S) (o : Option String) → (ops.get key s).0 ≡ ok o → o ≡ holds key s
  pub get_keeps : (key j : String) (s : S) → holds j (ops.get key s).1 ≡ holds j s
  pub set_holds :
      (key v : String) (s : S)
      → (ops.set key v s).0 ≡ ok tt
      → holds key (ops.set key v s).1 ≡ some v
  pub set_keeps :
      (key v j : String) (s : S) → str_eq key j ≡ false → holds j (ops.set key v s).1 ≡ holds j s

module _ {S : Type 0} (ops : SecretOps S) (laws : SecretLaws ops) where
  stored_as-holds :
      (key v w : String) (r : Result (Unit {0}) × S)
      → (r.0 ≡ ok tt → laws.holds key r.1 ≡ some v)
      → (stored_as ops v r).0 ≡ ok w
      → laws.holds key (stored_as ops v r).1 ≡ some w
  stored_as-holds key v w (ok tt, s) h e = ground (arith, h refl)
  stored_as-holds key v w (err x, s) h e = cc

  store_new-holds :
      (key w : String) (gen : Result String) (s : S)
      → (store_new ops key gen s).0 ≡ ok w
      → laws.holds key (store_new ops key gen s).1 ≡ some w
  store_new-holds key w (err x) s e = cc
  store_new-holds key w (ok v) s e =
      stored_as-holds key v w (ops.set key v s) (laws.set_holds key v s) e

  found_or-holds :
      (gen : Result String) (key w : String) (r : Result (Option String) × S)
      → ((o : Option String) → r.0 ≡ ok o → o ≡ laws.holds key r.1)
      → (found_or ops gen key r).0 ≡ ok w
      → laws.holds key (found_or ops gen key r).1 ≡ some w
  found_or-holds gen key w (err x, s) h e = cc
  found_or-holds gen key w (ok (some v), s) h e = ground (arith, h (some v) refl)
  found_or-holds gen key w (ok none, s) h e = store_new-holds key w gen s e

  -- A key that GetOrCreate returned is held from then on.
  pub get_or_create-holds :
      (gen : Result String) (key w : String) (s : S)
      → (get_or_create ops gen key s).0 ≡ ok w
      → laws.holds key (get_or_create ops gen key s).1 ≡ some w
  unfolding get_or_create
  get_or_create-holds gen key w s e =
      found_or-holds gen key w (ops.get key s)
        (λ o h. laws.get_holds key s o h ∙ sym (laws.get_keeps key key s)) e

  found_or-finds :
      (gen : Result String) (key v w : String) (r : Result (Option String) × S)
      → ((o : Option String) → r.0 ≡ ok o → o ≡ some v)
      → (found_or ops gen key r).0 ≡ ok w
      → w ≡ v
  found_or-finds gen key v w (err x, s) h e = cc
  found_or-finds gen key v w (ok (some u), s) h e = ground (arith, h (some u) refl)
  found_or-finds gen key v w (ok none, s) h e = let no_value : none ≡ some v = h none refl in cc

  found_or-writes_nothing :
      (gen : Result String) (key v : String) (r : Result (Option String) × S)
      → ((o : Option String) → r.0 ≡ ok o → o ≡ some v)
      → (found_or ops gen key r).1 ≡ r.1
  found_or-writes_nothing gen key v (err x, s) h = refl
  found_or-writes_nothing gen key v (ok (some u), s) h = refl
  found_or-writes_nothing gen key v (ok none, s) h =
      let no_value : none ≡ some v = h none refl in cc

  stored_as-state : (v : String) (r : Result (Unit {0}) × S) → (stored_as ops v r).1 ≡ r.1
  stored_as-state v (ok u, s) = refl
  stored_as-state v (err x, s) = refl

  found_or-keeps :
      (gen : Result String) (key j : String) (r : Result (Option String) × S)
      → str_eq key j ≡ false
      → laws.holds j (found_or ops gen key r).1 ≡ laws.holds j r.1
  found_or-keeps gen key j (err x, s) h = refl
  found_or-keeps gen key j (ok (some u), s) h = refl
  found_or-keeps (err x) key j (ok none, s) h = refl
  found_or-keeps (ok v) key j (ok none, s) h =
      ap (laws.holds j) (stored_as-state v (ops.set key v s)) ∙ laws.set_keeps key v j s h

  -- Calls one after the other, each with its key and what its gen would return.
  abbrev pub get_or_create_all : List (String × Result String) → S → S
  get_or_create_all [] s = s
  get_or_create_all (c ∷ calls) s = get_or_create_all calls (get_or_create ops c.1 c.0 s).1

  get_or_create-keeps :
      (gen : Result String) (key j v : String) (s : S)
      → laws.holds j s ≡ some v
      → laws.holds j (get_or_create ops gen key s).1 ≡ some v
  unfolding get_or_create
  get_or_create-keeps gen key j v s h = elim (Bool-cases (str_eq key j)) [
    | inl e ↦
        let q : key ≡ j = (eq_iff key j).0 e in
        ap (laws.holds j) (
          found_or-writes_nothing gen key v (ops.get key s)
            (λ o k. laws.get_holds key s o k ∙ ap (λ x. laws.holds x s) q ∙ h))
        ∙ laws.get_keeps key j s
        ∙ h
    | inr e ↦ found_or-keeps gen key j (ops.get key s) e ∙ laws.get_keeps key j s ∙ h
  ]

  get_or_create_all-keeps :
      (calls : List (String × Result String)) (j v : String) (s : S)
      → laws.holds j s ≡ some v
      → laws.holds j (get_or_create_all calls s) ≡ some v
  get_or_create_all-keeps [] j v s h = h
  get_or_create_all-keeps (c ∷ calls) j v s h =
      get_or_create_all-keeps calls j v (get_or_create ops c.1 c.0 s).1
        (get_or_create-keeps c.1 c.0 j v s h)

  -- GetOrCreate mints one value: on a manager that keeps what it stores, once it has returned a value
  -- for a key, then after any calls of GetOrCreate, for this key or others, and whatever they
  -- generate, one for the key that returns no error returns the same value. The calls are made one
  -- after the other.
  pub get_or_create_stable :
      (gen gen' : Result String) (key v w : String) (calls : List (String × Result String)) (s : S)
      → (get_or_create ops gen key s).0 ≡ ok v
      → (get_or_create ops gen' key (get_or_create_all calls (get_or_create ops gen key s).1)).0
        ≡ ok w
      → w ≡ v
  get_or_create_stable gen gen' key v w calls s e h =
      let s' = get_or_create_all calls (get_or_create ops gen key s).1 in
      unfold get_or_create in
      found_or-finds gen' key v w (ops.get key s')
        (λ o q.
          laws.get_holds key s' o q
          ∙ get_or_create_all-keeps calls key v (get_or_create ops gen key s).1
              (get_or_create-holds gen key v s e))
        h
