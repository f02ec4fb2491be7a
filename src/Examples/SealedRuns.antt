-- ===== src/Examples/SealedRuns.antt =====
-- sealed/sealed.go, secret/secret.go and internal/crypt/crypt.go with a toy cipher and codecs that
-- meet what is relied on.
use Prim.Native.Char.{code}
use sisyphus.Prelude.{
  ℕ, zero, suc, ◌+◌, String, ◌≡◌, refl, sym, ap, ◌∙◌, Bool, true, false, ◌&&◌, Option, none, some,
  [], ◌∷◌, arith, str_eq, eq_iff, eq_refl, ◌==◌, if◌then◌else◌,
}
use sisyphus.Fault.{other, undecodable, Result, ok, err}
use sisyphus.Engine.{Db}
use sisyphus.Crypt.{Bytes, Gcm}
use sisyphus.Secret.{
  SecretOps, SecretLaws, get_or_create, get_or_create_stable, open_backend, keyring_store, op_store,
}
use sisyphus.Kv.{Table, expired}
use sisyphus.Kv.Table.{view}
use sisyphus.Sealed.{Entry, Lib, Provider, given_provider, Store, encryption_key, get, put}
use sisyphus.Sealed.Sealing.{LibLaws, get-put}
use sisyphus.Sealed.Authenticity.{Authentic, get-Authentic}

auto_falls_through : open_backend none false true "" "" ≡ ok op_store
unfolding open_backend
auto_falls_through = refl

keyring_default : open_backend none false false "keyring" "" ≡ ok (keyring_store "sisyphus")
unfolding open_backend
keyring_default = refl

-- A manager that keeps what it stores.
abbrev vault : SecretOps (String → Option String)
vault = record {
  get = λ k s. (ok (s k), s);
  set = λ k v s. (ok tt, λ j. if str_eq k j then some v else s j);
}

ok-inj : {A : Type 0} (a b : A) → ok a ≡ ok b → b ≡ a
ok-inj a b e = cc

vault-laws : SecretLaws vault
vault-laws = record {
  holds = λ k s. s k;
  get_holds = λ k s o e. ok-inj (s k) o e;
  get_keeps = λ k j s. refl;
  set_holds = λ k v s e. rw (eq_refl k);
  set_keeps = λ k v j s e. rw e refl;
}

abbrev empty : String → Option String
empty k = none

-- A call for another key comes between.
get_or_create_stable_example : ◌≡◌ {A = String} "old" "old"
unfolding get_or_create
get_or_create_stable_example =
    get_or_create_stable vault vault-laws (ok "old") (ok "new") "k" "old" "old"
      (("j", ok "other") ∷ []) empty refl refl

-- Numbers in a text, as so many a before a b.
tally : ℕ → String → String
tally zero s = String.◌∷◌ "b" s
tally (suc n) s = String.◌∷◌ "a" (tally n s)

encode : Bytes → String
unfolding tally
encode [] = String.[]
encode (n ∷ b) = tally n (encode b)

decode : ℕ → String → Bytes
decode acc String.[] = []
decode acc (String.◌∷◌ c s) =
    let more = decode (suc acc) s in
    let next = decode 0 s in if code c == b'a' then more else acc ∷ next

decode-tally : (n acc : ℕ) (s : String) → decode acc (tally n s) ≡ (acc + n) ∷ decode 0 s
unfolding decode tally
decode-tally zero acc s = ap (λ k. k ∷ decode 0 s) (omega arith)
decode-tally (suc n) acc s = decode-tally n (suc acc) s ∙ ap (λ k. k ∷ decode 0 s) (omega arith)

decode-encode : (b : Bytes) → decode 0 (encode b) ≡ b
unfolding encode
decode-encode [] = unfold decode in refl
decode-encode (n ∷ b) = decode-tally n 0 (encode b) ∙ cc (decode-encode b, zero_plus n)
  where
    zero_plus : (n : ℕ) → 0 + n ≡ n
    zero_plus n = omega arith

-- The cipher that hides nothing, with nonces of two bytes.
abbrev plain_gcm : Gcm
plain_gcm = record {
  nonce_size = 2;
  seal = λ key nonce plain. plain;
  open_sealed = λ key nonce sealed. ok sealed;
}

abbrev token : Entry
token = record { access_token = "t"; refresh_token = ""; scope = "s"; expiry = 11; ttl = 40 }

abbrev is_token : Entry → Bool
is_token e =
    str_eq e.access_token "t"
    && str_eq e.refresh_token ""
    && str_eq e.scope "s"
    && e.expiry == 11
    && e.ttl == 40

-- JSON for one entry.
abbrev lib : Lib
lib = record {
  gcm = plain_gcm;
  encode64 = encode;
  decode64 = λ s. ok (decode 0 s);
  marshal = λ e. if is_token e then ok (1 ∷ []) else err (other 1);
  unmarshal = λ b. ok token;
}

token_only : (e : Entry) (b : Bytes) → lib.marshal e ≡ ok b → lib.unmarshal b ≡ ok e
token_only e b h =
    ground (arith, eq_iff e.access_token "t", eq_iff e.refresh_token "", eq_iff e.scope "s")

lib-laws : LibLaws lib
lib-laws = record {
  gcm_laws = record {
    opens = λ key nonce plain. refl;
    authentic = λ key nonce sealed plain e. sym (ok-inj sealed plain e);
  };
  decodes = λ b. ap ok (decode-encode b);
  unmarshals = token_only;
}

abbrev key : Bytes
key =
    1 ∷ 2 ∷ 3 ∷ 4 ∷ 5 ∷ 6 ∷ 7 ∷ 8 ∷ 1 ∷ 2 ∷ 3 ∷ 4 ∷ 5 ∷ 6 ∷ 7 ∷ 8 ∷ 1 ∷ 2 ∷ 3 ∷ 4 ∷ 5 ∷ 6 ∷ 7 ∷ 8
    ∷ 1 ∷ 2 ∷ 3 ∷ 4 ∷ 5 ∷ 6 ∷ 7 ∷ 8 ∷ []

abbrev provided : Provider → Result Bytes
provided p = ok key

abbrev store : Store
store = record {
  kv = some (record { table = []; faults = [] });
  ns = "sealed";
  provider = given_provider;
  key = none;
}

get-put_example :
    ((put lib provided (ok (9 ∷ 9 ∷ [])) 10 "gh" token store).0 ≡ ok tt)
    × ((get lib provided 30 "gh" (put lib provided (ok (9 ∷ 9 ∷ [])) 10 "gh" token store).1).0
        ≡ ok (some token))
unfolding expired encryption_key
get-put_example =
    get-put lib lib-laws provided provided (9 ∷ 9 ∷ []) (1 ∷ []) key 10 30 "gh" token store [] refl
      refl refl refl refl

-- What Put writes.
abbrev sealed_db : Db Table
sealed_db = record {
  table =
      record {
        namespace = "sealed";
        key = "gh";
        value = "aaaaaaaaabaaaaaaaaabab";
        expiry = none;
        updated_at = 3;
      }
      ∷ [];
  faults = [];
}

get_sealed : (get lib provided 10 "gh" (record store { kv = some sealed_db })).0 ≡ ok (some token)
unfolding get encryption_key sisyphus.Kv.get decode
get_sealed = refl

-- Get returns the entry, so its text was sealed under the key.
get-Authentic_example :
    Authentic lib lib-laws (ok key) (view 10 sealed_db.table "sealed" "gh") (ok (some token))
unfolding get encryption_key sisyphus.Kv.get decode
get-Authentic_example =
    get-Authentic lib lib-laws provided 10 "gh" (record store { kv = some sealed_db }) sealed_db
      refl

-- A row that was never sealed.
abbrev planted : Db Table
planted = record {
  table =
      record { namespace = "sealed"; key = "gh"; value = "b"; expiry = none; updated_at = 3 } ∷ [];
  faults = [];
}

planted_refused :
    (get lib provided 10 "gh" (record store { kv = some planted })).0 ≡ err undecodable
unfolding get encryption_key sisyphus.Kv.get decode
planted_refused = refl
