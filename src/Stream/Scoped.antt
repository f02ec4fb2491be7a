-- ===== src/Stream/Scoped.antt =====
-- stream/kvscope.go: a store confined to the namespaces under a prefix.
use Prim.Native.String.{◌++◌ as append}
use text.Mathlib.TextLemmas.{append_cancel_left}
use text.Mathlib.TextPositions.{starts_with-append}
use text.Mathlib.Text.{starts_with}
use sisyphus.Prelude.{
  ℕ, none, some, if◌then◌else◌, eq_refl, refl, String, ◌≡◌, ap, sym, ◌∙◌, inl, inr, true, false,
  str_eq, eq_iff, Bool-cases,
}
use sisyphus.Stream.Store.{KvOps, KvLaws}

unfoldable pub scope : String → String → String
scope prefix namespace = append prefix namespace

unfoldable pub scoped_kv : {S : Type 0} → KvOps S → String → KvOps S
scoped_kv kv prefix = record {
  get = λ ns k s. kv.get (scope prefix ns) k s;
  put = λ ns k v t s. kv.put (scope prefix ns) k v t s;
  delete = λ ns k s. kv.delete (scope prefix ns) k s;
  list = λ ns s. kv.list (scope prefix ns) s;
}

same_scope : (p ns ms : String) → str_eq (scope p ns) (scope p ms) ≡ str_eq ns ms
unfolding scope
same_scope p ns ms = elim (Bool-cases (str_eq (append p ns) (append p ms))) [
  | inl e ↦
      e
      ∙ sym
          ((eq_iff ns ms).1 (append_cancel_left p ns ms ((eq_iff (append p ns) (append p ms)).0 e)))
  | inr e ↦ e ∙ sym (apart e)
]
  where
    apart : str_eq (append p ns) (append p ms) ≡ false → str_eq ns ms ≡ false
    apart e = elim (Bool-cases (str_eq ns ms)) [
      | inl q ↦
          (let r : str_eq (append p ns) (append p ms) ≡ true =
              (eq_iff (append p ns) (append p ms)).1 (ap (λ x. append p x) ((eq_iff ns ms).0 q)) in
            cc)
      | inr q ↦ q
    ]

outside : (p ns ms : String) → starts_with ms p ≡ false → str_eq (scope p ns) ms ≡ false
unfolding scope
outside p ns ms h = elim (Bool-cases (str_eq (append p ns) ms)) [
  | inl e ↦
      (let q : starts_with ms p ≡ true =
          ap (λ x. starts_with x p) (sym ((eq_iff (append p ns) ms).0 e))
          ∙ starts_with-append p ns in
        cc)
  | inr e ↦ e
]

module _ {S : Type 0} (kv : KvOps S) (laws : KvLaws kv) (p : String) where
  -- A scoped store is a store again: within its prefix the laws of the store below hold.
  pub scoped_laws : KvLaws (scoped_kv kv p)
  unfolding scoped_kv
  scoped_laws = record {
    IsUp = laws.IsUp;
    value = λ s ns k. laws.value s (scope p ns) k;
    get_lem = λ ns k s up. laws.get_lem (scope p ns) k s up;
    get-IsUp = λ ns k s up. laws.get-IsUp (scope p ns) k s up;
    get-value = λ ns k ms j s up. laws.get-value (scope p ns) k (scope p ms) j s up;
    put_lem = λ ns k v s up. laws.put_lem (scope p ns) k v s up;
    put-IsUp = λ ns k v s up. laws.put-IsUp (scope p ns) k v s up;
    put-value =
        λ ns k v ms j s up. laws.put-value (scope p ns) k v (scope p ms) j s up ∙ rw same_scope;
    has_passed = laws.has_passed;
    put_until =
        λ ns k v ms j t s up. laws.put_until (scope p ns) k v (scope p ms) j t s up ∙ rw same_scope;
    delete_lem = λ ns k s up. laws.delete_lem (scope p ns) k s up;
    delete-IsUp = λ ns k s up. laws.delete-IsUp (scope p ns) k s up;
    delete-value =
        λ ns k ms j s up. laws.delete-value (scope p ns) k (scope p ms) j s up ∙ rw same_scope;
    list_lem = λ ns s up. laws.list_lem (scope p ns) s up;
    list-IsUp = λ ns s up. laws.list-IsUp (scope p ns) s up;
    list-value = λ ns ms j s up. laws.list-value (scope p ns) (scope p ms) j s up;
  }

  -- On a store that is up, a component that holds the scoped store alone changes no value of a
  -- namespace that does not begin with the prefix, by Get, List, Delete or a Put with any expiry; and
  -- within the prefix a Put stores its value until the expiry that it was given.
  pub scoped_isolated :
      (ns k v ms j : String) (t : ℕ) (s : S)
      → laws.IsUp s
      → starts_with ms p ≡ false
      → let kv' = scoped_kv kv p in
        (laws.value (kv'.get ns k s).1 ms j ≡ laws.value s ms j)
        × (laws.value (kv'.put ns k v t s).1 ms j ≡ laws.value s ms j)
        × (laws.value (kv'.delete ns k s).1 ms j ≡ laws.value s ms j)
        × (laws.value (kv'.list ns s).1 ms j ≡ laws.value s ms j)
        × (laws.value (kv'.put ns k v t s).1 (scope p ns) k
            ≡ (if laws.has_passed t then none else some v))
  unfolding scoped_kv
  scoped_isolated ns k v ms j t s up h = (
    laws.get-value (scope p ns) k ms j s up,
    laws.put_until (scope p ns) k v ms j t s up ∙ rw (outside p ns ms h),
    laws.delete-value (scope p ns) k ms j s up ∙ rw (outside p ns ms h),
    laws.list-value (scope p ns) ms j s up,
    laws.put_until (scope p ns) k v (scope p ns) k t s up
        ∙ rw (eq_refl (scope p ns)) (rw (eq_refl k) refl),
  )
