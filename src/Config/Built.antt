-- ===== src/Config/Built.antt =====
-- addStructFields of config/config.go, for fields whose names and nodes are known, and how a setting
-- is found under its own name.
use sisyphus.Prelude.{
  ◌≡◌, refl, subst, inl, inr, Bool, true, false, ◌||◌, List, [], ◌∷◌, ◌++◌, map, if◌then◌else◌, All,
  Option, none, some, Bool-cases, is_some,
}
use sisyphus.Prelude.Runes.{Text, Tables, codes, same, join, is_blank}
use sisyphus.Config.Schema.{
  EnvNode, absent, node, Children, no_child, child, child_of, has_none, has_child, lookup, leaf,
  splits, normalize_env_key, and_normalized, matches, child_paths, resolve, resolve_child,
}
use sisyphus.Config.Resolved.{IsNode, IsBuilt, AreBuilt}

module _ (tables : Tables) where
  abbrev pub with_normalized : Text → List (Text × Text) → List (Text × Text)
  with_normalized name normalized =
      let norm = normalize_env_key tables name in
      if is_blank norm || is_some (lookup norm normalized)
      then normalized
      else (norm, name) ∷ normalized

  -- The fields in their order; the first of a name counts.
  unfoldable pub add_struct_fields : List (Text × EnvNode) → Children → List (Text × Text) → EnvNode
  unfolding same normalize_env_key
  add_struct_fields [] cs normalized = node cs normalized false [] absent
  add_struct_fields ((name, n) ∷ fields) cs normalized =
      let skip = add_struct_fields fields cs normalized in
      let added = add_struct_fields fields (child name n cs) (with_normalized name normalized) in
      if same name (codes "-") || is_blank name || has_child name cs then skip else added

  with_normalized-All :
      (name : Text) (normalized : List (Text × Text))
      → All (λ e. normalize_env_key tables e.1 ≡ e.0) normalized
      → All (λ e. normalize_env_key tables e.1 ≡ e.0) (with_normalized name normalized)
  with_normalized-All name normalized h =
      elim (Bool-cases (
        is_blank (normalize_env_key tables name)
        || is_some (lookup (normalize_env_key tables name) normalized))) [
          | inl e ↦ rw e h
          | inr e ↦ rw e (refl, h)
        ]

  -- The node of a struct is built well from those of its fields.
  pub add_struct_fields-IsBuilt :
      (fields : List (Text × EnvNode)) (cs : Children) (normalized : List (Text × Text))
      → All (λ f. IsBuilt tables f.1) fields
      → AreBuilt tables cs
      → All (λ e. normalize_env_key tables e.1 ≡ e.0) normalized
      → IsBuilt tables (add_struct_fields fields cs normalized)
  unfolding add_struct_fields
  add_struct_fields-IsBuilt [] cs normalized h k l = (l, k, tt, λ q. cc)
  add_struct_fields-IsBuilt ((name, n) ∷ fields) cs normalized h k l =
      elim (Bool-cases (same name (codes "-") || is_blank name || has_child name cs)) [
        | inl e ↦ rw e (add_struct_fields-IsBuilt fields cs normalized h.1 k l)
        | inr e ↦ rw e (
            add_struct_fields-IsBuilt fields (child name n cs) (with_normalized name normalized) h.1
              (h.0, k) (with_normalized-All name normalized l))
      ]

  splits-whole :
      (t : Text) (ts : List Text)
      → (more : List (List Text × List Text)) × (splits (t ∷ ts) ≡ (t ∷ ts, []) ∷ more)
  unfolding splits
  splits-whole t [] = ([], refl)
  splits-whole t (u ∷ ts) =
      let (more, e) = splits-whole u ts in
      (map (λ s. (t ∷ s.0, s.1)) more ++ (t ∷ [], u ∷ ts) ∷ [], rw e refl)

  and_normalized-first :
      (name : Text) (o : Option Text)
      → (more : List Text) × (and_normalized (name ∷ []) o ≡ name ∷ more)
  and_normalized-first name none = ([], refl)
  and_normalized-first name (some other) = elim (Bool-cases (same name other)) [
    | inl e ↦ ([], rw e refl)
    | inr e ↦ (other ∷ [], rw e refl)
  ]

  has_none-has_child :
      (name : Text) (cs : Children) → has_child name cs ≡ true → has_none cs ≡ false
  has_none-has_child name no_child h = cc
  has_none-has_child name (child k n cs) h = refl

  matches-first :
      (cs : Children) (normalized : List (Text × Text)) (tokens : List Text)
      → has_child (join 95 tokens) cs ≡ true
      → (more : List Text) × (matches tables cs normalized tokens ≡ join 95 tokens ∷ more)
  unfolding matches
  matches-first cs normalized tokens h =
      rw (has_none-has_child (join 95 tokens) cs h) (rw h (and_normalized-first (join 95 tokens) _))

  resolve-nil : (n : EnvNode) → IsNode n → leaf n ≡ true → resolve tables n [] ≡ (some [], true)
  unfolding resolve
  resolve-nil absent h e = absurd h
  resolve-nil (node cs normalized dynamic keys val) h e = rw e refl

  resolve_child-child_of :
      (cs : Children) (name : Text) (tokens : List Text)
      → IsNode (child_of name cs)
      → resolve_child tables cs name tokens ≡ resolve tables (child_of name cs) tokens
  unfolding resolve
  resolve_child-child_of no_child name tokens h = absurd h
  resolve_child-child_of (child k n cs) name tokens h = elim (Bool-cases (same k name)) [
    | inl e ↦ rw e refl
    | inr e ↦ rw e (
        resolve_child-child_of cs name tokens
          (subst (λ b. IsNode (if b then n else child_of name cs)) e h))
  ]

  -- A variable whose tokens, joined by _, are the name of a child that is a setting, resolves to that
  -- child, whatever else the schema has.
  pub resolve_own_name :
      (cs : Children) (normalized : List (Text × Text)) (dynamic : Bool) (keys : List Text)
      (val : EnvNode) (t : Text) (ts : List Text)
      → has_child (join 95 (t ∷ ts)) cs ≡ true
      → IsNode (child_of (join 95 (t ∷ ts)) cs)
      → leaf (child_of (join 95 (t ∷ ts)) cs) ≡ true
      → resolve tables (node cs normalized dynamic keys val) (t ∷ ts)
        ≡ (some (join 95 (t ∷ ts) ∷ []), true)
  unfolding resolve child_paths
  resolve_own_name cs normalized dynamic keys val t ts h n l = rw ((splits-whole t ts).1) (
      rw ((matches-first cs normalized (t ∷ ts) h).1) (
        rw (resolve_child-child_of cs (join 95 (t ∷ ts)) [] n)
          (rw (resolve-nil (child_of (join 95 (t ∷ ts)) cs) n l) refl)))
