-- ===== src/Config/Resolved.antt =====
-- What envNode.resolve of config/config.go returns.
use sisyphus.Prelude.{
  All-map, All-if, ◌≡◌, refl, ap, subst, append-nil, ◌∙◌, ◌⊎◌, inl, inr, Bool, true, false, List,
  [], ◌∷◌, ◌++◌, map, All, All-imp, All-append, Option, none, some, Bool-cases,
}
use sisyphus.Prelude.Runes.{Text, Tables, same, join}
use sisyphus.Config.Schema.{
  EnvNode, absent, node, Children, no_child, child, child_of, has_none, has_child, lookup, leaf,
  joined, splits, flat_map, Answer, prepend, Outcome, returns, ends, settle, last_resort,
  after_dynamic, after_children, is_separator, normalize_env_key, and_normalized, matches, keys_for,
  child_paths, dynamic_paths, resolve, resolve_child,
}
use sisyphus.Config.Names.{
  same-eq, All-flat_map, splits-append, Spells, Spells-append, normalize_env_key-join,
}

-- A node that there is.
abbrev pub IsNode : EnvNode → Type 0
IsNode absent = ⊥
IsNode (node cs normalized dynamic keys val) = Unit {0}

-- The path goes through the schema, node by node, to one that is a setting, if `ok`, or else a section.
abbrev pub Leads : EnvNode → List Text → Bool → Type 0
Leads n [] ok = IsNode n × (leaf n ≡ ok)
Leads absent (x ∷ path) ok = ⊥
Leads (node cs normalized dynamic keys val) (x ∷ path) ok =
    Leads (child_of x cs) path ok ⊎ ((dynamic ≡ true) × Leads val path ok)

-- The answers whose path, if they have one, is as it should be.
abbrev pub Sound : (List Text → Bool → Type 0) → Answer → Type 0
Sound P (none, ok) = Unit {0}
Sound P (some path, ok) = P path ok

abbrev Settles : (List Text → Bool → Type 0) → Outcome → Type 0
Settles P (returns path) = P path true
Settles P (ends section) = Sound P (section, false)

settle-Settles :
    (P : List Text → Bool → Type 0) (section : Option (List Text)) (answers : List Answer)
    → Sound P (section, false)
    → All (Sound P) answers
    → Settles P (settle section answers)
settle-Settles P section [] h k = h
settle-Settles P section ((none, ok) ∷ more) h k = settle-Settles P section more h k.1
settle-Settles P section ((some path, true) ∷ more) h k = k.0
settle-Settles P none ((some path, false) ∷ more) h k = settle-Settles P (some path) more k.0 k.1
settle-Settles P (some s) ((some path, false) ∷ more) h k = settle-Settles P (some s) more h k.1

module _ (tables : Tables) where
  -- Each name of `normalized` stands under what it normalizes to, and a node with dynamic keys has a
  -- node for their values.
  abbrev mutual
    pub IsBuilt : EnvNode → Type 0
    IsBuilt absent = Unit {0}
    IsBuilt (node cs normalized dynamic keys val) =
        All (λ e. normalize_env_key tables e.1 ≡ e.0) normalized
        × AreBuilt cs
        × IsBuilt val
        × (dynamic ≡ true → IsNode val)

    pub AreBuilt : Children → Type 0
    AreBuilt no_child = Unit {0}
    AreBuilt (child k n cs) = IsBuilt n × AreBuilt cs

  -- A path that leads where `ok` says and spells the tokens.
  abbrev pub Names : EnvNode → List Text → List Text → Bool → Type 0
  Names n tokens path ok = Leads n path ok × Spells tables path tokens

  abbrev Named : Text → Option Text → Type 0
  Named norm none = Unit {0}
  Named norm (some name) = normalize_env_key tables name ≡ norm

  lookup-Named :
      (norm : Text) (es : List (Text × Text))
      → All (λ e. normalize_env_key tables e.1 ≡ e.0) es
      → Named norm (lookup norm es)
  lookup-Named norm [] h = tt
  lookup-Named norm (e ∷ es) h = elim (Bool-cases (same e.0 norm)) [
    | inl q ↦ rw q (h.0 ∙ same-eq e.0 norm q)
    | inr q ↦ rw q (lookup-Named norm es h.1)
  ]

  and_normalized-All :
      (norm : Text) (out : List Text) (o : Option Text)
      → All (λ n. normalize_env_key tables n ≡ norm) out
      → Named norm o
      → All (λ n. normalize_env_key tables n ≡ norm) (and_normalized out o)
  and_normalized-All norm out none h k = h
  and_normalized-All norm [] (some name) h k = (k, tt)
  and_normalized-All norm (first ∷ out) (some name) h k =
      All-if _ (same first name) _ _ (λ e. h) (λ e. (h.0, All-append _ out (name ∷ []) h.1 (k, tt)))

  abbrev Reads : List Text → Text → Type 0
  Reads tokens name = normalize_env_key tables name ≡ normalize_env_key tables (joined tokens)

  matches-All :
      (cs : Children) (normalized : List (Text × Text)) (tokens : List Text)
      → is_separator (tables.to_lower 95) ≡ true
      → All (λ e. normalize_env_key tables e.1 ≡ e.0) normalized
      → All (Reads tokens) (matches tables cs normalized tokens)
  unfolding matches
  matches-All cs normalized tokens low h =
      All-if _ (has_none cs) _ _ (λ e. tt)
        (λ e.
          and_normalized-All (normalize_env_key tables (joined tokens)) _ _
            (All-if _ (has_child (join 95 tokens) cs) _ _
              (λ e. (normalize_env_key-join tables 95 tokens low, tt)) (λ e. tt))
            (lookup-Named (normalize_env_key tables (joined tokens)) normalized h))

  keys_for-All : (keys tokens : List Text) → All (Reads tokens) (keys_for tables keys tokens)
  keys_for-All [] tokens = tt
  keys_for-All (key ∷ keys) tokens =
      All-if _ (same (normalize_env_key tables key) (normalize_env_key tables (joined tokens))) _ _
        (λ e. (
          same-eq (normalize_env_key tables key) (normalize_env_key tables (joined tokens)) e,
          keys_for-All keys tokens,
        ))
        (λ e. keys_for-All keys tokens)

  prepend-Sound :
      (n m : EnvNode) (name : Text) (xs ys : List Text) (answer : Answer)
      → Reads xs name
      → ((path : List Text) (ok : Bool) → Leads m path ok → Leads n (name ∷ path) ok)
      → Sound (Names m ys) answer
      → Sound (Names n (xs ++ ys)) (prepend name answer)
  prepend-Sound n m name xs ys (none, ok) e f h = tt
  prepend-Sound n m name xs ys (some path, ok) e f h =
      (f path ok h.0, Spells-append tables name path xs ys e h.1)

  paths-Sound :
      (n : EnvNode) (answer : Text → List Text → Answer) (names_of : List Text → List Text)
      (tokens : List Text)
      → ((xs : List Text) → All (Reads xs) (names_of xs))
      → ((name : Text) (xs ys : List Text)
          → Reads xs name
          → Sound (Names n (xs ++ ys)) (prepend name (answer name ys)))
      → All (Sound (Names n tokens)) (
          flat_map
            (λ s. map (λ name. prepend name (answer name s.1)) (names_of s.0))
            (splits tokens))
  paths-Sound n answer names_of tokens g f =
      All-flat_map _ (λ s. s.0 ++ s.1 ≡ tokens) _ (splits tokens)
        (λ s e.
          All-map _ (λ name. prepend name (answer name s.1)) (names_of s.0)
            (All-imp (names_of s.0)
              (λ name r.
                subst (λ t. Sound (Names n t) (prepend name (answer name s.1))) e
                  (f name s.0 s.1 r))
              (g s.0)))
        (splits-append tokens)

  last_resort-Sound :
      (n val : EnvNode) (tokens : List Text) (section : Option (List Text))
      → is_separator (tables.to_lower 46) ≡ true
      → ((name : Text) → Leads val [] true → Leads n (name ∷ []) true)
      → IsNode val
      → Sound (Names n tokens) (section, false)
      → Sound (Names n tokens) (last_resort (leaf val) tokens section)
  last_resort-Sound n val tokens (some section) low f k h = h
  last_resort-Sound n val tokens none low f k h = elim (Bool-cases (leaf val)) [
    | inl e ↦ rw e (
      f (join 46 tokens) (k, e),
      ap (normalize_env_key tables) (append-nil (join 46 tokens))
          ∙ normalize_env_key-join tables 46 tokens low,
    )
    | inr e ↦ rw e tt
  ]

  after_dynamic-Sound :
      (n val : EnvNode) (tokens : List Text) (o : Outcome)
      → is_separator (tables.to_lower 46) ≡ true
      → ((name : Text) → Leads val [] true → Leads n (name ∷ []) true)
      → IsNode val
      → Settles (Names n tokens) o
      → Sound (Names n tokens) (after_dynamic (leaf val) tokens o)
  after_dynamic-Sound n val tokens (returns path) low f k h = h
  after_dynamic-Sound n val tokens (ends section) low f k h =
      last_resort-Sound n val tokens section low f k h

  after_children-Sound :
      (cs : Children) (normalized : List (Text × Text)) (dynamic : Bool) (keys : List Text)
      (val : EnvNode) (tokens : List Text) (answers : List Answer) (o : Outcome)
      → is_separator (tables.to_lower 46) ≡ true
      → (dynamic ≡ true → IsNode val)
      → (dynamic ≡ true → All (Sound (Names (node cs normalized dynamic keys val) tokens)) answers)
      → Settles (Names (node cs normalized dynamic keys val) tokens) o
      → Sound
          (Names (node cs normalized dynamic keys val) tokens)
          (after_children dynamic (leaf val) tokens answers o)
  after_children-Sound cs normalized dynamic keys val tokens answers (returns path) low v k h = h
  after_children-Sound cs normalized false keys val tokens answers (ends section) low v k h = h
  after_children-Sound cs normalized true keys val tokens answers (ends section) low v k h =
      after_dynamic-Sound (node cs normalized true keys val) val tokens (settle section answers) low
        (λ name e. inr (refl, e)) (v refl) (settle-Settles _ section answers h (k refl))

  -- Go's unicode.ToLower leaves _ and . alone.
  abbrev pub KeepsSeparators : Type 0
  KeepsSeparators = (tables.to_lower 95 ≡ 95) × (tables.to_lower 46 ≡ 46)

  mutual
    unfolding resolve child_paths dynamic_paths

    -- The path that a variable's name resolves to leads through the fields and the keys of the schema
    -- to a setting, if resolve says that it can be set, and to a section otherwise; and put together
    -- it is the name, but for case and separators. So it is where each entry of `normalized` stands
    -- under what its name normalizes to and each node with dynamic keys has a node for their values,
    -- and where Go's tables keep _ and . as they are.
    pub resolve-Names :
        (n : EnvNode) (tokens : List Text)
        → KeepsSeparators
        → IsBuilt n
        → Sound (Names n tokens) (resolve tables n tokens)
    resolve-Names absent tokens low h = tt
    resolve-Names (node cs normalized dynamic keys val) [] low h = ((tt, refl), refl)
    resolve-Names (node cs normalized dynamic keys val) (t ∷ ts) low h =
        after_children-Sound cs normalized dynamic keys val (t ∷ ts) _ _ (rw (low.1) refl) h.3
          (λ e.
            paths-Sound (node cs normalized dynamic keys val) (λ key ts'. resolve tables val ts')
              (keys_for tables keys) (t ∷ ts) (keys_for-All keys)
              (λ key xs ys r.
                prepend-Sound (node cs normalized dynamic keys val) val key xs ys
                  (resolve tables val ys) r (λ path ok l. inr (e, l))
                  (resolve-Names val ys low h.2)))
          (settle-Settles _ none _ tt (
            paths-Sound (node cs normalized dynamic keys val)
              (λ name ts'. resolve_child tables cs name ts') (matches tables cs normalized) (t ∷ ts)
              (λ xs. matches-All cs normalized xs (rw (low.0) refl) h.0)
              (λ name xs ys r.
                prepend-Sound (node cs normalized dynamic keys val) (child_of name cs) name xs ys
                  (resolve_child tables cs name ys) r (λ path ok l. inl l)
                  (resolve_child-Names cs name ys low h.1))))

    resolve_child-Names :
        (cs : Children) (name : Text) (tokens : List Text)
        → KeepsSeparators
        → AreBuilt cs
        → Sound (Names (child_of name cs) tokens) (resolve_child tables cs name tokens)
    resolve_child-Names no_child name tokens low h = tt
    resolve_child-Names (child k n cs) name tokens low h = elim (Bool-cases (same k name)) [
      | inl e ↦ rw e (resolve-Names n tokens low h.0)
      | inr e ↦ rw e (resolve_child-Names cs name tokens low h.1)
    ]
