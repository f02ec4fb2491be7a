-- ===== src/Config/Schema.antt =====
-- envNode of config/config.go: the settings that a target has, and the path that a variable's name
-- resolves to.
use sisyphus.Prelude.{
  ℕ, Bool, true, false, not, ◌&&◌, ◌||◌, ◌==◌, Option, none, some, List, [], ◌∷◌, ◌++◌, map, filter,
  any, if◌then◌else◌,
}
use sisyphus.Prelude.Runes.{Text, Tables, codes, same, is_blank, lower, split, join}

-- A pointer to an envNode: nil, or children, normalized, dynamic, dynamicKey and dynamicVal. The
-- children are a map, in which the first entry of a name counts.
mutual
  pub data EnvNode : Type 0 where
    absent : EnvNode
    node : Children → List (Text × Text) → Bool → List Text → EnvNode → EnvNode

  pub data Children : Type 0 where
    no_child : Children
    child : Text → EnvNode → Children → Children

abbrev pub child_of : Text → Children → EnvNode
child_of name no_child = absent
child_of name (child k n cs) = let rest = child_of name cs in if same k name then n else rest

abbrev pub has_child : Text → Children → Bool
has_child name no_child = false
has_child name (child k n cs) = same k name || has_child name cs

abbrev pub has_none : Children → Bool
has_none no_child = true
has_none (child k n cs) = false

abbrev pub lookup : Text → List (Text × Text) → Option Text
lookup norm [] = none
lookup norm (e ∷ es) = let rest = lookup norm es in if same e.0 norm then some e.1 else rest

unfoldable pub leaf : EnvNode → Bool
leaf absent = true
leaf (node cs normalized dynamic keys val) = has_none cs && not dynamic

-- strings.Join(tokens, "")
abbrev pub joined : List Text → Text
joined [] = []
joined (t ∷ ts) = t ++ joined ts

-- tokens[:i] and tokens[i:], for i from len(tokens) down to 1.
unfoldable pub splits : List Text → List (List Text × List Text)
splits [] = []
splits (t ∷ ts) = map (λ s. (t ∷ s.0, s.1)) (splits ts) ++ (t ∷ [], ts) ∷ []

module _ {A : Type 0} {B : Type 0} where
  abbrev pub flat_map : (A → List B) → List A → List B
  flat_map f [] = []
  flat_map f (x ∷ xs) = f x ++ flat_map f xs

-- What resolve returns: a path, if it is not nil, and whether it can be set.
abbrev pub Answer : Type 0
Answer = Option (List Text) × Bool

abbrev pub prepend : Text → Answer → Answer
prepend name (none, ok) = (none, ok)
prepend name (some path, ok) = (some (name ∷ path), ok)

abbrev pub or_else : Option (List Text) → List Text → Option (List Text)
or_else none path = some path
or_else (some section) path = some section

-- A loop over the paths at hand: it returns one that can be set, or it ends with the section.
pub data Outcome : Type 0 where
  returns : List Text → Outcome
  ends : Option (List Text) → Outcome

abbrev pub settle : Option (List Text) → List Answer → Outcome
settle section [] = ends section
settle section ((none, ok) ∷ more) = settle section more
settle section ((some path, true) ∷ more) = returns path
settle section ((some path, false) ∷ more) = settle (or_else section path) more

-- What stands after the loops of resolve.
abbrev pub last_resort : Bool → List Text → Option (List Text) → Answer
last_resort leafy tokens (some section) = (some section, false)
last_resort leafy tokens none = if leafy then (some (join 46 tokens ∷ []), true) else (none, false)

abbrev pub after_dynamic : Bool → List Text → Outcome → Answer
after_dynamic leafy tokens (returns path) = (some path, true)
after_dynamic leafy tokens (ends section) = last_resort leafy tokens section

-- One of _ - . + and the space.
abbrev pub is_separator : ℕ → Bool
is_separator c = any (λ s. c == s) (codes "_-.+ ")

-- The exact name, if it is one, and the one that normalized has.
abbrev pub and_normalized : List Text → Option Text → List Text
and_normalized out none = out
and_normalized [] (some name) = name ∷ []
and_normalized (first ∷ out) (some name) =
    if same first name then first ∷ out else first ∷ out ++ name ∷ []

abbrev pub after_children : Bool → Bool → List Text → List Answer → Outcome → Answer
after_children dynamic leafy tokens paths (returns path) = (some path, true)
after_children false leafy tokens paths (ends section) = (section, false)
after_children true leafy tokens paths (ends section) =
    after_dynamic leafy tokens (settle section paths)

module _ (tables : Tables) where
  unfoldable pub normalize_env_key : Text → Text
  unfolding lower
  normalize_env_key s = filter (λ c. not (is_separator c)) (lower tables s)

  unfoldable pub env_tokens : Text → List Text
  unfolding split
  env_tokens rest = filter (λ t. not (is_blank t)) (split 95 (lower tables rest))

  -- The children's names that the tokens can stand for, the exact one first.
  unfoldable pub matches : Children → List (Text × Text) → List Text → List Text
  unfolding normalize_env_key same join
  matches cs normalized tokens =
      if has_none cs
      then []
      else and_normalized (if has_child (join 95 tokens) cs then join 95 tokens ∷ [] else [])
          (lookup (normalize_env_key (joined tokens)) normalized)

  abbrev pub keys_for : List Text → List Text → List Text
  keys_for keys tokens =
      filter (λ key. same (normalize_env_key key) (normalize_env_key (joined tokens))) keys

  -- The paths that the two loops look at, given how a child and the dynamic value resolve.
  unfoldable pub child_paths :
      Children → List (Text × Text) → (Text → List Text → Answer) → List Text → List Answer
  unfolding splits matches
  child_paths cs normalized resolve_child tokens =
      flat_map
        (λ s. map (λ name. prepend name (resolve_child name s.1)) (matches cs normalized s.0))
        (splits tokens)

  unfoldable pub dynamic_paths : List Text → (List Text → Answer) → List Text → List Answer
  unfolding splits normalize_env_key same
  dynamic_paths keys resolve_val tokens =
      flat_map (λ s. map (λ key. prepend key (resolve_val s.1)) (keys_for keys s.0)) (splits tokens)

  unfoldable mutual
    unfolding leaf child_paths dynamic_paths

    pub resolve : EnvNode → List Text → Answer
    resolve absent tokens = (none, false)
    resolve (node cs normalized dynamic keys val) [] =
        (some [], leaf (node cs normalized dynamic keys val))
    resolve (node cs normalized dynamic keys val) (t ∷ ts) =
        after_children dynamic (leaf val) (t ∷ ts)
          (dynamic_paths keys (λ ts'. resolve val ts') (t ∷ ts))
          (settle none (child_paths cs normalized (λ name ts'. resolve_child cs name ts') (t ∷ ts)))

    pub resolve_child : Children → Text → List Text → Answer
    resolve_child no_child name tokens = (none, false)
    resolve_child (child k n cs) name tokens =
        let here = resolve n tokens in
        let rest = resolve_child cs name tokens in if same k name then here else rest
