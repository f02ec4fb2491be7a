-- ===== src/Config/Overrides.antt =====
-- loadEnvOverrides and setEnvPath of config/config.go: the settings that the environment overrides.
use sisyphus.Prelude.{
  Bool, true, false, not, ◌&&◌, ◌||◌, ◌==◌, ltb, Option, none, some, List, [], ◌∷◌, ◌++◌, drop,
  length, if◌then◌else◌,
}
use sisyphus.Prelude.Runes.{Text, Tables, same, has_prefix, cut, is_blank}
use sisyphus.Config.Schema.{EnvNode, Answer, env_tokens, resolve}

-- map[string]any, with strings at the leaves.
mutual
  pub data Setting : Type 0 where
    value : Text → Setting
    section : Settings → Setting

  pub data Settings : Type 0 where
    empty : Settings
    entry : Text → Setting → Settings → Settings

abbrev pub put : Text → Setting → Settings → Settings
put seg v empty = entry seg v empty
put seg v (entry k w m) =
    let rest = put seg v m in if same k seg then entry k v m else entry k w rest

abbrev pub at : Text → Settings → Option Setting
at seg empty = none
at seg (entry k w m) = let rest = at seg m in if same k seg then some w else rest

-- m[seg].(map[string]any), or a new map.
abbrev pub section_of : Option Setting → Settings
section_of none = empty
section_of (some (value v)) = empty
section_of (some (section m)) = m

-- The path is its first segment and the rest of it.
unfoldable pub set_env_path : Settings → Text → List Text → Text → Settings
unfolding same
set_env_path m seg [] v = put seg (value v) m
set_env_path m seg (next ∷ rest) v =
    put seg (section (set_env_path (section_of (at seg m)) next rest v)) m

-- strings of os.Environ: a name that has the prefix and more, and a value.
abbrev pub named : Text → Option (Text × Text) → Option (Text × Text)
named prefix none = none
named prefix (some (name, v)) =
    if not (is_blank name) && has_prefix name prefix && not (same name prefix)
    then some (name, v)
    else none

-- values[name] = v, which also says which names there are.
abbrev pub set_value : Text × Text → List (Text × Text) → List (Text × Text)
set_value e [] = e ∷ []
set_value e (f ∷ values) =
    let rest = set_value e values in if same f.0 e.0 then e ∷ values else f ∷ rest

abbrev pub set_found : Option (Text × Text) → List (Text × Text) → List (Text × Text)
set_found none values = values
set_found (some e) values = set_value e values

unfoldable pub env_values : Text → List Text → List (Text × Text) → List (Text × Text)
unfolding cut has_prefix same
env_values prefix [] values = values
env_values prefix (e ∷ environ) values =
    env_values prefix environ (set_found (named prefix (cut 61 e)) values)

-- The order of strings.
abbrev pub before : Text → Text → Bool
before [] [] = false
before [] (d ∷ t) = true
before (c ∷ s) [] = false
before (c ∷ s) (d ∷ t) = ltb c d || (c == d && before s t)

abbrev pub insert_name : Text × Text → List (Text × Text) → List (Text × Text)
insert_name e [] = e ∷ []
insert_name e (f ∷ es) =
    let rest = insert_name e es in if before f.0 e.0 then f ∷ rest else e ∷ f ∷ es

-- sort.Strings, with each name's value.
unfoldable pub sort : List (Text × Text) → List (Text × Text)
sort [] = []
sort (e ∷ es) = insert_name e (sort es)

-- The overrides, and the calls of envSectionWarn.
abbrev pub Overrides : Type 0
Overrides = Settings × List (Text × List Text)

abbrev pub apply_answer : Text × Text → Answer → Overrides → Overrides
apply_answer e (none, ok) o = o
apply_answer e (some [], ok) o = o
apply_answer e (some (seg ∷ rest), false) (m, warned) = (m, warned ++ (e.0, seg ∷ rest) ∷ [])
apply_answer e (some (seg ∷ rest), true) (m, warned) = (set_env_path m seg rest e.1, warned)

module _ (path_of : Text → Answer) where
  unfoldable pub override_all : List (Text × Text) → Overrides → Overrides
  unfolding set_env_path
  override_all [] o = o
  override_all (e ∷ es) o = override_all es (apply_answer e (path_of e.0) o)

module _ (tables : Tables) where
  -- The mapper of WithEnvKeyMapper, or the schema.
  abbrev pub path_of : Option (Text → List Text) → EnvNode → Text → Text → Answer
  path_of none schema prefix name =
      resolve tables schema (env_tokens tables (drop (length prefix) name))
  path_of (some mapper) schema prefix name = (some (mapper name), true)

  -- Up to the load of the overrides into koanf.
  unfoldable pub load_env_overrides :
      Option (Text → List Text) → EnvNode → Text → List Text → Overrides
  unfolding env_values sort override_all env_tokens resolve
  load_env_overrides mapper schema prefix environ =
      override_all (path_of mapper schema prefix) (sort (env_values prefix environ [])) (empty, [])
