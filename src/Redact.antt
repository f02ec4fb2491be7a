-- ===== src/Redact.antt =====
-- redact/redact.go: IsSecretKey, walk, Line and Document. A text is the list of its runes; the tables
-- of Go's package unicode are an argument, and so are the JSON and YAML codecs.
pub mod Keys
pub mod Rules
pub mod Hiding
pub mod Cuts
pub mod Values
pub mod Lines
use sisyphus.Prelude.{
  ℕ, String, Bool, true, false, not, ◌||◌, Option, none, some, List, [], ◌∷◌, ◌++◌, map,
  if◌then◌else◌,
}
use sisyphus.Prelude.Runes.{Text, Tables, codes, same, is_blank, trim, lower, split, join, cut}
use sisyphus.Redact.Keys.{is_secret_key}

unfoldable pub mask : Text
mask = codes "••••••"

-- What the codecs decode into `any`: map[string]any, map[any]any, []any, a string, or another
-- scalar, told apart by a text.
mutual
  pub data Value : Type 0 where
    scalar : Text → Value
    str : Text → Value
    arr : Items → Value
    obj : Fields → Value
    mapping : Entries → Value

  pub data Items : Type 0 where
    nil : Items
    cons : Value → Items → Items

  pub data Fields : Type 0 where
    end : Fields
    field : Text → Value → Fields → Fields

  -- A key of map[any]any is a string or it is not.
  pub data Entries : Type 0 where
    done : Entries
    entry : Text → Value → Entries → Entries
    odd_entry : Text → Value → Entries → Entries

-- The value under a key: masked, or what `walk` makes of it.
abbrev pub masked_if : Bool → Value → Value
masked_if true v = str mask
masked_if false v = v

module _ (tables : Tables) where
  unfoldable mutual
    pub walk : Value → Value
    walk (scalar t) = scalar t
    walk (str t) = str t
    walk (arr xs) = arr (walk_items xs)
    walk (obj fs) = obj (walk_fields fs)
    walk (mapping es) = mapping (walk_entries es)

    pub walk_items : Items → Items
    walk_items nil = nil
    walk_items (cons v xs) = cons (walk v) (walk_items xs)

    pub walk_fields : Fields → Fields
    walk_fields end = end
    walk_fields (field k v fs) =
        field k (masked_if (is_secret_key tables k) (walk v)) (walk_fields fs)

    pub walk_entries : Entries → Entries
    walk_entries done = done
    walk_entries (entry k v es) =
        entry k (masked_if (is_secret_key tables k) (walk v)) (walk_entries es)
    walk_entries (odd_entry k v es) = odd_entry k (walk v) (walk_entries es)

  -- The test of one line that has a colon.
  unfoldable pub keeps_value : Text → Text → Bool
  keeps_value before after =
      is_blank (trim tables after) || not (is_secret_key tables (lower tables (trim tables before)))

  abbrev pub masked_line : Text → Text
  masked_line before = before ++ (codes ": \"" ++ (mask ++ codes "\""))

  abbrev pub redact_cut : Text → Option (Text × Text) → Text
  redact_cut ln none = ln
  redact_cut ln (some (before, after)) = if keeps_value before after then ln else masked_line before

  unfoldable pub redact_line : Text → Text
  redact_line ln = redact_cut ln (cut b':' ln)

  unfoldable pub line : Text → Text
  unfolding redact_line
  line s = join 10 (map redact_line (split 10 s))

-- Unmarshal, and MarshalIndent or Marshal; each may fail.
pub record Codec : Type 0 where
  pub parse : Text → Option Value
  pub render : Value → Option Text

module _ (tables : Tables) where
  abbrev pub rendered : Text → Option Text → Text
  rendered content none = line tables content
  rendered content (some out) = out

  abbrev pub redact_parsed : Codec → Text → Option Value → Text
  redact_parsed codec content none = line tables content
  redact_parsed codec content (some v) = rendered content (codec.render (walk tables v))

  unfoldable pub document : Codec → Codec → Text → Text → Text
  document json yaml content format =
      if same (lower tables format) (codes "json")
      then redact_parsed json content (json.parse content)
      else redact_parsed yaml content (yaml.parse content)
