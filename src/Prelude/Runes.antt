-- ===== src/Prelude/Runes.antt =====
-- What redact/redact.go and config/config.go use of Go's strings and unicode, on texts as lists of runes.
use Prim.Native.Char.{code}
use Prim.Native.String.{String}
use sisyphus.Prelude.{
  ℕ, Bool, true, false, ◌&&◌, ◌||◌, Option, none, some, List, [], ◌∷◌, ◌++◌, map, ◌==◌,
  if◌then◌else◌,
}

abbrev pub Text : Type 0
Text = List ℕ

abbrev pub codes : String → Text
codes String.[] = []
codes (String.◌∷◌ c s) = code c ∷ codes s

-- unicode.ToLower, IsLetter, IsDigit and IsSpace.
pub record Tables : Type 0 where
  pub to_lower : ℕ → ℕ
  pub is_letter : ℕ → Bool
  pub is_digit : ℕ → Bool
  pub is_space : ℕ → Bool

unfoldable pub same : Text → Text → Bool
same [] [] = true
same [] (d ∷ t) = false
same (c ∷ s) [] = false
same (c ∷ s) (d ∷ t) = c == d && same s t

abbrev pub is_blank : Text → Bool
is_blank [] = true
is_blank (c ∷ s) = false

unfoldable pub has_prefix : Text → Text → Bool
has_prefix s [] = true
has_prefix [] (d ∷ t) = false
has_prefix (c ∷ s) (d ∷ t) = c == d && has_prefix s t

-- strings.Contains(s, t)
unfoldable pub contains : Text → Text → Bool
unfolding has_prefix
contains [] t = has_prefix [] t
contains (c ∷ s) t = has_prefix (c ∷ s) t || contains s t

-- The first part of a split takes one more rune.
abbrev pub onto_first : ℕ → List Text → List Text
onto_first c [] = (c ∷ []) ∷ []
onto_first c (p ∷ ps) = (c ∷ p) ∷ ps

-- strings.Split and strings.Join at one rune.
unfoldable pub split : ℕ → Text → List Text
split sep [] = [] ∷ []
split sep (c ∷ s) = let parts = split sep s in if c == sep then [] ∷ parts else onto_first c parts

unfoldable pub join : ℕ → List Text → Text
join sep [] = []
join sep (p ∷ []) = p
join sep (p ∷ q ∷ ps) = p ++ sep ∷ join sep (q ∷ ps)

abbrev pub onto_before : ℕ → Option (Text × Text) → Option (Text × Text)
onto_before c none = none
onto_before c (some (before, after)) = some (c ∷ before, after)

-- s[:i] and s[i+1:] at the first place i of the rune, if it has one.
unfoldable pub cut : ℕ → Text → Option (Text × Text)
cut sep [] = none
cut sep (c ∷ s) = let rest = cut sep s in if c == sep then some ([], s) else onto_before c rest

module _ (tables : Tables) where
  unfoldable pub lower : Text → Text
  lower = map tables.to_lower

  unfoldable pub trim_left : Text → Text
  trim_left [] = []
  trim_left (c ∷ s) = let rest = trim_left s in if tables.is_space c then rest else c ∷ s

  -- A space at the end of what is left of the text goes.
  abbrev pub keep_unless_space : ℕ → Text → Text
  keep_unless_space c [] = if tables.is_space c then [] else c ∷ []
  keep_unless_space c (d ∷ s) = c ∷ d ∷ s

  unfoldable pub trim_right : Text → Text
  trim_right [] = []
  trim_right (c ∷ s) = keep_unless_space c (trim_right s)

  -- strings.TrimSpace
  unfoldable pub trim : Text → Text
  unfolding trim_left trim_right
  trim s = trim_left (trim_right s)

  abbrev pub is_part : ℕ → Bool
  is_part c = tables.is_letter c || tables.is_digit c

  abbrev pub push_field : Text → List Text → List Text
  push_field [] fields = fields
  push_field (c ∷ s) fields = (c ∷ s) ∷ fields

  -- strings.FieldsFunc, where the field at hand so far is `cur`.
  unfoldable pub fields_from : Text → Text → List Text
  fields_from cur [] = push_field cur []
  fields_from cur (c ∷ s) =
      let rest = fields_from [] s in
      let more = fields_from (cur ++ c ∷ []) s in if is_part c then more else push_field cur rest
