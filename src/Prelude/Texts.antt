-- ===== src/Prelude/Texts.antt =====
-- Lists of texts as sets of names.
use Prim.Native.String.{String}
use text.Mathlib.Text.{◌==◌ as str_eq}
use mathlib.Core.Path.{◌≡◌}
use mathlib.Core.Bool.{Bool, false}
use mathlib.Core.List.{List, [], ◌∷◌}
use sisyphus.Prelude.Lists.{any}

abbrev pub member : String → List String → Bool
member k ks = any (λ j. str_eq j k) ks

-- No name twice.
abbrev pub IsDistinct : List String → Type 0
IsDistinct [] = Unit {0}
IsDistinct (k ∷ ks) = (member k ks ≡ false) × IsDistinct ks
