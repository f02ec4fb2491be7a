-- ===== src/Redact/Values.antt =====
-- When a line of redact/redact.go holds a value to hide, by the rules of secret keys.
use sisyphus.Prelude.{◌≡◌, refl, sym, ap, ℕ, any, not, true, Bool, false, ◌||◌, [], ◌∷◌, arith, ◌∙◌}
use sisyphus.Prelude.Runes.{
  Text, Tables, is_blank, trim, trim_left, trim_right, keep_unless_space, lower,
}
use sisyphus.Redact.Keys.{segments}
use sisyphus.Redact.Rules.{says_secret, is_secret_key-rules}
use sisyphus.Redact.{keeps_value}

abbrev pub is_text : Tables → ℕ → Bool
is_text tables c = not (tables.is_space c)

module _ (tables : Tables) where
  trim_left-blank : (s : Text) → is_blank (trim_left tables s) ≡ not (any (is_text tables) s)
  unfolding trim_left
  trim_left-blank [] = refl
  trim_left-blank (c ∷ s) = ground (arith, trim_left-blank s)

  keep_unless_space-text :
      (c : ℕ) (s : Text)
      → any (is_text tables) (keep_unless_space tables c s)
        ≡ (is_text tables c || any (is_text tables) s)
  keep_unless_space-text c [] = ground arith
  keep_unless_space-text c (d ∷ s) = refl

  trim_right-text : (s : Text) → any (is_text tables) (trim_right tables s) ≡ any (is_text tables) s
  unfolding trim_right
  trim_right-text [] = refl
  trim_right-text (c ∷ s) =
      keep_unless_space-text c (trim_right tables s)
      ∙ ap (λ b. is_text tables c || b) (trim_right-text s)

  trim-blank : (s : Text) → is_blank (trim tables s) ≡ not (any (is_text tables) s)
  unfolding trim
  trim-blank s = trim_left-blank (trim_right tables s) ∙ ap not (trim_right-text s)

  -- A key that says secret, by the rules, without the spaces around it and in lower case.
  abbrev pub names_secret : Text → Bool
  names_secret before = says_secret (segments tables (lower tables (trim tables before)))

  keeps_value-rules :
      (before after : Text)
      → keeps_value tables before after
        ≡ (not (any (is_text tables) after) || not (names_secret before))
  unfolding keeps_value
  keeps_value-rules before after =
      rw (trim-blank after)
        (rw (is_secret_key-rules tables (lower tables (trim tables before))) refl)

  pub hides_value :
      (before after : Text)
      → names_secret before ≡ true
      → any (is_text tables) after ≡ true
      → keeps_value tables before after ≡ false
  hides_value before after h k = keeps_value-rules before after ∙ rw h (rw k refl)

  pub hidden_value :
      (before after : Text)
      → keeps_value tables before after ≡ false
      → (names_secret before ≡ true) × (any (is_text tables) after ≡ true)
  hidden_value before after h =
      let e = sym (keeps_value-rules before after) ∙ h in
      both (any (is_text tables) after) (names_secret before) e
    where
      both : (a b : Bool) → (not a || not b) ≡ false → (b ≡ true) × (a ≡ true)
      both true true h = (refl, refl)
      both true false h = cc
      both false b h = cc
