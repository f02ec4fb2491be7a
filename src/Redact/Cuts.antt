-- ===== src/Redact/Cuts.antt =====
-- Cutting, splitting and joining of texts, as redact/redact.go uses them.
use sisyphus.Prelude.{
  ℕ, ◌≡◌, ◌≢◌, refl, ap, inl, inr, false, Option, none, some, List, [], ◌∷◌, ◌++◌, arith, ◌==◌, any,
  All, Bool-cases, ◌∙◌,
}
use sisyphus.Prelude.Runes.{Text, split, join, cut, onto_first, onto_before}

abbrev pub Lacks : ℕ → Text → Type 0
Lacks sep s = any (λ c. c == sep) s ≡ false

-- A text cut at its first separator.
abbrev pub CutAt : ℕ → Text → Option (Text × Text) → Type 0
CutAt sep s none = Unit {0}
CutAt sep s (some (before, after)) = (s ≡ before ++ sep ∷ after) × Lacks sep before

onto_before-CutAt :
    (sep c : ℕ) (s : Text) (o : Option (Text × Text))
    → c == sep ≡ false
    → CutAt sep s o
    → CutAt sep (c ∷ s) (onto_before c o)
onto_before-CutAt sep c s none e h = tt
onto_before-CutAt sep c s (some (before, after)) e h = (ap (λ (r : Text). c ∷ r) h.0, ground arith)

pub cut-CutAt : (sep : ℕ) (s : Text) → CutAt sep s (cut sep s)
unfolding cut
cut-CutAt sep [] = tt
cut-CutAt sep (c ∷ s) = elim (Bool-cases (c == sep)) [
  | inl e ↦ rw e (ground arith)
  | inr e ↦ rw e (onto_before-CutAt sep c s (cut sep s) e (cut-CutAt sep s))
]

pub cut-append :
    (sep : ℕ) (before after : Text)
    → Lacks sep before
    → cut sep (before ++ sep ∷ after) ≡ some (before, after)
unfolding cut
cut-append sep [] after h = ground arith
cut-append sep (c ∷ before) after h = ground (arith, cut-append sep before after)

onto_first-All :
    (sep c : ℕ) (parts : List Text)
    → c == sep ≡ false
    → All (Lacks sep) parts
    → All (Lacks sep) (onto_first c parts)
onto_first-All sep c [] e h = (ground arith, tt)
onto_first-All sep c (p ∷ ps) e h = (ground (arith, h.0), h.1)

pub split-Lacks : (sep : ℕ) (s : Text) → All (Lacks sep) (split sep s)
unfolding split
split-Lacks sep [] = (refl, tt)
split-Lacks sep (c ∷ s) = elim (Bool-cases (c == sep)) [
  | inl e ↦ rw e (refl, split-Lacks sep s)
  | inr e ↦ rw e (onto_first-All sep c (split sep s) e (split-Lacks sep s))
]

split_lacking : (sep : ℕ) (p : Text) → Lacks sep p → split sep p ≡ p ∷ []
unfolding split
split_lacking sep [] h = refl
split_lacking sep (c ∷ p) h = ground (arith, split_lacking sep p)

split_at : (sep : ℕ) (p s : Text) → Lacks sep p → split sep (p ++ sep ∷ s) ≡ p ∷ split sep s
unfolding split
split_at sep [] s h = ground arith
split_at sep (c ∷ p) s h = ground (arith, split_at sep p s)

pub split-join :
    (sep : ℕ) (p : Text) (ps : List Text)
    → All (Lacks sep) (p ∷ ps)
    → split sep (join sep (p ∷ ps)) ≡ p ∷ ps
unfolding join
split-join sep p [] h = split_lacking sep p h.0
split-join sep p (q ∷ ps) h =
    split_at sep p (join sep (q ∷ ps)) h.0 ∙ ap (λ l. p ∷ l) (split-join sep q ps h.1)

pub Lacks-append : (sep : ℕ) (s t : Text) → Lacks sep s → Lacks sep t → Lacks sep (s ++ t)
Lacks-append sep [] t h k = k
Lacks-append sep (c ∷ s) t h k = ground (arith, Lacks-append sep s t)

pub Lacks-before : (sep d : ℕ) (s t : Text) → Lacks sep (s ++ d ∷ t) → Lacks sep s
Lacks-before sep d [] t h = refl
Lacks-before sep d (c ∷ s) t h = ground (arith, Lacks-before sep d s t)

onto_first-ne-nil : (c : ℕ) (parts : List Text) → onto_first c parts ≢ []
onto_first-ne-nil c [] h = cc
onto_first-ne-nil c (p ∷ ps) h = cc

pub split-ne-nil : (sep : ℕ) (s : Text) → split sep s ≢ []
unfolding split
split-ne-nil sep [] = λ h. cc
split-ne-nil sep (c ∷ s) = elim (Bool-cases (c == sep)) [
  | inl e ↦ rw e (λ h. cc)
  | inr e ↦ rw e (onto_first-ne-nil c (split sep s))
]
