-- ===== src/Redact/Lines.antt =====
-- Line of redact/redact.go: what it hides of a text, line by line.
use sisyphus.Prelude.{
  ◌≡◌, refl, sym, ap, ◌⊎◌, inl, inr, ◌↔◌, any, true, Bool, false, ◌||◌, Option, none, some, List,
  [], ◌≢◌, ◌∷◌, ◌++◌, map, arith, All, Bool-cases, ◌∙◌, subst,
}
use sisyphus.Prelude.Runes.{Text, Tables, codes, is_blank, trim, split, join, cut}
use sisyphus.Redact.{mask, keeps_value, masked_line, redact_cut, redact_line, line}
use sisyphus.Redact.Cuts.{
  Lacks, CutAt, cut-CutAt, cut-append, split-Lacks, split-join, Lacks-append, Lacks-before,
  split-ne-nil,
}
use sisyphus.Redact.Values.{is_text, names_secret, hides_value, hidden_value}

module _ (tables : Tables) where
  -- A line that holds a secret: a key that says secret, a colon, which is the first, and a value that is
  -- more than spaces.
  abbrev pub IsSecretLine : Text → Text → Type 0
  IsSecretLine before ln =
      (after : Text) × (ln ≡ before ++ b':' ∷ after)
      × Lacks b':' before
      × (names_secret tables before ≡ true)
      × (any (is_text tables) after ≡ true)

  -- Two lines that are the same, or hold secrets behind the same key.
  abbrev pub Alike : Text → Text → Type 0
  Alike x y = (x ≡ y) ⊎ ((before : Text) × IsSecretLine before x × IsSecretLine before y)

  abbrev pub AllAlike : List Text → List Text → Type 0
  AllAlike [] [] = Unit {0}
  AllAlike (x ∷ xs) (y ∷ ys) = Alike x y × AllAlike xs ys
  AllAlike _ _ = ⊥

  redact_line-masks :
      (before ln : Text)
      → IsSecretLine before ln
      → redact_line tables ln ≡ masked_line tables before
  unfolding redact_line
  redact_line-masks before ln (after, e, k, s, v) =
      rw (e, cut-append b':' before after k, hides_value tables before after s v)

  redact_line-eq : (x y : Text) → Alike x y → redact_line tables x ≡ redact_line tables y
  redact_line-eq x y (inl e) = ap (redact_line tables) e
  redact_line-eq x y (inr (before, p, q)) =
      redact_line-masks before x p ∙ sym (redact_line-masks before y q)

  map-redact_line-eq :
      (xs ys : List Text)
      → AllAlike xs ys
      → map (redact_line tables) xs ≡ map (redact_line tables) ys
  map-redact_line-eq [] [] h = refl
  map-redact_line-eq (x ∷ xs) (y ∷ ys) h = cc (redact_line-eq x y h.0, map-redact_line-eq xs ys h.1)
  map-redact_line-eq _ _ h = absurd h

  redact_cut-Lacks :
      (ln : Text) (o : Option (Text × Text))
      → CutAt b':' ln o
      → Lacks 10 ln
      → Lacks 10 (redact_cut tables ln o)
  redact_cut-Lacks ln none h k = k
  redact_cut-Lacks ln (some (before, after)) h k =
      elim (Bool-cases (keeps_value tables before after)) [
        | inl e ↦ rw e k
        | inr e ↦ rw e (
            Lacks-append 10 before _ (Lacks-before 10 b':' before after (subst (Lacks 10) h.0 k))
              (unfold mask in refl))
      ]

  map-redact_line-Lacks :
      (xs : List Text) → All (Lacks 10) xs → All (Lacks 10) (map (redact_line tables) xs)
  unfolding redact_line
  map-redact_line-Lacks [] h = tt
  map-redact_line-Lacks (x ∷ xs) h =
      (redact_cut-Lacks x (cut b':' x) (cut-CutAt b':' x) h.0, map-redact_line-Lacks xs h.1)

  split-join-map :
      (f : Text → Text) (xs : List Text)
      → xs ≢ []
      → All (Lacks 10) (map f xs)
      → split 10 (join 10 (map f xs)) ≡ map f xs
  split-join-map f [] n h = absurd (n refl)
  split-join-map f (x ∷ xs) n h = split-join 10 (f x) (map f xs) h

  -- Line keeps the lines of a text apart: those of its result are the redacted ones, in order.
  pub split-line : (s : Text) → split 10 (line tables s) ≡ map (redact_line tables) (split 10 s)
  unfolding line
  split-line s =
      split-join-map (redact_line tables) (split 10 s) (split-ne-nil 10 s)
        (map-redact_line-Lacks (split 10 s) (split-Lacks 10 s))

  line-of_lines : (s : Text) → line tables s ≡ join 10 (map (redact_line tables) (split 10 s))
  line-of_lines s = unfold line in refl

  module _ (quote : tables.is_space b'"' ≡ false) where
    masked-not-blank : is_blank (trim tables (codes " \"" ++ (mask ++ codes "\""))) ≡ false
    unfolding mask trim
    masked-not-blank = ground arith

    still_masked :
        (before after : Text)
        → keeps_value tables before after ≡ false
        → keeps_value tables before (codes " \"" ++ (mask ++ codes "\"")) ≡ false
    unfolding keeps_value
    still_masked before after k = rw masked-not-blank (or-right (is_blank (trim tables after)) k)
      where
        or-right : (a : Bool) {b : Bool} → a || b ≡ false → b ≡ false
        or-right a h = ground arith

    redact_cut-twice :
        (ln : Text) (o : Option (Text × Text))
        → CutAt b':' ln o
        → cut b':' ln ≡ o
        → redact_line tables (redact_cut tables ln o) ≡ redact_cut tables ln o
    unfolding redact_line
    redact_cut-twice ln none h e = rw e
    redact_cut-twice ln (some (before, after)) h e =
        elim (Bool-cases (keeps_value tables before after)) [
          | inl k ↦ rw k (rw e (rw k))
          | inr k ↦ rw k (rw (cut-append b':' before _ h.1) (rw (still_masked before after k)))
        ]

    redact_line-twice :
        (x : Text) → redact_line tables (redact_line tables x) ≡ redact_line tables x
    redact_line-twice x =
        unfold redact_line in redact_cut-twice x (cut b':' x) (cut-CutAt b':' x) refl

    map-redact_line-twice :
        (xs : List Text)
        → map (redact_line tables) (map (redact_line tables) xs) ≡ map (redact_line tables) xs
    map-redact_line-twice [] = refl
    map-redact_line-twice (x ∷ xs) = cc (redact_line-twice x, map-redact_line-twice xs)

    abbrev Redacted : Text → Text → Type 0
    Redacted x y =
        (y ≡ x) ⊎ ((before : Text) × IsSecretLine before x × (y ≡ masked_line tables before))

    redact_cut-Redacted :
        (ln : Text) (o : Option (Text × Text))
        → CutAt b':' ln o
        → Redacted ln (redact_cut tables ln o)
    redact_cut-Redacted ln none h = inl refl
    redact_cut-Redacted ln (some (before, after)) h =
        elim (Bool-cases (keeps_value tables before after)) [
          | inl k ↦ rw k (inl refl)
          | inr k ↦
              let (n, v) = hidden_value tables before after k in
              rw k (inr (before, (after, h.0, h.1, n, v), refl))
        ]

    redact_line-Redacted : (x : Text) → Redacted x (redact_line tables x)
    redact_line-Redacted x =
        unfold redact_line in redact_cut-Redacted x (cut b':' x) (cut-CutAt b':' x)

    -- A masked line still holds a secret behind its key.
    masked_line-IsSecretLine :
        (before ln : Text)
        → IsSecretLine before ln
        → IsSecretLine before (masked_line tables before)
    masked_line-IsSecretLine before ln (after, e, k, n, v) = (_, refl, k, n, ground (arith, quote))

    masked_line-inj :
        (b c : Text)
        → Lacks b':' b
        → Lacks b':' c
        → masked_line tables b ≡ masked_line tables c
        → b ≡ c
    masked_line-inj b c h k e =
        let q = sym (cut-append b':' b _ h) ∙ ap (cut b':') e ∙ cut-append b':' c _ k in cc

    redact_line-Alike : (x y x' y' : Text) → Redacted x x' → Redacted y y' → x' ≡ y' → Alike x y
    redact_line-Alike x y x' y' (inl p) (inl q) e = inl (sym p ∙ e ∙ q)
    redact_line-Alike x y x' y' (inl p) (inr (c, k, q)) e =
        inr (c, subst (IsSecretLine c) (sym (sym p ∙ e ∙ q)) (masked_line-IsSecretLine c y k), k)
    redact_line-Alike x y x' y' (inr (b, h, p)) (inl q) e =
        inr (b, h, subst (IsSecretLine b) (sym p ∙ e ∙ q) (masked_line-IsSecretLine b x h))
    redact_line-Alike x y x' y' (inr (b, h, p)) (inr (c, k, q)) e =
        let r = masked_line-inj b c h.2 k.2 (sym p ∙ e ∙ q) in
        inr (b, h, subst (λ d. IsSecretLine d y) (sym r) k)

    map-redact_line-AllAlike :
        (xs ys : List Text)
        → map (redact_line tables) xs ≡ map (redact_line tables) ys
        → AllAlike xs ys
    map-redact_line-AllAlike [] [] h = tt
    map-redact_line-AllAlike [] (y ∷ ys) h = cc
    map-redact_line-AllAlike (x ∷ xs) [] h = cc
    map-redact_line-AllAlike (x ∷ xs) (y ∷ ys) h = (
      redact_line-Alike x y _ _ (redact_line-Redacted x) (redact_line-Redacted y) cc,
      map-redact_line-AllAlike xs ys cc,
    )

    -- Line tells everything of a text but the values behind secret keys, and nothing of these: two texts
    -- are redacted to the same one exactly if their lines are, one by one, the same or hold values
    -- behind the same secret key. Which keys are secret stands in the rules; a value is what follows the
    -- first colon, if that is more than spaces; and a quotation mark is no space.
    pub line_hides :
        (s t : Text) → (line tables s ≡ line tables t) ↔ AllAlike (split 10 s) (split 10 t)
    line_hides s t = (
      λ e.
          map-redact_line-AllAlike (split 10 s) (split 10 t)
            (sym (split-line s) ∙ ap (split 10) e ∙ split-line t),
      λ h.
          line-of_lines s
          ∙ ap (join 10) (map-redact_line-eq (split 10 s) (split 10 t) h)
          ∙ sym (line-of_lines t),
    )

    -- What is redacted stays as it is: to redact a text again changes nothing, provided that a
    -- quotation mark is no space.
    pub line-line : (s : Text) → line tables (line tables s) ≡ line tables s
    line-line s =
        line-of_lines (line tables s)
        ∙ ap (λ l. join 10 (map (redact_line tables) l)) (split-line s)
        ∙ ap (join 10) (map-redact_line-twice (split 10 s))
        ∙ sym (line-of_lines s)
