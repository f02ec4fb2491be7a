-- ===== src/Config/Names.antt =====
-- How names of config/config.go read once their case and separators are gone.
use sisyphus.Prelude.{
  ℕ, ◌≡◌, refl, sym, ap, ◌∙◌, Bool, true, false, not, List, [], ◌∷◌, ◌++◌, append-nil, append_assoc,
  map, arith, filter, All, All-append, All-map, All-imp, filter-append,
}
use sisyphus.Prelude.Runes.{Text, Tables, same, lower, join}
use sisyphus.Config.Schema.{normalize_env_key, is_separator, joined, splits, flat_map}

pub same-eq : (s t : Text) → same s t ≡ true → s ≡ t
unfolding same
same-eq [] [] h = refl
same-eq [] (d ∷ t) h = cc
same-eq (c ∷ s) [] h = cc
same-eq (c ∷ s) (d ∷ t) h = ground (arith, same-eq s t)

pub same_refl : (s : Text) → same s s ≡ true
unfolding same
same_refl [] = refl
same_refl (c ∷ s) = ground (arith, same_refl s)

module _ {A : Type 0} {B : Type 0} where
  map-append_lem : (f : A → B) (xs ys : List A) → map f (xs ++ ys) ≡ map f xs ++ map f ys
  map-append_lem f [] ys = refl
  map-append_lem f (x ∷ xs) ys = ap (λ l. f x ∷ l) (map-append_lem f xs ys)

  pub All-flat_map :
      (P : B → Type 0) (Q : A → Type 0) (f : A → List B) (xs : List A)
      → ((x : A) → Q x → All P (f x))
      → All Q xs
      → All P (flat_map f xs)
  All-flat_map P Q f [] h k = tt
  All-flat_map P Q f (x ∷ xs) h k =
      All-append P (f x) (flat_map f xs) (h x k.0) (All-flat_map P Q f xs h k.1)

filter_first : (p : ℕ → Bool) (c : ℕ) (s : Text) → p c ≡ false → filter p (c ∷ s) ≡ filter p s
filter_first p c s h = rw h refl

joined-append : (xs ys : List Text) → joined (xs ++ ys) ≡ joined xs ++ joined ys
joined-append [] ys = refl
joined-append (x ∷ xs) ys =
    ap (λ l. x ++ l) (joined-append xs ys) ∙ sym (append_assoc x (joined xs) (joined ys))

pub splits-append : (ts : List Text) → All (λ s. s.0 ++ s.1 ≡ ts) (splits ts)
unfolding splits
splits-append [] = tt
splits-append (t ∷ ts) =
    All-append _ (map (λ s. (t ∷ s.0, s.1)) (splits ts)) _
      (All-map _ (λ s. (t ∷ s.0, s.1)) (splits ts)
        (All-imp (splits ts) (λ s e. ap (λ l. t ∷ l) e) (splits-append ts)))
      (refl, tt)

module _ (tables : Tables) where
  normalize_env_key-append :
      (s t : Text)
      → normalize_env_key tables (s ++ t) ≡ normalize_env_key tables s ++ normalize_env_key tables t
  unfolding normalize_env_key lower
  normalize_env_key-append s t =
      rw (map-append_lem tables.to_lower s t)
        (filter-append (λ c. not (is_separator c)) (map tables.to_lower s) (map tables.to_lower t))

  -- The two names are the same but for case and separators.
  abbrev pub Spells : List Text → List Text → Type 0
  Spells path tokens =
      normalize_env_key tables (joined path) ≡ normalize_env_key tables (joined tokens)

  pub Spells-append :
      (name : Text) (path xs ys : List Text)
      → normalize_env_key tables name ≡ normalize_env_key tables (joined xs)
      → Spells path ys
      → Spells (name ∷ path) (xs ++ ys)
  Spells-append name path xs ys h k =
      normalize_env_key-append name (joined path)
      ∙ rw h (
          rw k (
            sym (
              ap (normalize_env_key tables) (joined-append xs ys)
              ∙ normalize_env_key-append (joined xs) (joined ys))))

  normalize_separator :
      (sep : ℕ) (s : Text)
      → is_separator (tables.to_lower sep) ≡ true
      → normalize_env_key tables (sep ∷ s) ≡ normalize_env_key tables s
  unfolding normalize_env_key lower
  normalize_separator sep s h =
      filter_first (λ c. not (is_separator c)) (tables.to_lower sep) (map tables.to_lower s)
        (ap not h)

  pub normalize_env_key-join :
      (sep : ℕ) (ts : List Text)
      → is_separator (tables.to_lower sep) ≡ true
      → normalize_env_key tables (join sep ts) ≡ normalize_env_key tables (joined ts)
  unfolding join
  normalize_env_key-join sep [] h = refl
  normalize_env_key-join sep (t ∷ []) h = ap (normalize_env_key tables) (sym (append-nil t))
  normalize_env_key-join sep (t ∷ u ∷ ts) h =
      normalize_env_key-append t (sep ∷ join sep (u ∷ ts))
      ∙ ap (λ l. normalize_env_key tables t ++ l)
          (normalize_separator sep (join sep (u ∷ ts)) h ∙ normalize_env_key-join sep (u ∷ ts) h)
      ∙ sym (normalize_env_key-append t (joined (u ∷ ts)))
