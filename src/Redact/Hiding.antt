-- ===== src/Redact/Hiding.antt =====
-- What a redacted document of redact/redact.go tells of the document: everything but the secrets.
use sisyphus.Prelude.{◌≡◌, refl, sym, ap, ◌↔◌, Bool, true, false, some, arith, ◌∙◌, if◌then◌else◌}
use sisyphus.Prelude.Runes.{Text, Tables, codes, same, lower}
use sisyphus.Redact.Keys.{is_secret_key}
use sisyphus.Redact.{
  Value, scalar, str, arr, obj, mapping, Items, nil, cons, Fields, end, field, Entries, done, entry,
  odd_entry, masked_if, walk, walk_items, walk_fields, walk_entries, Codec, document,
}

-- What need not agree where it is secret.
abbrev pub Unless : Bool → Type 0 → Type 0
Unless true A = Unit {0}
Unless false A = A

module _ (tables : Tables) where
  -- Two documents that are the same but for the values under secret keys.
  unfoldable mutual
    pub Agrees : Value → Value → Type 0
    Agrees (scalar t) (scalar u) = t ≡ u
    Agrees (str t) (str u) = t ≡ u
    Agrees (arr xs) (arr ys) = ItemsAgree xs ys
    Agrees (obj fs) (obj gs) = FieldsAgree fs gs
    Agrees (mapping es) (mapping ds) = EntriesAgree es ds
    Agrees _ _ = ⊥

    pub ItemsAgree : Items → Items → Type 0
    ItemsAgree nil nil = Unit {0}
    ItemsAgree (cons v xs) (cons w ys) = Agrees v w × ItemsAgree xs ys
    ItemsAgree _ _ = ⊥

    pub FieldsAgree : Fields → Fields → Type 0
    FieldsAgree end end = Unit {0}
    FieldsAgree (field k v fs) (field j w gs) =
        (k ≡ j) × Unless (is_secret_key tables k) (Agrees v w) × FieldsAgree fs gs
    FieldsAgree _ _ = ⊥

    pub EntriesAgree : Entries → Entries → Type 0
    EntriesAgree done done = Unit {0}
    EntriesAgree (entry k v es) (entry j w ds) =
        (k ≡ j) × Unless (is_secret_key tables k) (Agrees v w) × EntriesAgree es ds
    EntriesAgree (odd_entry k v es) (odd_entry j w ds) = (k ≡ j) × Agrees v w × EntriesAgree es ds
    EntriesAgree _ _ = ⊥

  masked-eq :
      (b : Bool) (v w : Value) {A : Type 0}
      → (A → v ≡ w)
      → Unless b A
      → masked_if b v ≡ masked_if b w
  masked-eq true v w f h = refl
  masked-eq false v w f h = f h

  unmasked :
      (b : Bool) (v w : Value) {A : Type 0}
      → (v ≡ w → A)
      → masked_if b v ≡ masked_if b w
      → Unless b A
  unmasked true v w f h = tt
  unmasked false v w f h = f h

  masked-key :
      (k j : Text) (v w : Value) {A : Type 0}
      → (A → v ≡ w)
      → k ≡ j
      → Unless (is_secret_key tables k) A
      → masked_if (is_secret_key tables k) v ≡ masked_if (is_secret_key tables j) w
  masked-key k j v w f e h =
      masked-eq (is_secret_key tables k) v w f h
      ∙ ap (λ (i : Text). masked_if (is_secret_key tables i) w) e

  unmasked-key :
      (k j : Text) (v w : Value) {A : Type 0}
      → (v ≡ w → A)
      → k ≡ j
      → masked_if (is_secret_key tables k) v ≡ masked_if (is_secret_key tables j) w
      → Unless (is_secret_key tables k) A
  unmasked-key k j v w f e h =
      unmasked (is_secret_key tables k) v w f
        (h ∙ sym (ap (λ (i : Text). masked_if (is_secret_key tables i) w) e))

  mutual
    unfolding walk Agrees

    walk-eq : (v w : Value) → Agrees v w → walk tables v ≡ walk tables w
    walk-eq (scalar t) (scalar u) h = ap scalar h
    walk-eq (str t) (str u) h = ap str h
    walk-eq (arr xs) (arr ys) h = ap arr (walk_items-eq xs ys h)
    walk-eq (obj fs) (obj gs) h = ap obj (walk_fields-eq fs gs h)
    walk-eq (mapping es) (mapping ds) h = ap mapping (walk_entries-eq es ds h)
    walk-eq _ _ h = absurd h

    walk_items-eq : (xs ys : Items) → ItemsAgree xs ys → walk_items tables xs ≡ walk_items tables ys
    walk_items-eq nil nil h = refl
    walk_items-eq (cons v xs) (cons w ys) h = cc (walk-eq v w h.0, walk_items-eq xs ys h.1)
    walk_items-eq _ _ h = absurd h

    walk_fields-eq :
        (fs gs : Fields) → FieldsAgree fs gs → walk_fields tables fs ≡ walk_fields tables gs
    walk_fields-eq end end h = refl
    walk_fields-eq (field k v fs) (field j w gs) h = cc (
      h.0,
      masked-key k j (walk tables v) (walk tables w) (walk-eq v w) h.0 h.1,
      walk_fields-eq fs gs h.2,
    )
    walk_fields-eq _ _ h = absurd h

    walk_entries-eq :
        (es ds : Entries) → EntriesAgree es ds → walk_entries tables es ≡ walk_entries tables ds
    walk_entries-eq done done h = refl
    walk_entries-eq (entry k v es) (entry j w ds) h = cc (
      h.0,
      masked-key k j (walk tables v) (walk tables w) (walk-eq v w) h.0 h.1,
      walk_entries-eq es ds h.2,
    )
    walk_entries-eq (odd_entry k v es) (odd_entry j w ds) h =
        cc (h.0, walk-eq v w h.1, walk_entries-eq es ds h.2)
    walk_entries-eq _ _ h = absurd h

  mutual
    unfolding walk Agrees

    walk-told : (v w : Value) → walk tables v ≡ walk tables w → Agrees v w
    walk-told (scalar t) (scalar u) h = cc
    walk-told (str t) (str u) h = cc
    walk-told (arr xs) (arr ys) h = walk_items-told xs ys (cc)
    walk-told (obj fs) (obj gs) h = walk_fields-told fs gs (cc)
    walk-told (mapping es) (mapping ds) h = walk_entries-told es ds (cc)
    walk-told _ _ h = cc

    walk_items-told :
        (xs ys : Items) → walk_items tables xs ≡ walk_items tables ys → ItemsAgree xs ys
    walk_items-told nil nil h = tt
    walk_items-told (cons v xs) (cons w ys) h = (walk-told v w (cc), walk_items-told xs ys (cc))
    walk_items-told _ _ h = cc

    walk_fields-told :
        (fs gs : Fields) → walk_fields tables fs ≡ walk_fields tables gs → FieldsAgree fs gs
    walk_fields-told end end h = tt
    walk_fields-told (field k v fs) (field j w gs) h = (
      cc,
      unmasked-key k j (walk tables v) (walk tables w) (walk-told v w) (cc) (cc),
      walk_fields-told fs gs (cc),
    )
    walk_fields-told _ _ h = cc

    walk_entries-told :
        (es ds : Entries) → walk_entries tables es ≡ walk_entries tables ds → EntriesAgree es ds
    walk_entries-told done done h = tt
    walk_entries-told (entry k v es) (entry j w ds) h = (
      cc,
      unmasked-key k j (walk tables v) (walk tables w) (walk-told v w) (cc) (cc),
      walk_entries-told es ds (cc),
    )
    walk_entries-told (odd_entry k v es) (odd_entry j w ds) h =
        (cc, walk-told v w (cc), walk_entries-told es ds (cc))
    walk_entries-told _ _ h = cc

  -- A walked document tells everything of the document but the values under secret keys, and
  -- nothing of these: two documents are walked to the same one exactly if they are the same but for
  -- such values.
  pub walk_hides : (v w : Value) → (walk tables v ≡ walk tables w) ↔ Agrees v w
  walk_hides v w = (walk-told v w, walk-eq v w)

  abbrev pub codec_of : Codec → Codec → Text → Codec
  codec_of json yaml format = if same (lower tables format) (codes "json") then json else yaml

  -- Document says nothing of the values under secret keys: two contents that parse, by the codec of
  -- their format, to documents that are the same but for such values are both redacted to the
  -- rendering of the one walked document, provided that it renders.
  pub document_hides :
      (json yaml : Codec) (content content' format out : Text) (v w : Value)
      → (codec_of json yaml format).parse content ≡ some v
      → (codec_of json yaml format).parse content' ≡ some w
      → Agrees v w
      → (codec_of json yaml format).render (walk tables v) ≡ some out
      → (document tables json yaml content format ≡ out)
        × (document tables json yaml content' format ≡ out)
  unfolding document
  document_hides json yaml content content' format out v w p q a r =
      let e : walk tables v ≡ walk tables w = (walk_hides v w).1 a in ground arith
