-- ===== src/Config/Overlay.antt =====
-- Where the overrides of config/config.go come from.
use sisyphus.Prelude.{
  All-if, ◌≡◌, refl, sym, ap, subst, ◌∙◌, ◌⊎◌, inl, inr, true, false, List, [], ◌∷◌, arith,
  if◌then◌else◌, All, Option, none, some, Bool-cases, drop, length,
}
use sisyphus.Prelude.Runes.{Text, Tables, same, cut}
use sisyphus.Config.Schema.{EnvNode, Answer, env_tokens}
use sisyphus.Config.Overrides.{
  Setting, value, section, Settings, empty, entry, put, at, section_of, set_env_path, named,
  set_value, set_found, env_values, before, insert_name, sort, Overrides, apply_answer,
  override_all, path_of, load_env_overrides,
}
use sisyphus.Config.Names.{same-eq, same_refl}
use sisyphus.Config.Resolved.{Sound, Names, IsBuilt, KeepsSeparators, resolve-Names}

-- The string under a path, if there is one.
abbrev value_of : Option Setting → Option Text
value_of none = none
value_of (some (value v)) = some v
value_of (some (section m)) = none

abbrev pub value_at : Settings → Text → List Text → Option Text
value_at m seg [] = value_of (at seg m)
value_at m seg (next ∷ rest) = value_at (section_of (at seg m)) next rest

at-put : (seg : Text) (v : Setting) (m : Settings) → at seg (put seg v m) ≡ some v
at-put seg v empty = rw (same_refl seg) refl
at-put seg v (entry k w m) = elim (Bool-cases (same k seg)) [
  | inl e ↦ rw e (rw e refl)
  | inr e ↦ rw e (rw e (at-put seg v m))
]

at-put-other :
    (seg s : Text) (v : Setting) (m : Settings) → same seg s ≡ false → at s (put seg v m) ≡ at s m
at-put-other seg s v empty h = rw h refl
at-put-other seg s v (entry k w m) h = elim (Bool-cases (same k seg)) [
  | inl e ↦ rw e (ground (arith, h, same-eq k seg e))
  | inr e ↦ rw e (ap (λ o. if same k s then some w else o) (at-put-other seg s v m h))
]

value_at-empty : (seg : Text) (rest : List Text) → value_at empty seg rest ≡ none
value_at-empty seg [] = refl
value_at-empty seg (next ∷ rest) = value_at-empty next rest

-- After setEnvPath the path holds the value.
pub value_at-set_env_path :
    (m : Settings) (seg : Text) (rest : List Text) (v : Text)
    → value_at (set_env_path m seg rest v) seg rest ≡ some v
unfolding set_env_path
value_at-set_env_path m seg [] v = rw (at-put seg (value v) m) refl
value_at-set_env_path m seg (next ∷ rest) v =
    rw (at-put seg (section (set_env_path (section_of (at seg m)) next rest v)) m)
      (value_at-set_env_path (section_of (at seg m)) next rest v)

at-put-split :
    (seg s : Text) (v : Setting) (m : Settings)
    → ((seg ≡ s) × (at s (put seg v m) ≡ some v)) ⊎ (at s (put seg v m) ≡ at s m)
at-put-split seg s v m = elim (Bool-cases (same seg s)) [
  | inl e ↦
      let q = same-eq seg s e in inl (q, ap (λ t. at t (put seg v m)) (sym q) ∙ at-put seg v m)
  | inr e ↦ inr (at-put-other seg s v m e)
]

-- What a path holds after setEnvPath it held before, or it is the path that was set.
value_at-set-origin :
    (m : Settings) (seg : Text) (rest : List Text) (v s : Text) (r : List Text) (w : Text)
    → value_at (set_env_path m seg rest v) s r ≡ some w
    → ((seg ∷ rest ≡ s ∷ r) × (v ≡ w)) ⊎ (value_at m s r ≡ some w)
unfolding set_env_path
value_at-set-origin m seg [] v s [] w h = elim (at-put-split seg s (value v) m) [
  | inl (q, e) ↦ let k : some v ≡ some w = sym (ap value_of e) ∙ h in inl (ap (λ x. x ∷ []) q, cc)
  | inr e ↦ inr (sym (ap value_of e) ∙ h)
]
value_at-set-origin m seg [] v s (n ∷ r) w h = elim (at-put-split seg s (value v) m) [
  | inl (q, e) ↦
      let k = sym (ap (λ o. value_at (section_of o) n r) e) ∙ h in cc (value_at-empty n r, k)
  | inr e ↦ inr (sym (ap (λ o. value_at (section_of o) n r) e) ∙ h)
]
value_at-set-origin m seg (next ∷ rest) v s [] w h =
    elim (at-put-split seg s (section (set_env_path (section_of (at seg m)) next rest v)) m) [
      | inl (q, e) ↦ let k = sym (ap value_of e) ∙ h in cc
      | inr e ↦ inr (sym (ap value_of e) ∙ h)
    ]
value_at-set-origin m seg (next ∷ rest) v s (n ∷ r) w h =
    elim (at-put-split seg s (section (set_env_path (section_of (at seg m)) next rest v)) m) [
      | inl (q, e) ↦
          elim (value_at-set-origin (section_of (at seg m)) next rest v n r w
            (sym (ap (λ o. value_at (section_of o) n r) e) ∙ h)) [
              | inl (p, u) ↦ inl (ap (λ x. x ∷ next ∷ rest) q ∙ ap (λ l. s ∷ l) p, u)
              | inr k ↦ inr (ap (λ t. value_at (section_of (at t m)) n r) (sym q) ∙ k)
            ]
      | inr e ↦ inr (sym (ap (λ o. value_at (section_of o) n r) e) ∙ h)
    ]

-- The override of one variable.
apply_answer-origin :
    (e : Text × Text) (a : Answer) (o : Overrides) (s : Text) (r : List Text) (w : Text)
    → value_at (apply_answer e a o).0 s r ≡ some w
    → ((a ≡ (some (s ∷ r), true)) × (e.1 ≡ w)) ⊎ (value_at o.0 s r ≡ some w)
apply_answer-origin e (none, ok) o s r w h = inr h
apply_answer-origin e (some [], ok) o s r w h = inr h
apply_answer-origin e (some (seg ∷ rest), false) (m, warned) s r w h = inr h
apply_answer-origin e (some (seg ∷ rest), true) (m, warned) s r w h =
    elim (value_at-set-origin m seg rest e.1 s r w h) [
      | inl (p, u) ↦ inl (ap (λ l. (some l, true)) p, u)
      | inr k ↦ inr k
    ]

module _ (path_of : Text → Answer) (Q : Text × Text → Type 0) where
  override_all-origin :
      (es : List (Text × Text)) (o : Overrides) (s : Text) (r : List Text) (w : Text)
      → All Q es
      → value_at (override_all path_of es o).0 s r ≡ some w
      → ((e : Text × Text) × Q e × (path_of e.0 ≡ (some (s ∷ r), true)) × (e.1 ≡ w))
        ⊎ (value_at o.0 s r ≡ some w)
  unfolding override_all
  override_all-origin [] o s r w q h = inr h
  override_all-origin (e ∷ es) o s r w q h =
      elim (override_all-origin es (apply_answer e (path_of e.0) o) s r w q.1 h) [
        | inl k ↦ inl k
        | inr k ↦ elim (apply_answer-origin e (path_of e.0) o s r w k) [
          | inl (p, u) ↦ inl (e, q.0, p, u)
          | inr l ↦ inr l
        ]
      ]

-- The variable is one of the environment whose names start with the prefix and go on.
abbrev pub Holds : Text → List Text → Text × Text → Type 0
Holds prefix [] e = ⊥
Holds prefix (x ∷ environ) e = (named prefix (cut 61 x) ≡ some e) ⊎ Holds prefix environ e

module _ (Q : Text × Text → Type 0) where
  set_value-All :
      (e : Text × Text) (values : List (Text × Text))
      → Q e
      → All Q values
      → All Q (set_value e values)
  set_value-All e [] q h = (q, tt)
  set_value-All e (f ∷ values) q h =
      All-if Q (same f.0 e.0) _ _ (λ _. (q, h.1)) (λ _. (h.0, set_value-All e values q h.1))

  set_found-All :
      (o : Option (Text × Text)) (values : List (Text × Text))
      → ((e : Text × Text) → o ≡ some e → Q e)
      → All Q values
      → All Q (set_found o values)
  set_found-All none values f h = h
  set_found-All (some e) values f h = set_value-All e values (f e refl) h

  env_values-All :
      (prefix : Text) (environ : List Text) (values : List (Text × Text))
      → ((e : Text × Text) → Holds prefix environ e → Q e)
      → All Q values
      → All Q (env_values prefix environ values)
  unfolding env_values
  env_values-All prefix [] values f h = h
  env_values-All prefix (x ∷ environ) values f h =
      env_values-All prefix environ (set_found (named prefix (cut 61 x)) values)
        (λ e k. f e (inr k)) (set_found-All (named prefix (cut 61 x)) values (λ e k. f e (inl k)) h)

  insert_name-All :
      (e : Text × Text) (es : List (Text × Text)) → Q e → All Q es → All Q (insert_name e es)
  insert_name-All e [] q h = (q, tt)
  insert_name-All e (f ∷ es) q h =
      All-if Q (before f.0 e.0) _ _ (λ _. (h.0, insert_name-All e es q h.1)) (λ _. (q, h))

  sort-All : (es : List (Text × Text)) → All Q es → All Q (sort es)
  unfolding sort
  sort-All [] h = tt
  sort-All (e ∷ es) h = insert_name-All e (sort es) h.0 (sort-All es h.1)

-- With no mapper given, every override holds the value of a variable of the environment that has the
-- prefix, and its path leads through the schema to a setting and is, put together, what follows the
-- prefix in the variable's name, but for case and separators; every node that the path goes through
-- is there, so no unknown name is set. So it is for a schema each entry of whose `normalized` stands
-- under what its name normalizes to and each of whose nodes with dynamic keys has a node for their
-- values, and for tables that keep _ and . as they are.
pub load_env_overrides-Names :
    (tables : Tables) (schema : EnvNode) (prefix : Text) (environ : List Text) (seg : Text)
    (rest : List Text) (w : Text)
    → KeepsSeparators tables
    → IsBuilt tables schema
    → value_at (load_env_overrides tables none schema prefix environ).0 seg rest ≡ some w
    → (name : Text) × Holds prefix environ (name, w)
      × Names tables schema (env_tokens tables (drop (length prefix) name)) (seg ∷ rest) true
unfolding load_env_overrides
load_env_overrides-Names tables schema prefix environ seg rest w low built h =
    elim (override_all-origin (path_of tables none schema prefix) (Holds prefix environ)
      (sort (env_values prefix environ [])) (empty, []) seg rest w
      (sort-All (Holds prefix environ) (env_values prefix environ [])
        (env_values-All (Holds prefix environ) prefix environ [] (λ e k. k) tt))
      h) [
        | inl (e, q, p, u) ↦ (
          e.0,
          subst (λ v. Holds prefix environ (e.0, v)) u q,
          subst (Sound (Names tables schema (env_tokens tables (drop (length prefix) e.0)))) p (
              resolve-Names tables schema (env_tokens tables (drop (length prefix) e.0)) low built),
        )
        | inr k ↦ cc (value_at-empty seg rest, k)
      ]
