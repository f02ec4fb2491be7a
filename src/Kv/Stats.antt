-- ===== src/Kv/Stats.antt =====
-- Namespaces and Stats of kv/kv.go. ORDER BY sorts by the engine's order of texts, which is not
-- part of the repository: it is the parameter `before`.
use sisyphus.Prelude.{
  ℕ, ◌≤◌, ◌-◌, ◌+◌, String, ◌≡◌, refl, ap, ◌∙◌, Bool, false, not, ◌&&◌, ◌||◌, Option, none, some,
  List, [], ◌∷◌, map, arith, str_eq, eq_iff, if◌then◌else◌, filter, any, count, leb, ltb,
  Bool-cases, inl, inr,
}
use sisyphus.Fault.{ok}
use sisyphus.Engine.{Db, Exec, ◌>>=◌, ◌>>◌, query, call, pure, with_db}
use sisyphus.Kv.{Row, Table, in_namespace, is_stale, scan_time, sweep_on, delete_where}

pub record NamespaceStat : Type 0 where
  pub namespace : String
  pub entries : ℕ
  pub expired : ℕ
  pub fresh : ℕ
  pub oldest : ℕ
  pub newest : ℕ

-- min(updated_at) and max(updated_at), NULL over no rows.
abbrev pub min_of : List Row → Option ℕ
min_of [] = none
min_of (r ∷ rows) = elim (min_of rows) [
  | none ↦ some r.updated_at
  | some m ↦ some (if ltb r.updated_at m then r.updated_at else m)
]

abbrev pub max_of : List Row → Option ℕ
max_of [] = none
max_of (r ∷ rows) = elim (max_of rows) [
  | none ↦ some r.updated_at
  | some m ↦ some (if ltb m r.updated_at then r.updated_at else m)
]

-- The row `live`: expiry IS NULL OR expiry > ?
abbrev pub is_live_in : ℕ → String → Row → Bool
is_live_in now ns r = in_namespace ns r && not (is_stale now r)

-- One row of the aggregate query, scanned. `fresh` is the window, 0 for one that is not positive.
unfoldable pub stat : ℕ → ℕ → Table → String → NamespaceStat
unfolding scan_time
stat now fresh rows ns =
    let live = filter (is_live_in now ns) rows in
    record {
      namespace = ns;
      entries = count (is_live_in now ns) rows;
      expired = count (λ r. in_namespace ns r && is_stale now r) rows;
      fresh =
          if leb fresh 0
          then 0
          else count (λ r. is_live_in now ns r && leb (now - fresh) r.updated_at) rows;
      oldest = scan_time (min_of live);
      newest = scan_time (max_of live);
    }

-- The distinct namespaces of the rows, in the order in which they first appear.
abbrev pub namespaces_of : Table → List String
namespaces_of [] = []
namespaces_of (r ∷ rows) =
    r.namespace ∷ filter (λ ns. not (str_eq r.namespace ns)) (namespaces_of rows)

module _ (before : String → String → Bool) where
  abbrev pub sorted_insert : String → List String → List String
  sorted_insert ns [] = ns ∷ []
  sorted_insert ns (ms ∷ rest) = if before ns ms then ns ∷ ms ∷ rest else ms ∷ sorted_insert ns rest

  abbrev pub order_by : List String → List String
  order_by [] = []
  order_by (ns ∷ rest) = sorted_insert ns (order_by rest)

  unfoldable pub namespaces : ℕ → Exec Table (List String)
  unfolding ◌>>=◌ with_db sweep_on query call pure
  namespaces now =
      with_db
        (do sweep_on now; found ← query (λ rows. order_by (namespaces_of rows)); call; pure found)

  unfoldable pub stats : ℕ → ℕ → Exec Table (List NamespaceStat)
  unfolding ◌>>=◌ with_db query call pure stat
  stats now fresh = with_db (do
    found ← query (λ rows. map (stat now fresh rows) (order_by (namespaces_of rows)))
    call
    pure found)

-- What a summary counts.
pub record Accounts (now fresh : ℕ) (rows : Table) (st : NamespaceStat) : Type 0 where
  pub every_row : st.entries + st.expired ≡ count (in_namespace st.namespace) rows
  pub fresh_live : st.fresh ≤ st.entries
  pub bracket : st.oldest ≤ st.newest

abbrev pub has_name : String → List String → Bool
has_name ns names = any (λ ms. str_eq ms ns) names

has_name-filter :
    (ms ns : String) (names : List String)
    → has_name ns (filter (λ x. not (str_eq ms x)) names)
      ≡ (if str_eq ms ns then false else has_name ns names)
has_name-filter ms ns [] = ground arith
has_name-filter ms ns (x ∷ names) =
    ground (arith, has_name-filter ms ns names, eq_iff ms x, eq_iff ms ns, eq_iff x ns)

has_name-namespaces_of :
    (ns : String) (rows : Table) → has_name ns (namespaces_of rows) ≡ any (in_namespace ns) rows
has_name-namespaces_of ns [] = refl
has_name-namespaces_of ns (r ∷ rows) =
    ground
      (arith, has_name-filter r.namespace ns (namespaces_of rows), has_name-namespaces_of ns rows)

module _ (before : String → String → Bool) where
  has_name-insert :
      (ns ms : String) (names : List String)
      → has_name ns (sorted_insert before ms names) ≡ has_name ns (ms ∷ names)
  has_name-insert ns ms [] = refl
  has_name-insert ns ms (x ∷ names) = elim (Bool-cases (before ms x)) [
    | inl e ↦ rw e
    | inr e ↦ rw e (ground (arith, has_name-insert ns ms names))
  ]

  has_name-order_by :
      (ns : String) (names : List String) → has_name ns (order_by before names) ≡ has_name ns names
  has_name-order_by ns [] = refl
  has_name-order_by ns (x ∷ names) =
      has_name-insert ns x (order_by before names)
      ∙ ap (λ b. str_eq x ns || b) (has_name-order_by ns names)

  namespaces_result :
      (now : ℕ) (s : Db Table) (out : List String)
      → (namespaces before now s).0 ≡ ok out
      → out ≡ order_by before (namespaces_of (delete_where (is_stale now) s.table))
  unfolding namespaces
  namespaces_result now s out h = ground arith

  any_after_sweep :
      (now : ℕ) (ns : String) (rows : Table)
      → any (in_namespace ns) (delete_where (is_stale now) rows) ≡ any (is_live_in now ns) rows
  any_after_sweep now ns [] = refl
  any_after_sweep now ns (r ∷ rows) = ground (arith, any_after_sweep now ns rows)

  -- Where Namespaces succeeds, it lists exactly the namespaces that have a live row.
  pub namespaces_live :
      (now : ℕ) (s : Db Table) (out : List String) (ns : String)
      → (namespaces before now s).0 ≡ ok out
      → has_name ns out ≡ any (is_live_in now ns) s.table
  namespaces_live now s out ns h = rw (namespaces_result now s out h) (
      has_name-order_by ns (namespaces_of (delete_where (is_stale now) s.table))
      ∙ has_name-namespaces_of ns (delete_where (is_stale now) s.table)
      ∙ any_after_sweep now ns s.table)
