-- ===== src/Stream/Deduper/Restart.antt =====
-- NewPersistentDeduper after a restart: what is restored from the store behaves as what was there.
use sisyphus.Prelude.{
  member, IsDistinct, suc, ◌+◌, ◌≤◌, String, ◌≡◌, refl, ap, sym, ◌∙◌, inl, inr, true, false, not,
  ◌&&◌, ◌||◌, List, [], ◌∷◌, arith, str_eq, eq_iff, eq_refl, length, Bool-cases,
}
use sisyphus.Fault.{ok}
use sisyphus.Kv.{Entry}
use sisyphus.Stream.Store.{KvOps, KvLaws, names, is_stored}
use sisyphus.Stream.Deduper.{
  Deduper, unseen, without, remembered, restored, new_persistent_deduper, seen_init_key,
  legacy_seen_init_key, default_seen_cap,
}
use sisyphus.Stream.Deduper.Fresh.{evict_fits, new_items, unseen-new_items, member-cong}
use sisyphus.Stream.Deduper.Bounds.{member-without}
use sisyphus.Stream.Deduper.Mirror.{is_marker, Persists}

IsDistinct-without : (k : String) (ks : List String) → IsDistinct ks → IsDistinct (without k ks)
IsDistinct-without k [] h = tt
IsDistinct-without k (i ∷ ks) h = elim (Bool-cases (str_eq i k)) [
  | inl e ↦ rw e (IsDistinct-without k ks h.1)
  | inr e ↦ rw e (ground (arith, member-without k i ks, h.0), IsDistinct-without k ks h.1)
]

length-without_lt :
    (k : String) (ks : List String) → member k ks ≡ true → suc (length (without k ks)) ≤ length ks
length-without_lt k [] h = cc
length-without_lt k (i ∷ ks) h = elim (Bool-cases (str_eq i k)) [
  | inl e ↦ rw e (omega (arith, length-without-le k ks))
  | inr e ↦ rw e (omega (arith, length-without_lt k ks (ground arith)))
]
  where
    length-without-le : (k : String) (ks : List String) → length (without k ks) ≤ length ks
    length-without-le k [] = omega arith
    length-without-le k (i ∷ ks) = ground (arith, length-without-le k ks)

-- A list with no repetition is no longer than one that has all its elements.
length_of_subset :
    (ks ls : List String)
    → IsDistinct ks
    → ((k : String) → member k ks ≡ true → member k ls ≡ true)
    → length ks ≤ length ls
length_of_subset [] ls h sub = omega arith
length_of_subset (k ∷ ks) ls h sub = omega (
  arith,
  length-without_lt k ls (sub k (simp eq_refl)),
  length_of_subset ks (without k ls) h.1
      (λ j m. ground (arith, member-without k j ls, sub j, m, h.0, member-cong k j ks)),
)

new_items-cong :
    {T : Type 0} (key : T → String) (ks js : List String) (items : List T)
    → ((k : String) → member k ks ≡ member k js)
    → new_items key ks items ≡ new_items key js items
new_items-cong key ks js [] h = refl
new_items-cong key ks js (it ∷ items) h = elim (Bool-cases (member (key it) js)) [
  | inl e ↦ rw (h (key it), e) (new_items-cong key ks js items h)
  | inr e ↦
      rw (h (key it), e)
        (ap (λ l. it ∷ l)
          (new_items-cong key (key it ∷ ks) (key it ∷ js) items
            (λ k. ap (λ b. str_eq (key it) k || b) (h k))))
]

abbrev unmarked_names : List (String × Entry) → List String
unmarked_names m = without legacy_seen_init_key (without seen_init_key (names m))

member-unmarked :
    (k : String) (m : List (String × Entry))
    → member k (unmarked_names m) ≡ (not (is_marker k) && member k (names m))
member-unmarked k m = ground (
  arith,
  member-without legacy_seen_init_key k (without seen_init_key (names m)),
  member-without seen_init_key k (names m),
  eq_iff k seen_init_key,
  eq_iff seen_init_key k,
  eq_iff k legacy_seen_init_key,
  eq_iff legacy_seen_init_key k,
)

module _ {S : Type 0} (kv : KvOps S) (laws : KvLaws kv) where
  -- What a restored deduper has in common with the one that was there.
  pub record Resumes (d d' : Deduper) : Type 0 where
    pub past_first : d'.first ≡ false
    pub same_keys : (k : String) → member k d'.keys ≡ member k d.keys
    pub no_longer : length d'.order ≤ length d.order
    pub same_max : d'.max ≡ d.max

  restored-Resumes :
      (ns : String) (d : Deduper) (s s' : S) (m : List (String × Entry))
      → Persists kv laws ns d s
      → d.first ≡ false
      → d.max ≡ default_seen_cap
      → IsDistinct (names m)
      → ((k : String) → member k (names m) ≡ is_stored (laws.value s ns k))
      → Resumes d (restored kv ns (ok m) s').0
  restored-Resumes ns d s s' m h f capped dist same =
      rw (evict_fits kv (remembered ns m) s' (inr fitting)) (record {
        past_first = ground (arith, same seen_init_key, h.marked f);
        same_keys = same_keys;
        no_longer = short;
        same_max = sym capped;
      })
    where
      -- Neither the order nor the cap lets anything be evicted.
      same_keys : (k : String) → member k (unmarked_names m) ≡ member k d.keys
      same_keys k =
          ground (arith, member-unmarked k m, same k, h.mirrors.held k, h.mirrors.unmarked k)

      short : length (unmarked_names m) ≤ length d.order
      short =
          length_of_subset (unmarked_names m) d.order
            (IsDistinct-without legacy_seen_init_key _
              (IsDistinct-without seen_init_key (names m) dist))
            (λ k e. sym (h.wf.agrees.same k) ∙ sym (same_keys k) ∙ e)

      fitting : length (unmarked_names m) + 0 ≤ default_seen_cap
      fitting = ground (arith, short, h.wf.fits)

  new_persistent-Resumes :
      (ns : String) (d : Deduper) (s : S)
      → Persists kv laws ns d s
      → d.first ≡ false
      → d.max ≡ default_seen_cap
      → Resumes d (new_persistent_deduper kv ns s).0
  unfolding new_persistent_deduper
  new_persistent-Resumes ns d s h f capped =
      let (m, e, dist, same) = laws.list_lem ns s h.mirrors.up in
      rw e (restored-Resumes ns d s (kv.list ns s).1 m h f capped dist same)

  -- A restart does not announce old items again, and hides no new one: a deduper that mirrors its
  -- memory in a store that is up, its first pass over, hands out of any batch that it has room for
  -- just what the deduper restored from that store hands out.
  pub unseen_after_restart :
      {T : Type 0} (key : T → String) (ns : String) (d : Deduper) (s s' : S) (items : List T)
      → Persists kv laws ns d s
      → d.first ≡ false
      → d.max ≡ default_seen_cap
      → length d.order + length items ≤ default_seen_cap
      → (unseen kv key (new_persistent_deduper kv ns s).0 items s').0 ≡ (unseen kv key d items s).0
  unseen_after_restart key ns d s s' items h f capped room =
      let r = new_persistent-Resumes ns d s h f capped in
      let d' = (new_persistent_deduper kv ns s).0 in
      let (old, _, _) = unseen-new_items kv key d items s (inr (omega arith)) in
      let (new, _, _) =
        unseen-new_items kv key d' items s' (inr (omega (arith, r.no_longer, r.same_max))) in
      let same = new_items-cong key d'.keys d.keys items r.same_keys in
      ground (arith, old, new, same, f, r.past_first)
