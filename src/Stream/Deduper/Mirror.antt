-- ===== src/Stream/Deduper/Mirror.antt =====
-- A persistent Deduper and its namespace in a store that is up: what is stored is what is seen.
use sisyphus.Prelude.{
  member, ℕ, String, ◌≡◌, refl, sym, subst, ◌∙◌, inl, inr, Bool, true, false, ◌||◌, Option, some,
  List, [], ◌∷◌, arith, str_eq, eq_iff, eq_refl, ltb, ◌==◌, length, Bool-cases, All,
}
use sisyphus.Stream.Store.{KvOps, KvLaws, is_stored}
use sisyphus.Stream.Deduper.{
  Deduper, evict_loop, evict, see, see_all, unseen, put_key, without, seen_init_key,
  legacy_seen_init_key,
}
use sisyphus.Stream.Deduper.Fresh.{remember}
use sisyphus.Stream.Deduper.Bounds.{
  Agrees, IsWf, member-without, Agrees-forget, Agrees-remember, evict-IsWf,
}

-- The keys by which a namespace is marked as initialised.
abbrev pub is_marker : String → Bool
is_marker k = str_eq k seen_init_key || str_eq k legacy_seen_init_key

module _ {S : Type 0} (kv : KvOps S) (laws : KvLaws kv) where
  -- The store holds the seen keys and, besides the markers, no other; no seen key is a marker.
  pub record Mirrors (ns : String) (keys : List String) (s : S) : Type 0 where
    pub up : laws.IsUp s
    pub unmarked : (k : String) → is_marker k ≡ true → member k keys ≡ false
    pub held : (k : String) → is_marker k ≡ false → is_stored (laws.value s ns k) ≡ member k keys

  abbrev pub is_marked : String → S → Bool
  is_marked ns s = is_stored (laws.value s ns seen_init_key)

  Mirrors-forget :
      (ns : String) (keys : List String) (o : String) (s : S)
      → Mirrors ns keys s
      → member o keys ≡ true
      → Mirrors ns (without o keys) (kv.delete ns o s).1
        × (is_marked ns (kv.delete ns o s).1 ≡ is_marked ns s)
  Mirrors-forget ns keys o s h e = (
    record {
      up = laws.delete-IsUp ns o s h.up;
      unmarked = λ k m. ground (arith, member-without o k keys, h.unmarked k);
      held = λ k m.
          rw (laws.delete-value ns o ns k s h.up)
            (simp eq_refl (ground (arith, member-without o k keys, h.held k)));
    },
    rw (laws.delete-value ns o ns seen_init_key s h.up) (
        simp eq_refl
          (ground (arith, h.unmarked o, eq_iff o seen_init_key, eq_iff seen_init_key o))),
  )

  Mirrors-remember :
      (ns : String) (keys : List String) (k : String) (s : S)
      → Mirrors ns keys s
      → is_marker k ≡ false
      → Mirrors ns (k ∷ keys) (kv.put ns k "1" 0 s).1
        × (is_marked ns (kv.put ns k "1" 0 s).1 ≡ is_marked ns s)
  Mirrors-remember ns keys k s h e = (
    record {
      up = laws.put-IsUp ns k "1" s h.up;
      unmarked = λ j m. ground (arith, h.unmarked j, eq_iff k j);
      held =
          λ j m. rw (laws.put-value ns k "1" ns j s h.up) (simp eq_refl (ground (arith, h.held j)));
    },
    rw (laws.put-value ns k "1" ns seen_init_key s h.up)
        (simp eq_refl (ground (arith, eq_iff k seen_init_key))),
  )

  evict_loop-Mirrors :
      (max : ℕ) (ns : String) (keys order : List String) (s : S)
      → Agrees keys order
      → Mirrors ns keys s
      → let (keys', order', s') = evict_loop kv max (some ns) keys order s in
        Mirrors ns keys' s' × (is_marked ns s' ≡ is_marked ns s)
  unfolding evict_loop
  evict_loop-Mirrors max ns keys [] s a h = (h, refl)
  evict_loop-Mirrors max ns keys (o ∷ order) s a h =
      let (h', m) = Mirrors-forget ns keys o s h (a.same o ∙ simp eq_refl) in
      elim (Bool-cases (ltb max (length (o ∷ order)))) [
        | inl e ↦ rw e (
            let (h'', m') =
              evict_loop-Mirrors max ns (without o keys) order (kv.delete ns o s).1
                (Agrees-forget keys o order a) h' in
            (h'', m' ∙ m))
        | inr e ↦ rw e (h, refl)
      ]

  -- A persistent deduper over the namespace, whose memory is well formed.
  pub record Persists (ns : String) (d : Deduper) (s : S) : Type 0 where
    pub named : d.ns ≡ some ns
    pub wf : IsWf d
    pub mirrors : Mirrors ns d.keys s
    -- Once the first pass is over the namespace is marked.
    pub marked : d.first ≡ false → is_marked ns s ≡ true

  -- The same for a namespace that is known by an equation.
  abbrev Kept : Option String → ℕ → String → List String → List String → S → Type 0
  Kept o max ns keys order s =
      let (keys', order', s') = evict_loop kv max o keys order s in
      Mirrors ns keys' s' × (is_marked ns s' ≡ is_marked ns s)

  loop-Mirrors :
      (o : Option String) (max : ℕ) (ns : String) (keys order : List String) (s : S)
      → o ≡ some ns
      → Agrees keys order
      → Mirrors ns keys s
      → Kept o max ns keys order s
  loop-Mirrors o max ns keys order s e a h =
      subst (λ x. Kept x max ns keys order s) (sym e) (evict_loop-Mirrors max ns keys order s a h)

  put_key_of :
      (o : Option String) (ns k : String) (s : S)
      → o ≡ some ns
      → put_key kv o k s ≡ (kv.put ns k "1" 0 s).1
  unfolding put_key
  put_key_of o ns k s e = rw e

  evict-Persists :
      (ns : String) (d : Deduper) (s : S)
      → d.ns ≡ some ns
      → Agrees d.keys d.order
      → Mirrors ns d.keys s
      → (d.first ≡ false → is_marked ns s ≡ true)
      → Persists ns (evict kv d s).0 (evict kv d s).1
  evict-Persists ns d s n a h m = record {
    named = unfold evict in ground (arith, n);
    wf = evict-IsWf kv d s a;
    mirrors = mirrors;
    marked = marked;
  }
    where
      loop : Kept d.ns d.max ns d.keys d.order s
      loop = loop-Mirrors d.ns d.max ns d.keys d.order s n a h

      mirrors : Mirrors ns (evict kv d s).0.keys (evict kv d s).1
      mirrors =
          unfold evict in elim (Bool-cases (d.max == 0)) [ inl e ↦ rw e h | inr e ↦ rw e loop.0 ]

      marked : (evict kv d s).0.first ≡ false → is_marked ns (evict kv d s).1 ≡ true
      marked =
          unfold evict in
          elim (Bool-cases (d.max == 0)) [ inl e ↦ rw e m | inr e ↦ rw e (λ f. loop.1 ∙ m f) ]

  see-Persists :
      (ns : String) (d : Deduper) (k : String) (s : S)
      → is_marker k ≡ false
      → Persists ns d s
      → let (d', s', _) = see kv d k s in Persists ns d' s'
  unfolding see
  see-Persists ns d k s plain h = elim (Bool-cases (member k d.keys)) [
    | inl e ↦ rw e h
    | inr e ↦
        rw (e, put_key_of d.ns ns k s h.named)
          (let (h', m) = Mirrors-remember ns d.keys k s h.mirrors plain in
            evict-Persists ns (remember d k) (kv.put ns k "1" 0 s).1 h.named
              (Agrees-remember d.keys d.order k h.wf.agrees e) h' (λ f. m ∙ h.marked f))
  ]

  -- The end of a first pass.
  mark-Persists :
      (ns : String) (d : Deduper) (s : S)
      → Persists ns d s
      → Persists ns (record d { first = false }) (put_key kv d.ns seen_init_key s)
  mark-Persists ns d s h = rw (put_key_of d.ns ns seen_init_key s h.named) (record {
    named = h.named;
    wf = record { agrees = h.wf.agrees; fits = h.wf.fits };
    mirrors = record {
      up = laws.put-IsUp ns seen_init_key "1" s h.mirrors.up;
      unmarked = h.mirrors.unmarked;
      held = λ k m.
          rw (laws.put-value ns seen_init_key "1" ns k s h.mirrors.up)
            (ground (arith, h.mirrors.held k m, eq_iff seen_init_key k, eq_iff k seen_init_key));
    };
    marked = λ f.
        rw (laws.put-value ns seen_init_key "1" ns seen_init_key s h.mirrors.up) (simp eq_refl);
  })

  module _ {T : Type 0} (key : T → String) where
    abbrev pub IsPlain : List T → Type 0
    IsPlain items = All (λ it. is_marker (key it) ≡ false) items

    see_all-Persists :
        (ns : String) (d : Deduper) (items : List T) (s : S)
        → IsPlain items
        → Persists ns d s
        → let (_, d', s') = see_all kv key d items s in Persists ns d' s'
    unfolding see_all
    see_all-Persists ns d [] s plain h = h
    see_all-Persists ns d (it ∷ items) s plain h =
        see_all-Persists ns (see kv d (key it) s).0 items (see kv d (key it) s).1 plain.1
          (see-Persists ns d (key it) s plain.0 h)

    -- A call of Unseen on a store that is up, so that none of the store calls that it makes fails, and
    -- on items whose keys are no markers, leaves the store a mirror of the memory, if it was one:
    -- what is evicted is deleted there, what is seen is stored, and the namespace gets its mark.
    pub unseen-Persists :
        (ns : String) (d : Deduper) (items : List T) (s : S)
        → IsPlain items
        → Persists ns d s
        → let (_, d', s') = unseen kv key d items s in Persists ns d' s'
    unfolding unseen
    unseen-Persists ns d items s plain h =
        let h' = see_all-Persists ns d items s plain h in
        elim (Bool-cases (see_all kv key d items s).1.first) [
          | inl e ↦ rw e (mark-Persists ns _ _ h')
          | inr e ↦ rw e h'
        ]
