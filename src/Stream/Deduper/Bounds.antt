-- ===== src/Stream/Deduper/Bounds.antt =====
-- The memory of a Deduper: its order of keys has no key twice, agrees with the map, and never
-- grows past the cap, whatever it is fed and whatever the store does.
use sisyphus.Prelude.{
  member, IsDistinct, ℕ, ◌≤◌, String, ◌≡◌, refl, sym, ◌∙◌, ◌⊎◌, inl, inr, false, not, ◌&&◌, ◌||◌,
  Option, List, [], ◌∷◌, ◌++◌, arith, str_eq, eq_iff, ltb, ◌==◌, length, Bool-cases,
}
use sisyphus.Stream.Store.{KvOps}
use sisyphus.Stream.Deduper.{
  Deduper, evict_loop, evict, see, see_all, unseen, put_key, delete_key, without, new_deduper,
}
use sisyphus.Stream.Deduper.Fresh.{remember, member-cong}

pub record Agrees (keys order : List String) : Type 0 where
  pub distinct : IsDistinct order
  pub same : (k : String) → member k keys ≡ member k order

pub record IsWf (d : Deduper) : Type 0 where
  pub agrees : Agrees d.keys d.order
  pub fits : (d.max ≡ 0) ⊎ (length d.order ≤ d.max)

pub member-without :
    (k j : String) (ks : List String) → member j (without k ks) ≡ (not (str_eq k j) && member j ks)
member-without k j [] = ground arith
member-without k j (i ∷ ks) =
    ground (arith, member-without k j ks, eq_iff i k, eq_iff i j, eq_iff k j)

pub member-append :
    (k : String) (ks js : List String) → member k (ks ++ js) ≡ (member k ks || member k js)
member-append k [] js = refl
member-append k (i ∷ ks) js = ground (arith, member-append k ks js)

pub IsDistinct-append :
    (ks : List String) (k : String)
    → IsDistinct ks
    → member k ks ≡ false
    → IsDistinct (ks ++ k ∷ [])
IsDistinct-append [] k h e = (refl, tt)
IsDistinct-append (i ∷ ks) k h e = (
  ground (arith, member-append i ks (k ∷ []), eq_iff k i, eq_iff i k),
  IsDistinct-append ks k h.1 (ground arith),
)

pub Agrees-forget :
    (keys : List String) (o : String) (order : List String)
    → Agrees keys (o ∷ order)
    → Agrees (without o keys) order
Agrees-forget keys o order h = record {
  distinct = h.distinct.1;
  same =
      λ k. ground (arith, member-without o k keys, h.same k, h.distinct.0, member-cong o k order);
}

pub Agrees-remember :
    (keys order : List String) (k : String)
    → Agrees keys order
    → member k keys ≡ false
    → Agrees (k ∷ keys) (order ++ k ∷ [])
Agrees-remember keys order k h e = record {
  distinct = IsDistinct-append order k h.distinct (sym (h.same k) ∙ e);
  same = λ j. ground (arith, member-append j order (k ∷ []), h.same j);
}

module _ {S : Type 0} (kv : KvOps S) where
  evict_loop-Agrees :
      (max : ℕ) (ns : Option String) (keys order : List String) (s : S)
      → Agrees keys order
      → Agrees (evict_loop kv max ns keys order s).0 (evict_loop kv max ns keys order s).1
        × (length (evict_loop kv max ns keys order s).1 ≤ max)
  unfolding evict_loop
  evict_loop-Agrees max ns keys [] s h = (h, omega arith)
  evict_loop-Agrees max ns keys (o ∷ order) s h = elim (Bool-cases (ltb max (length (o ∷ order)))) [
    | inl e ↦ rw e (
        evict_loop-Agrees max ns (without o keys) order (delete_key kv ns o s)
          (Agrees-forget keys o order h))
    | inr e ↦ rw e (h, ground arith)
  ]

  pub evict-IsWf : (d : Deduper) (s : S) → Agrees d.keys d.order → IsWf (evict kv d s).0
  unfolding evict
  evict-IsWf d s h = elim (Bool-cases (d.max == 0)) [
    | inl e ↦ rw e (record { agrees = h; fits = inl (ground arith) })
    | inr e ↦ rw e (
        let (a, b) = evict_loop-Agrees d.max d.ns d.keys d.order s h in
        record { agrees = a; fits = inr b })
  ]

  see-IsWf : (d : Deduper) (k : String) (s : S) → IsWf d → IsWf (see kv d k s).0
  unfolding see
  see-IsWf d k s h = elim (Bool-cases (member k d.keys)) [
    | inl e ↦ rw e h
    | inr e ↦ rw e (
        evict-IsWf (remember d k) (put_key kv d.ns k s)
          (Agrees-remember d.keys d.order k h.agrees e))
  ]

  module _ {T : Type 0} (key : T → String) where
    see_all-IsWf :
        (d : Deduper) (items : List T) (s : S) → IsWf d → IsWf (see_all kv key d items s).1
    unfolding see_all
    see_all-IsWf d [] s h = h
    see_all-IsWf d (it ∷ items) s h =
        see_all-IsWf (see kv d (key it) s).0 items (see kv d (key it) s).1 (see-IsWf d (key it) s h)

    -- A call of Unseen, with any items and any store, keeps the order of keys free of repetitions,
    -- equal to the map as a set, and within the cap.
    pub unseen-IsWf :
        (d : Deduper) (items : List T) (s : S) → IsWf d → IsWf (unseen kv key d items s).1
    unfolding unseen
    unseen-IsWf d items s h =
        let wf = see_all-IsWf d items s h in
        elim (Bool-cases (see_all kv key d items s).1.first) [
          | inl e ↦ rw e (record { agrees = wf.agrees; fits = wf.fits })
          | inr e ↦ rw e wf
        ]

pub IsWf-new : IsWf new_deduper
unfolding new_deduper
IsWf-new = record { agrees = record { distinct = tt; same = λ k. refl }; fits = inr (omega arith) }
