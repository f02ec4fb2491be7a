-- ===== src/Stream/Deduper/Fresh.antt =====
-- What Unseen hands out: the items whose key is new, each key once, and nothing on a first pass.
use sisyphus.Prelude.{
  member, ℕ, suc, ◌+◌, ◌≤◌, String, ◌≡◌, refl, ap, ◌∙◌, ◌⊎◌, inl, inr, true, false, not, ◌||◌,
  Option, List, [], ◌∷◌, ◌++◌, arith, str_eq, eq_iff, if◌then◌else◌, length, length-append, any,
  Bool-cases, eq_refl,
}
use sisyphus.Stream.Store.{KvOps}
use sisyphus.Stream.Deduper.{Deduper, evict_loop, evict, see, see_all, unseen, put_key}

-- The items whose key is not among `ks`, and is not that of an earlier item.
abbrev pub new_items : {T : Type 0} → (T → String) → List String → List T → List T
new_items key ks [] = []
new_items key ks (it ∷ items) =
    let skip = new_items key ks items in
    let keep = new_items key (key it ∷ ks) items in if member (key it) ks then skip else it ∷ keep

pub member-cong : (j k : String) (ks : List String) → str_eq j k ≡ true → member j ks ≡ member k ks
member-cong j k ks h = ap (λ x. member x ks) ((eq_iff j k).0 h)

-- Room for n more keys before the oldest is forgotten. A cap of 0 is none.
abbrev pub HasRoom : ℕ → Deduper → Type 0
HasRoom n d = (d.max ≡ 0) ⊎ (length d.order + n ≤ d.max)

abbrev pub remember : Deduper → String → Deduper
remember d k = record d { keys = k ∷ d.keys; order = d.order ++ k ∷ [] }

module _ {S : Type 0} (kv : KvOps S) where
  evict_loop_fits :
      (max : ℕ) (ns : Option String) (keys order : List String) (s : S)
      → length order ≤ max
      → evict_loop kv max ns keys order s ≡ (keys, order, s)
  unfolding evict_loop
  evict_loop_fits max ns keys [] s h = refl
  evict_loop_fits max ns keys (o ∷ order) s h = ground arith

  pub evict_fits : (d : Deduper) (s : S) → HasRoom 0 d → evict kv d s ≡ (d, s)
  unfolding evict
  evict_fits d s (inl h) = ground arith
  evict_fits d s (inr h) =
      rw (evict_loop_fits d.max d.ns d.keys d.order s (omega arith)) (ground arith)

  see_fits :
      (d : Deduper) (k : String) (s : S)
      → HasRoom 1 d
      → see kv d k s ≡ (
          if member k d.keys
          then (d, s, false)
          else (remember d k, put_key kv d.ns k s, not d.first))
  unfolding see
  see_fits d k s room = rw (evict_fits (remember d k) (put_key kv d.ns k s) (roomy room))
    where
      roomy : HasRoom 1 d → HasRoom 0 (remember d k)
      roomy (inl h) = inl h
      roomy (inr h) = inr (omega (arith, length-append d.order (k ∷ [])))

  module _ {T : Type 0} (key : T → String) where
    see_all_fits :
        (d : Deduper) (items : List T) (s : S)
        → HasRoom (length items) d
        → ((see_all kv key d items s).0 ≡ (if d.first then [] else new_items key d.keys items))
          × ((see_all kv key d items s).1.first ≡ d.first)
          × ((k : String)
              → member k (see_all kv key d items s).1.keys
                ≡ (member k d.keys || any (λ it. str_eq (key it) k) items))
    unfolding see_all
    see_all_fits d [] s room = (ground arith, refl, λ k. ground arith)
    see_all_fits d (it ∷ items) s room =
        rw (see_fits d (key it) s (one room)) (elim (Bool-cases (member (key it) d.keys)) [
          | inl e ↦ rw e (
              let (out, first, keys) = see_all_fits d items s (fewer room) in
              (
                out,
                first,
                λ k. ground (arith, keys k, member-cong (key it) k d.keys, eq_iff (key it) k),
              ))
          | inr e ↦ rw e (
              let d' = remember d (key it) in
              let (out, first, keys) =
                see_all_fits d' items (put_key kv d.ns (key it) s) (next room) in
              (ground (arith, out, first), first, λ k. ground (arith, keys k)))
        ])
      where
        one : HasRoom (suc (length items)) d → HasRoom 1 d
        one (inl h) = inl h
        one (inr h) = inr (omega arith)

        fewer : HasRoom (suc (length items)) d → HasRoom (length items) d
        fewer (inl h) = inl h
        fewer (inr h) = inr (omega arith)

        next : HasRoom (suc (length items)) d → HasRoom (length items) (remember d (key it))
        next (inl h) = inl h
        next (inr h) = inr (omega (arith, length-append d.order (key it ∷ [])))

    see_all-HasRoom :
        (d : Deduper) (items : List T) (s : S) (n : ℕ)
        → HasRoom (length items + n) d
        → HasRoom n (see_all kv key d items s).1
    unfolding see_all
    see_all-HasRoom d [] s n room = elim room [ inl h ↦ inl h | inr h ↦ inr (omega arith) ]
    see_all-HasRoom d (it ∷ items) s n room =
        rw (see_fits d (key it) s (one room)) (elim (Bool-cases (member (key it) d.keys)) [
          | inl e ↦ rw e (see_all-HasRoom d items s n (fewer room))
          | inr e ↦ rw e (
              see_all-HasRoom (remember d (key it)) items (put_key kv d.ns (key it) s) n
                (next room))
        ])
      where
        one : HasRoom (suc (length items) + n) d → HasRoom 1 d
        one (inl h) = inl h
        one (inr h) = inr (omega arith)

        fewer : HasRoom (suc (length items) + n) d → HasRoom (length items + n) d
        fewer (inl h) = inl h
        fewer (inr h) = inr (omega arith)

        next : HasRoom (suc (length items) + n) d → HasRoom (length items + n) (remember d (key it))
        next (inl h) = inl h
        next (inr h) = inr (omega (arith, length-append d.order (key it ∷ [])))

    -- A call of Unseen takes as much room as it has items.
    pub unseen-HasRoom :
        (d : Deduper) (items : List T) (s : S) (n : ℕ)
        → HasRoom (length items + n) d
        → HasRoom n (unseen kv key d items s).1
    unfolding unseen
    unseen-HasRoom d items s n room = elim (Bool-cases (see_all kv key d items s).1.first) [
      | inl e ↦ rw e (see_all-HasRoom d items s n room)
      | inr e ↦ rw e (see_all-HasRoom d items s n room)
    ]

    -- While nothing has to be forgotten, Unseen hands out, in order, exactly the items whose key was
    -- not seen before, each key once, or nothing where this is the first pass; afterwards the seen
    -- keys are the old ones and those of the items, and no pass is the first one any more.
    pub unseen-new_items :
        (d : Deduper) (items : List T) (s : S)
        → HasRoom (length items) d
        → ((unseen kv key d items s).0 ≡ (if d.first then [] else new_items key d.keys items))
          × ((unseen kv key d items s).1.first ≡ false)
          × ((k : String)
              → member k (unseen kv key d items s).1.keys
                ≡ (member k d.keys || any (λ it. str_eq (key it) k) items))
    unfolding unseen
    unseen-new_items d items s room =
        let (out, first, keys) = see_all_fits d items s room in
        (ground (arith, out, first), ground (arith, first), λ k. ground (arith, first, keys k))

    all_known :
        (ks : List String) (items : List T)
        → ((it : T) → any (λ x. str_eq (key x) (key it)) items ≡ true → member (key it) ks ≡ true)
        → new_items key ks items ≡ []
    all_known ks [] h = refl
    all_known ks (it ∷ items) h =
        rw (h it (simp eq_refl)) (all_known ks items (λ x e. h x (ground arith)))

    -- A batch that comes again, with the same keys, is not handed out again.
    pub unseen_again :
        (d : Deduper) (items : List T) (s s' : S)
        → HasRoom (length items) d
        → HasRoom (length items) (unseen kv key d items s).1
        → (unseen kv key (unseen kv key d items s).1 items s').0 ≡ []
    unseen_again d items s s' room room' =
        let (out, first, keys) = unseen-new_items d items s room in
        let (out', _, _) = unseen-new_items (unseen kv key d items s).1 items s' room' in
        out' ∙ rw first (all_known _ items (λ it e. keys (key it) ∙ ground (arith, e)))
