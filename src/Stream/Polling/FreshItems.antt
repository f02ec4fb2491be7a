-- ===== src/Stream/Polling/FreshItems.antt =====
-- What Source.Run of stream/source.go hands on, over its whole life.
use sisyphus.Prelude.{
  member, ◌+◌, String, ◌≡◌, refl, sym, ap, ◌∙◌, inl, inr, Bool, true, false, ◌||◌, Option, some,
  List, [], ◌∷◌, ◌++◌, map, arith, str_eq, eq_iff, length, length-append, any, Bool-cases,
}
use sisyphus.Fault.{Error}
use sisyphus.Stream.Store.{KvOps}
use sisyphus.Stream.Deduper.{Deduper, unseen}
use sisyphus.Stream.Deduper.Fresh.{
  new_items, HasRoom, unseen-new_items, unseen-HasRoom, member-cong,
}
use sisyphus.Stream.Deduper.Bounds.{member-append}
use sisyphus.Stream.Polling.{Emission, items, failed, of_items, forwarded, run_from}

module _ {T : Type 0} where
  -- The items of a stream, and its errors, in order.
  abbrev pub all_items : List (Emission T) → List T
  all_items [] = []
  all_items (items xs ∷ ems) = xs ++ all_items ems
  all_items (failed e ∷ ems) = all_items ems

  abbrev pub errors : List (Emission T) → List Error
  errors [] = []
  errors (items xs ∷ ems) = errors ems
  errors (failed e ∷ ems) = e ∷ errors ems

  -- Every send is received.
  abbrev pub AllTaken : List (Emission T) → List Bool → Type 0
  AllTaken [] taken = Unit {0}
  AllTaken (e ∷ ems) [] = ⊥
  AllTaken (e ∷ ems) (b ∷ taken) = (b ≡ true) × AllTaken ems taken

  AllTaken-more :
      (ems : List (Emission T)) (b : Bool) (taken : List Bool)
      → b ≡ true
      → AllTaken ems taken
      → AllTaken ems (b ∷ taken)
  AllTaken-more [] b taken e h = tt
  AllTaken-more (x ∷ ems) b [] e h = absurd h
  AllTaken-more (x ∷ ems) b (c ∷ taken) e h = (e, AllTaken-more ems c taken h.0 h.1)

  -- The items of the first emission that has any, and those of the emissions after it.
  abbrev pub baseline : List (Emission T) → List T
  baseline [] = []
  baseline (items xs ∷ ems) = xs
  baseline (failed e ∷ ems) = baseline ems

  abbrev pub after_baseline : List (Emission T) → List T
  after_baseline [] = []
  after_baseline (items xs ∷ ems) = all_items ems
  after_baseline (failed e ∷ ems) = after_baseline ems

module _ {T : Type 0} (key : T → String) where
  new_items-cong :
      (ks js : List String) (xs : List T)
      → ((k : String) → member k ks ≡ member k js)
      → new_items key ks xs ≡ new_items key js xs
  new_items-cong ks js [] h = refl
  new_items-cong ks js (x ∷ xs) h = elim (Bool-cases (member (key x) js)) [
    | inl e ↦ rw (h (key x)) (rw e (new_items-cong ks js xs h))
    | inr e ↦ rw (h (key x)) (
        rw e (
          ap (λ l. x ∷ l)
            (new_items-cong (key x ∷ ks) (key x ∷ js) xs
              (λ k. ap (λ b. str_eq (key x) k || b) (h k)))))
  ]

  new_items-append :
      (ks : List String) (xs ys : List T)
      → new_items key ks (xs ++ ys) ≡ new_items key ks xs ++ new_items key (map key xs ++ ks) ys
  new_items-append ks [] ys = refl
  new_items-append ks (x ∷ xs) ys = elim (Bool-cases (member (key x) ks)) [
    | inl e ↦ rw e (
        new_items-append ks xs ys
        ∙ ap (λ l. new_items key ks xs ++ l)
            (new_items-cong (map key xs ++ ks) (key x ∷ map key xs ++ ks) ys (λ k. ground (
              arith,
              e,
              member-append k (map key xs) ks,
              member-cong (key x) k ks,
              eq_iff (key x) k,
            ))))
    | inr e ↦ rw e (
        ap (λ l. x ∷ l)
          (new_items-append (key x ∷ ks) xs ys
            ∙ ap (λ l. new_items key (key x ∷ ks) xs ++ l)
                (new_items-cong (map key xs ++ key x ∷ ks) (key x ∷ map key xs ++ ks) ys (λ k.
                  ground (
                    arith,
                    member-append k (map key xs) ks,
                    member-append k (map key xs) (key x ∷ ks),
                  )))))
  ]

  -- What is handed on is all that it should be.
  abbrev pub HandsOn : List String → List (Emission T) → List (Emission T) → Type 0
  HandsOn ks ems out =
      (all_items out ≡ new_items key ks (all_items ems)) × (errors out ≡ errors ems)

  -- The items of one emission, and what is sent for them.
  forwarded-HandsOn :
      (rest : List Bool → List (Emission T)) (xs new : List T) (taken : List Bool)
      (ks js : List String) (ems : List (Emission T))
      → new ≡ new_items key ks xs
      → ((k : String) → member k js ≡ member k (map key xs ++ ks))
      → AllTaken (items xs ∷ ems) taken
      → ((taken : List Bool) → AllTaken ems taken → HandsOn js ems (rest taken))
      → HandsOn ks (items xs ∷ ems) (forwarded rest (of_items new) taken)
  forwarded-HandsOn rest xs new [] ks js ems e m h f = absurd h
  forwarded-HandsOn rest xs [] (b ∷ taken) ks js ems e m h f =
      let (a, c) = f (b ∷ taken) (AllTaken-more ems b taken h.0 h.1) in
      (
        a
            ∙ new_items-cong js (map key xs ++ ks) (all_items ems) m
            ∙ ap (λ l. l ++ new_items key (map key xs ++ ks) (all_items ems)) e
            ∙ sym (new_items-append ks xs (all_items ems)),
        c,
      )
  forwarded-HandsOn rest xs (n ∷ new) (false ∷ taken) ks js ems e m h f = let q = h.0 in cc
  forwarded-HandsOn rest xs (n ∷ new) (true ∷ taken) ks js ems e m h f =
      let (a, c) = f taken h.1 in
      (
        ap (λ l. (n ∷ new) ++ l) (a ∙ new_items-cong js (map key xs ++ ks) (all_items ems) m)
            ∙ ap (λ l. l ++ new_items key (map key xs ++ ks) (all_items ems)) e
            ∙ sym (new_items-append ks xs (all_items ems)),
        c,
      )

  module _ {S : Type 0} (kv : KvOps S) (ns : Option String) where
    keys_of :
        (k : String) (xs : List T) (ks : List String)
        → (member k ks || any (λ it. str_eq (key it) k) xs) ≡ member k (map key xs ++ ks)
    keys_of k [] ks = ground arith
    keys_of k (x ∷ xs) ks = ground (arith, keys_of k xs ks)

    pub run_from-HandsOn :
        (d : Deduper) (s : S) (ems : List (Emission T)) (taken : List Bool)
        → d.first ≡ false
        → HasRoom (length (all_items ems)) d
        → AllTaken ems taken
        → HandsOn d.keys ems (run_from kv key ns (some d) s ems taken)
    unfolding run_from
    run_from-HandsOn d s [] taken first room h = (refl, refl)
    run_from-HandsOn d s (failed e ∷ ems) [] first room h = absurd h
    run_from-HandsOn d s (failed e ∷ ems) (false ∷ taken) first room h = let q = h.0 in cc
    run_from-HandsOn d s (failed e ∷ ems) (true ∷ taken) first room h =
        let (a, c) = run_from-HandsOn d s ems taken first room h.1 in (a, ap (λ l. e ∷ l) c)
    run_from-HandsOn d s (items xs ∷ ems) taken first room h =
        let (out, again, keys) = unseen-new_items kv key d xs s (first_part room) in
        forwarded-HandsOn
          (run_from kv key ns (some (unseen kv key d xs s).1) (unseen kv key d xs s).2 ems) xs
          (unseen kv key d xs s).0 taken d.keys (unseen kv key d xs s).1.keys ems
          (out ∙ rw first refl) (λ k. keys k ∙ keys_of k xs d.keys) h
          (λ taken h.
            run_from-HandsOn (unseen kv key d xs s).1 (unseen kv key d xs s).2 ems taken again
              (unseen-HasRoom kv key d xs s (length (all_items ems)) (whole room)) h)
      where
        first_part : HasRoom (length (xs ++ all_items ems)) d → HasRoom (length xs) d
        first_part (inl e) = inl e
        first_part (inr e) = inr (omega (arith, length-append xs (all_items ems)))

        whole :
            HasRoom (length (xs ++ all_items ems)) d
            → HasRoom (length xs + length (all_items ems)) d
        whole (inl e) = inl e
        whole (inr e) = inr (omega (arith, length-append xs (all_items ems)))

  abbrev pub StartsFresh : List (Emission T) → List (Emission T) → Type 0
  StartsFresh ems out =
      (all_items out ≡ new_items key (map key (baseline ems)) (after_baseline ems))
      × (errors out ≡ errors ems)
