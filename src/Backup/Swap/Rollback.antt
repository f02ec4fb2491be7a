-- ===== src/Backup/Swap/Rollback.antt =====
-- What swap.run of backup/backup.go makes of the directory that is restored into.
use sisyphus.Prelude.{
  append-nil, append_assoc, subst, String, ◌≡◌, refl, sym, ap, ◌∙◌, Bool, true, false, ◌||◌, Option,
  none, some, List, [], ◌∷◌, ◌++◌, arith, str_eq, eq_iff, eq_refl, member, if◌then◌else◌, is_some,
  All, All-imp,
}
use sisyphus.Engine.Triples.{
  Post, Triple, Triple-pure, Triple-system, Triple-query, Triple-bind, Triple-update, Triple-imp,
}
use sisyphus.Backup.Swap.{
  Dir, set, Swap, rename_out, rename_in, set_aside_found, set_aside, set_all_aside, place_all,
}

pub member-append :
    (m n : String) (xs : List String) → member m (xs ++ n ∷ []) ≡ (member m xs || str_eq n m)
member-append m n [] = ground arith
member-append m n (x ∷ xs) = ground (arith, member-append m n xs)

abbrev pub reversed_onto : List String → List String → List String
reversed_onto [] done = done
reversed_onto (n ∷ ns) done = reversed_onto ns (n ∷ done)

-- In the midst of a restore: `d0` is what the directory held, `st0` what was staged, `fam` the names
-- that may be set aside.
module _ (d0 st0 : Dir) (fam : List String) where
  pub record Moving (t : Swap) : Type 0 where
    pub in_dest :
        (m : String)
        → t.dest m ≡ (if member m t.placed then st0 m else if member m t.moved then none else d0 m)
    pub in_aside : (m : String) → t.aside m ≡ (if member m t.moved then d0 m else none)
    pub in_stage : (m : String) → t.stage m ≡ (if member m t.placed then none else st0 m)
    pub fresh : (m : String) → member m t.placed ≡ true → member m t.moved ≡ false → d0 m ≡ none
    pub within : (m : String) → member m t.moved ≡ true → member m fam ≡ true

  abbrev pub Clear : Swap → String → Type 0
  Clear t m = member m t.moved ≡ false → d0 m ≡ none

  -- What was set aside so far leaves these names free.
  abbrev pub IsCleared : List String → Swap → Type 0
  IsCleared ns t = Moving t × (t.placed ≡ []) × All (Clear t) ns

  abbrev moved_out : String → String → Swap → Swap
  moved_out n c t = record t {
    dest = set n none t.dest;
    aside = set n (some c) t.aside;
    moved = t.moved ++ n ∷ [];
  }

  Moving-moved_out :
      (n c : String) (t : Swap)
      → member n fam ≡ true
      → Moving t
      → t.placed ≡ []
      → t.dest n ≡ some c
      → Moving (moved_out n c t)
  Moving-moved_out n c t f h p e = record {
    in_dest = λ m.
        let pm : member m t.placed ≡ false = ap (member m) p in
        ground (arith, h.in_dest m, member-append m n t.moved, eq_iff n m);
    in_aside = λ m.
        let pn : member n t.placed ≡ false = ap (member n) p in
        ground (arith, h.in_aside m, h.in_dest n, member-append m n t.moved, eq_iff n m);
    in_stage = h.in_stage;
    fresh = λ m q r. ground (arith, h.fresh m, member-append m n t.moved);
    within = λ m q. ground (arith, h.within m, member-append m n t.moved, eq_iff n m);
  }

  All-Clear-moved :
      (n c : String) (t : Swap) (ns : List String)
      → All (Clear t) ns
      → All (Clear (moved_out n c t)) ns
  All-Clear-moved n c t ns h = All-imp ns (λ m k q. k (ground (arith, member-append m n t.moved))) h

  Clear-self : (n c : String) (t : Swap) → Clear (moved_out n c t) n
  Clear-self n c t q =
      let e : true ≡ false = ground (arith, member-append n n t.moved, eq_refl n) in cc

  -- Behind the rename, and before the name is noted.
  abbrev Noting : List String → String → Swap → Type 0
  Noting ns n t = IsCleared (n ∷ ns) (record t { moved = t.moved ++ n ∷ [] })

  rename_out-Post :
      (ns : List String) (n : String) (t : Swap) (o : Option String)
      → t.dest n ≡ o
      → member n fam ≡ true
      → IsCleared ns t
      → Post (λ u. Noting ns n) (λ e. Moving) (rename_out n o t).0 (rename_out n o t).1
  rename_out-Post ns n t none e f h = h.0
  rename_out-Post ns n t (some c) e f h =
      (Moving-moved_out n c t f h.0 h.1 e, h.1, (Clear-self n c t, All-Clear-moved n c t ns h.2))

  Clear-absent : (n : String) (t : Swap) → Moving t → t.placed ≡ [] → t.dest n ≡ none → Clear t n
  Clear-absent n t h p e q =
      let pn : member n t.placed ≡ false = ap (member n) p in ground (arith, h.in_dest n)

  absent_of : (o : Option String) → false ≡ is_some o → o ≡ none
  absent_of none h = refl
  absent_of (some c) h = cc

  set_aside_found-Clears :
      (ns : List String) (n : String) (b : Bool)
      → member n fam ≡ true
      → Triple
          (λ t. IsCleared ns t × (b ≡ is_some (t.dest n)))
          (set_aside_found n b)
          (λ u. IsCleared (n ∷ ns))
          (λ e. Moving)
  unfolding set_aside_found
  set_aside_found-Clears ns n false f =
      Triple-pure tt
        (λ t h. (h.0.0, h.0.1, (Clear-absent n t h.0.0 h.0.1 (absent_of (t.dest n) h.1), h.0.2)))
  set_aside_found-Clears ns n true f =
      Triple-bind
        (Triple-system (λ t. rename_out n (t.dest n) t)
          (λ t h. rename_out-Post ns n t (t.dest n) refl f h.0) (λ t e h. h.0.0))
        (λ u. Triple-update (λ t. record t { moved = t.moved ++ n ∷ [] }) (λ t h. h))

  set_aside-Clears :
      (ns : List String) (n : String)
      → member n fam ≡ true
      → Triple (IsCleared ns) (set_aside n) (λ u. IsCleared (n ∷ ns)) (λ e. Moving)
  unfolding set_aside
  set_aside-Clears ns n f =
      Triple-bind (Triple-query (λ t. is_some (t.dest n)) (λ t h. (h, refl)) (λ t e h. h.0))
        (λ b. set_aside_found-Clears ns n b f)

  -- The names that are still to come are all in `fam`.
  abbrev pub Within : List String → Type 0
  Within ns = All (λ n. member n fam ≡ true) ns

  pub set_all_aside-Clears :
      (ns done : List String)
      → Within ns
      → Triple
          (IsCleared done)
          (set_all_aside ns)
          (λ u. IsCleared (reversed_onto ns done))
          (λ e. Moving)
  unfolding set_all_aside
  set_all_aside-Clears [] done f = Triple-pure tt (λ t h. h)
  set_all_aside-Clears (n ∷ ns) done f =
      Triple-bind (set_aside-Clears done n f.0) (λ u. set_all_aside-Clears ns (n ∷ done) f.1)

  abbrev placed_in : String → String → Swap → Swap
  placed_in n c t = record t {
    stage = set n none t.stage;
    dest = set n (some c) t.dest;
    placed = t.placed ++ n ∷ [];
  }

  Moving-placed_in :
      (n c : String) (t : Swap)
      → Moving t
      → Clear t n
      → t.stage n ≡ some c
      → Moving (placed_in n c t)
  Moving-placed_in n c t h k e = record {
    in_dest =
        λ m. ground (arith, h.in_dest m, h.in_stage n, member-append m n t.placed, eq_iff n m);
    in_aside = h.in_aside;
    in_stage = λ m. ground (arith, h.in_stage m, member-append m n t.placed, eq_iff n m);
    fresh = λ m q r. ground (arith, h.fresh m, member-append m n t.placed, eq_iff n m, k);
    within = h.within;
  }

  -- Placing: what is placed is `done`, and the rest may be placed without loss.
  pub record Placing (done ns : List String) (t : Swap) : Type 0 where
    pub moving : Moving t
    pub is_placed : t.placed ≡ done
    pub clear : All (Clear t) ns
    pub cleared : All (Clear t) fam

  abbrev Marking : List String → String → List String → Swap → Type 0
  Marking done n ns t = Placing (done ++ n ∷ []) ns (record t { placed = t.placed ++ n ∷ [] })

  rename_in-Post :
      (done ns : List String) (n : String) (t : Swap) (o : Option String)
      → t.stage n ≡ o
      → Placing done (n ∷ ns) t
      → Post (λ u. Marking done n ns) (λ e. Moving) (rename_in n o t).0 (rename_in n o t).1
  rename_in-Post done ns n t none e h = h.moving
  rename_in-Post done ns n t (some c) e h = record {
    moving = Moving-placed_in n c t h.moving h.clear.0 e;
    is_placed = ap (λ l. l ++ n ∷ []) h.is_placed;
    clear = h.clear.1;
    cleared = h.cleared;
  }

  pub place_all-Places :
      (ns done : List String)
      → Triple (Placing done ns) (place_all ns) (λ u. Placing (done ++ ns) []) (λ e. Moving)
  unfolding place_all
  place_all-Places [] done = Triple-pure tt (λ t h. record {
    moving = h.moving;
    is_placed = h.is_placed ∙ sym (append-nil done);
    clear = tt;
    cleared = h.cleared;
  })
  place_all-Places (n ∷ ns) done =
      Triple-bind
        (Triple-system (λ t. rename_in n (t.stage n) t)
          (λ t h. rename_in-Post done ns n t (t.stage n) refl h) (λ t e h. h.moving))
        (λ u.
          Triple-bind (Triple-update (λ t. record t { placed = t.placed ++ n ∷ [] }) (λ t h. h))
            (λ u.
              Triple-imp (place_all-Places ns (done ++ n ∷ [])) (λ t h. h)
                (λ u t h. subst (λ l. Placing l [] t) (append_assoc done (n ∷ []) ns) h)
                (λ e t h. h)))
