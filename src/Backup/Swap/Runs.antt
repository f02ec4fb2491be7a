-- ===== src/Backup/Swap/Runs.antt =====
-- The end of swap.run of backup/backup.go, from an aside directory that is empty.
use sisyphus.Prelude.{
  subst, String, ◌≡◌, refl, sym, ap, inl, inr, true, false, Option, none, List, [], ◌∷◌, arith,
  str_eq, eq_iff, member, All, Bool-cases,
}
use sisyphus.Fault.{Error, Result, ok, err}
use sisyphus.Engine.{◌>>◌}
use sisyphus.Engine.Triples.{Post, Triple, Triple-pure, Triple-bind, Triple-attempt, Triple-imp}
use sisyphus.Backup.Swap.{
  Dir, Swap, Outcome, replaced, put_back, half_replaced, concluding, set_all_aside, place_all,
  family, run,
}
use sisyphus.Backup.Swap.Rollback.{
  Moving, Placing, IsCleared, set_all_aside-Clears, place_all-Places, reversed_onto,
}
use sisyphus.Backup.Swap.Endings.{RolledBack, Ended, restored_to, abort-RolledBack, All-member}

All-reversed :
    (P : String → Type 0) (ns done : List String)
    → All P (reversed_onto ns done)
    → All P ns × All P done
All-reversed P [] done h = (tt, h)
All-reversed P (n ∷ ns) done h = let (a, b) = All-reversed P ns (n ∷ done) h in ((b.0, a), b.1)

All-family : (P : String → Type 0) (names : List String) → All P (family names) → All P names
unfolding family
All-family P [] h = tt
All-family P (n ∷ ns) h = (h.0, All-family P ns h.1.1.1)

All-at : (P : String → Type 0) (m : String) (ns : List String) → member m ns ≡ true → All P ns → P m
All-at P m [] e h = let q : true ≡ false = sym e in cc
All-at P m (n ∷ ns) e h = elim (Bool-cases (str_eq n m)) [
  | inl q ↦ subst P ((eq_iff n m).0 q) h.0
  | inr q ↦ All-at P m ns (ground arith) h.1
]

-- Where the swap begins: nothing is set aside or placed.
abbrev pub start : Dir → Dir → Swap
start d0 st0 = record { dest = d0; stage = st0; aside = λ n. none; moved = []; placed = [] }

module _ (d0 st0 : Dir) (names : List String) (m : String) where
  -- A swap that begins with these files: nothing is set aside or placed.
  abbrev pub Fresh : Swap → Type 0
  Fresh t =
      ((k : String) → t.dest k ≡ d0 k)
      × ((k : String) → t.stage k ≡ st0 k)
      × ((k : String) → t.aside k ≡ none)
      × (t.moved ≡ [])
      × (t.placed ≡ [])

  Fresh-IsCleared : (t : Swap) → Fresh t → IsCleared d0 st0 (family names) [] t
  Fresh-IsCleared t h = (
    record {
      in_dest = λ k.
          let mv : member k t.moved ≡ false = ap (member k) h.3 in
          let pl : member k t.placed ≡ false = ap (member k) h.4 in ground (arith, h.0 k);
      in_aside =
          λ k. let mv : member k t.moved ≡ false = ap (member k) h.3 in ground (arith, h.2 k);
      in_stage =
          λ k. let pl : member k t.placed ≡ false = ap (member k) h.4 in ground (arith, h.1 k);
      fresh = λ k a b. let pl : member k t.placed ≡ false = ap (member k) h.4 in cc;
      within = λ k a. let mv : member k t.moved ≡ false = ap (member k) h.3 in cc;
    },
    h.4,
    tt,
  )

  IsCleared-Placing :
      (t : Swap)
      → IsCleared d0 st0 (family names) (reversed_onto (family names) []) t
      → Placing d0 st0 (family names) [] names t
  IsCleared-Placing t h =
      let (a, b) = All-reversed _ (family names) [] h.2 in
      record { moving = h.0; is_placed = h.1; clear = All-family _ names a; cleared = a }

  Placing-restored :
      (t : Swap) → Placing d0 st0 (family names) names [] t → t.dest m ≡ restored_to d0 st0 names m
  Placing-restored t h =
      let p : member m t.placed ≡ member m names = ap (member m) h.is_placed in
      elim (Bool-cases (member m (family names))) [
        | inl e ↦
            let c : member m t.moved ≡ false → d0 m ≡ none =
              All-at _ m (family names) e h.cleared in
            ground (arith, h.moving.in_dest m, c)
        | inr e ↦ ground (arith, h.moving.in_dest m, h.moving.within m)
      ]

  abbrev Attempted : Result (Unit {0}) → Swap → Type 0
  Attempted (ok u) t = t.dest m ≡ restored_to d0 st0 names m
  Attempted (err e) t = Moving d0 st0 (family names) t

  moves-Attempted :
      Triple
        (IsCleared d0 st0 (family names) [])
        (set_all_aside (family names) >> place_all names)
        (λ u. Attempted (ok u))
        (λ e. Attempted (err e))
  moves-Attempted =
      Triple-bind
        (set_all_aside-Clears d0 st0 (family names) (family names) [] (All-member _ _ (λ k e. e)))
        (λ u.
          Triple-imp (place_all-Places d0 st0 (family names) names [])
            (λ t h. IsCleared-Placing t h) (λ v t h. Placing-restored t h) (λ e t h. h))

  RolledBack-Ended : (o : Outcome) (t : Swap) → RolledBack d0 m o t → Ended d0 st0 names m o t
  RolledBack-Ended replaced t h = absurd h
  RolledBack-Ended (put_back e) t h = h
  RolledBack-Ended (half_replaced e stuck) t h = h

  concluding-Ended :
      (r : Result (Unit {0}))
      → Triple (Attempted r) (concluding r) (Ended d0 st0 names m) (λ e t. ⊥)
  concluding-Ended (ok u) = Triple-pure replaced (λ t h. h)
  concluding-Ended (err e) =
      Triple-imp (abort-RolledBack d0 st0 (family names) m e) (λ t h. h) RolledBack-Ended
        (λ x t h. h)

  run-Ended_triple :
      Triple (IsCleared d0 st0 (family names) []) (run names) (Ended d0 st0 names m) (λ e t. ⊥)
  unfolding run
  run-Ended_triple =
      Triple-bind (Triple-attempt Attempted moves-Attempted) (λ r. concluding-Ended r)

  pub run-Ended_from : Triple Fresh (run names) (Ended d0 st0 names m) (λ e t. ⊥)
  run-Ended_from = Triple-imp run-Ended_triple Fresh-IsCleared (λ o t h. h) (λ e t h. h)

-- A restore, whichever renames and other calls fail, its own rollback's included, ends in one of
-- three ways. It is done: each restored name has what was staged for it, the .wal and .tmp files
-- beside them are gone, and every other name has what it had. Or it reports that every previous file
-- is back, and every name has what it had. Or it reports the names that could not be put back: each
-- other name has what it had, and no file is lost, it is back or it lies in the aside directory.
pub run-Ended :
    (d0 st0 : Dir) (names : List String) (m : String) (faults : List (Option Error))
    → let r = run names (record { table = start d0 st0; faults = faults }) in
      Post (Ended d0 st0 names m) (λ e t. ⊥) r.0 r.1.table
run-Ended d0 st0 names m faults =
    (run-Ended_from d0 st0 names m).at (record { table = start d0 st0; faults = faults })
      (λ k. refl, λ k. refl, λ k. refl, refl, refl)
