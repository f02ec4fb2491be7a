-- ===== src/Backup/Swap/Aborting.antt =====
-- What swap.abort of backup/backup.go gives back, whichever of its own calls fail.
use sisyphus.Prelude.{
  String, ◌≡◌, refl, ◌⊎◌, inl, inr, Bool, true, false, ◌||◌, Option, none, some, List, [], ◌∷◌,
  arith, str_eq, eq_iff, member, if◌then◌else◌, Bool-cases,
}
use sisyphus.Fault.{Error, Result, ok, err}
use sisyphus.Engine.{◌>>=◌, pure, attempt, system}
use sisyphus.Engine.Triples.{Post, Triple, Triple-pure, Triple-system, Triple-bind, Triple-attempt}
use sisyphus.Backup.Swap.{Dir, set, Swap, remove_found, stuck_if, unplace_all}

-- In the midst of a rollback: `d0` is what the directory held, `mv` what was set aside, `p` and `q`
-- the names, not set aside and set aside, of which the file need not be back.
module _ (d0 : Dir) (mv : List String) where
  pub record Undoing (p q : String → Bool) (t : Swap) : Type 0 where
    pub held :
        (m : String)
        → member m mv ≡ true
        → (t.aside m ≡ d0 m) ⊎ ((t.aside m ≡ none) × (t.dest m ≡ d0 m))
    pub others : (m : String) → member m mv ≡ false → p m ≡ false → t.dest m ≡ d0 m
    pub gone : (m : String) → member m mv ≡ false → p m ≡ true → d0 m ≡ none
    pub backed : (m : String) → member m mv ≡ true → q m ≡ false → t.dest m ≡ d0 m

  abbrev pub among : List String → (String → Bool) → String → Bool
  among ns p m = member m ns || p m

  abbrev pub and_also : String → (String → Bool) → String → Bool
  and_also n p m = str_eq n m || p m

  -- The name `n` is dealt with, or it is one more that is not.
  abbrev Unplaced :
      String → List String → (String → Bool) → (String → Bool) → Result (Unit {0}) → Swap → Type 0
  Unplaced n ns p q (ok u) t = Undoing (among ns p) q t
  Unplaced n ns p q (err e) t = Undoing (among ns (and_also n p)) q t

  Undoing-later :
      (n : String) (ns : List String) (p q : String → Bool) (t : Swap)
      → Undoing (among (n ∷ ns) p) q t
      → Undoing (among ns (and_also n p)) q t
  Undoing-later n ns p q t h = record {
    held = h.held;
    others = λ m a b. h.others m a (ground arith);
    gone = λ m a b. h.gone m a (ground arith);
    backed = h.backed;
  }

  Undoing-removed :
      (n : String) (ns : List String) (p q : String → Bool) (t : Swap)
      → member n mv ≡ false
      → Undoing (among (n ∷ ns) p) q t
      → Undoing (among ns p) q (record t { dest = set n none t.dest })
  Undoing-removed n ns p q t f h = record {
    held = λ m a. ground (arith, h.held m, eq_iff n m);
    others = λ m a b. ground (arith, h.others m, h.gone m, eq_iff n m);
    gone = λ m a b. h.gone m a (ground arith);
    backed = λ m a b. ground (arith, h.backed m, eq_iff n m);
  }

  remove-Post :
      (n : String) (ns : List String) (p q : String → Bool) (t : Swap) (o : Option String)
      → member n mv ≡ false
      → t.dest n ≡ o
      → Undoing (among (n ∷ ns) p) q t
      → Post
          (λ u. Unplaced n ns p q (ok u))
          (λ e. Unplaced n ns p q (err e))
          (remove_found n o t).0
          (remove_found n o t).1
  remove-Post n ns p q t none f e h = record {
    held = h.held;
    others = λ m a b. ground (arith, h.others m, h.gone m, eq_iff n m);
    gone = λ m a b. h.gone m a (ground arith);
    backed = h.backed;
  }
  remove-Post n ns p q t (some c) f e h = Undoing-removed n ns p q t f h

  -- The actions below return, and raise nothing.
  abbrev pub Never : Error → Swap → Type 0
  Never e t = ⊥

  Undoing-kept :
      (n : String) (ns : List String) (p q : String → Bool) (t : Swap)
      → member n mv ≡ true
      → Undoing (among (n ∷ ns) p) q t
      → Undoing (among ns p) q t
  Undoing-kept n ns p q t e h = record {
    held = h.held;
    others = λ m a b. ground (arith, h.others m, eq_iff n m);
    gone = λ m a b. h.gone m a (ground arith);
    backed = h.backed;
  }

  unplace-Undoes :
      (n : String) (ns : List String) (p q : String → Bool)
      → Triple
          (Undoing (among (n ∷ ns) p) q)
          (if member n mv
            then pure (ok tt)
            else attempt (system (λ s. remove_found n (s.dest n) s)))
          (Unplaced n ns p q)
          Never
  unplace-Undoes n ns p q = elim (Bool-cases (member n mv)) [
    | inl e ↦ rw e (Triple-pure (ok tt) (λ t h. Undoing-kept n ns p q t e h))
    | inr e ↦ rw e (
        Triple-attempt (Unplaced n ns p q) (
          Triple-system (λ s. remove_found n (s.dest n) s)
            (λ t h. remove-Post n ns p q t (t.dest n) e refl h)
            (λ t x h. Undoing-later n ns p q t h)))
  ]

  Undoing-stuck :
      (n : String) (ns : List String) (p q : String → Bool) (t : Swap)
      → Undoing (among ns (and_also n p)) q t
      → Undoing (among (n ∷ ns) p) q t
  Undoing-stuck n ns p q t h = record {
    held = h.held;
    others = λ m a b. h.others m a (ground arith);
    gone = λ m a b. h.gone m a (ground arith);
    backed = h.backed;
  }

  pub unplace_all-Undoes :
      (ns : List String) (p q : String → Bool)
      → Triple
          (Undoing (among ns p) q)
          (unplace_all mv ns)
          (λ stuck. Undoing (among stuck p) q)
          Never
  unfolding unplace_all
  unplace_all-Undoes [] p q = Triple-pure [] (λ t h. h)
  unplace_all-Undoes (n ∷ ns) p q =
      Triple-bind (unplace-Undoes n ns p q) (λ r. unplaced n ns p q r (unplace_all-Undoes ns))
    where
      unplaced :
          (n : String) (ns : List String) (p q : String → Bool) (r : Result (Unit {0}))
          → ((p q : String → Bool)
              → Triple
                  (Undoing (among ns p) q)
                  (unplace_all mv ns)
                  (λ stuck. Undoing (among stuck p) q)
                  Never)
          → Triple
              (Unplaced n ns p q r)
              (unplace_all mv ns >>= λ stuck. pure (stuck_if n r stuck))
              (λ stuck. Undoing (among stuck p) q)
              Never
      unplaced n ns p q (ok u) rest = Triple-bind (rest p q) (λ stuck. Triple-pure stuck (λ t h. h))
      unplaced n ns p q (err e) rest =
          Triple-bind (rest (and_also n p) q)
            (λ stuck. Triple-pure (n ∷ stuck) (λ t h. Undoing-stuck n stuck p q t h))
