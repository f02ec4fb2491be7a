-- ===== src/Backup/Swap/Returning.antt =====
-- The second loop of swap.abort of backup/backup.go: what was set aside comes back.
use sisyphus.Prelude.{
  append-nil, String, ◌≡◌, refl, ap, Bool, true, false, Option, none, some, List, [], ◌∷◌, ◌++◌,
  arith, eq_iff, member, All,
}
use sisyphus.Fault.{Result, ok, err}
use sisyphus.Engine.{attempt, system}
use sisyphus.Engine.Triples.{
  Post, Triple, Triple-pure, Triple-system, Triple-bind, Triple-attempt, Triple-imp,
}
use sisyphus.Backup.Swap.{Dir, Swap, rename_back, stuck_if, move_all_back}
use sisyphus.Backup.Swap.Rollback.{member-append}
use sisyphus.Backup.Swap.Aborting.{Undoing, among, and_also, Never}

module _ (d0 : Dir) (mv : List String) where
  abbrev Returned : String → (String → Bool) → (String → Bool) → Result (Unit {0}) → Swap → Type 0
  Returned n p q (ok u) t = Undoing d0 mv p q t
  Returned n p q (err e) t = Undoing d0 mv p (and_also d0 mv n q) t

  rename_back-Post :
      (n : String) (p q : String → Bool) (t : Swap) (o : Option String)
      → member n mv ≡ true
      → t.aside n ≡ o
      → Undoing d0 mv p (and_also d0 mv n q) t
      → Post
          (λ u. Returned n p q (ok u))
          (λ e. Returned n p q (err e))
          (rename_back n o t).0
          (rename_back n o t).1
  rename_back-Post n p q t none f e h = h
  rename_back-Post n p q t (some c) f e h = record {
    held = λ m a. ground (arith, h.held m, h.held n, eq_iff n m);
    others = λ m a b. ground (arith, h.others m, eq_iff n m);
    gone = h.gone;
    backed = λ m a b. ground (arith, h.backed m, h.held n, eq_iff n m);
  }

  Undoing-first :
      (n : String) (ns : List String) (p q : String → Bool) (t : Swap)
      → Undoing d0 mv p (among d0 mv (n ∷ ns) q) t
      → Undoing d0 mv p (among d0 mv ns (and_also d0 mv n q)) t
  Undoing-first n ns p q t h = record {
    held = h.held;
    others = h.others;
    gone = h.gone;
    backed = λ m a b. h.backed m a (ground arith);
  }

  Undoing-regroup :
      (p q r : String → Bool) (t : Swap)
      → ((m : String) → r m ≡ false → q m ≡ false)
      → Undoing d0 mv p q t
      → Undoing d0 mv p r t
  Undoing-regroup p q r t f h = record {
    held = h.held;
    others = h.others;
    gone = h.gone;
    backed = λ m a b. h.backed m a (f m b);
  }

  return-Undoes :
      (n : String) (p q : String → Bool)
      → member n mv ≡ true
      → Triple
          (Undoing d0 mv p (and_also d0 mv n q))
          (attempt (system (λ s. rename_back n (s.aside n) s)))
          (Returned n p q)
          (Never d0 mv)
  return-Undoes n p q f = Triple-attempt (Returned n p q) (
      Triple-system (λ s. rename_back n (s.aside n) s)
        (λ t h. rename_back-Post n p q t (t.aside n) f refl h) (λ t e h. h))

  returned :
      (n : String) (p q : String → Bool) (stuck : List String) (r : Result (Unit {0})) (t : Swap)
      → Returned n p (among d0 mv stuck q) r t
      → Undoing d0 mv p (among d0 mv (stuck ++ stuck_if n r []) q) t
  returned n p q stuck (ok u) t h =
      Undoing-regroup _ _ _ t (λ m b. ground (arith, ap (member m) (append-nil stuck))) h
  returned n p q stuck (err e) t h =
      Undoing-regroup _ _ _ t (λ m b. ground (arith, member-append m n stuck)) h

  pub move_all_back-Undoes :
      (ns : List String) (p q : String → Bool)
      → All (λ n. member n mv ≡ true) ns
      → Triple
          (Undoing d0 mv p (among d0 mv ns q))
          (move_all_back ns)
          (λ stuck. Undoing d0 mv p (among d0 mv stuck q))
          (Never d0 mv)
  unfolding move_all_back
  move_all_back-Undoes [] p q f = Triple-pure [] (λ t h. h)
  move_all_back-Undoes (n ∷ ns) p q f =
      Triple-bind
        (Triple-imp (move_all_back-Undoes ns p (and_also d0 mv n q) f.1)
          (λ t h. Undoing-first n ns p q t h)
          (λ stuck t h.
            Undoing-regroup p (among d0 mv stuck (and_also d0 mv n q))
              (and_also d0 mv n (among d0 mv stuck q)) t (λ m b. ground arith) h)
          (λ e t h. h))
        (λ stuck.
          Triple-bind (return-Undoes n p (among d0 mv stuck q) f.0)
            (λ r. Triple-pure (stuck ++ stuck_if n r []) (λ t h. returned n p q stuck r t h)))
