-- ===== src/Backup/Swap/Endings.antt =====
-- The three ways in which swap.run of backup/backup.go ends.
use sisyphus.Prelude.{
  String, ◌≡◌, ◌⊎◌, inl, inr, Bool, true, false, ◌||◌, Option, none, List, [], ◌∷◌, ◌++◌, arith,
  eq_refl, member, if◌then◌else◌, All, Bool-cases,
}
use sisyphus.Fault.{Error}
use sisyphus.Engine.{◌>>=◌}
use sisyphus.Engine.Triples.{
  Triple, Triple-pure, Triple-execute, Triple-ignoring, Triple-bind, Triple-imp,
}
use sisyphus.Backup.Swap.{
  Dir, Swap, Outcome, replaced, put_back, half_replaced, unplace_all, move_all_back, concluded,
  abort, family,
}
use sisyphus.Backup.Swap.Rollback.{Moving}
use sisyphus.Backup.Swap.Aborting.{Undoing, among, unplace_all-Undoes}
use sisyphus.Backup.Swap.Returning.{move_all_back-Undoes}

abbrev nobody : String → Bool
nobody m = false

Moving-Undoing :
    (d0 st0 : Dir) (fam : List String) (t : Swap)
    → Moving d0 st0 fam t
    → Undoing d0 t.moved (among d0 t.moved t.placed nobody) (among d0 t.moved t.moved nobody) t
Moving-Undoing d0 st0 fam t h = record {
  held = λ m a. inl (ground (arith, h.in_aside m));
  others = λ m a b. ground (arith, h.in_dest m);
  gone = λ m a b. h.fresh m (ground arith) a;
  backed = λ m a b. ground arith;
}

-- A name after a rollback: its file is back, or it is reported; and the file it had is there still,
-- in one of two places.
abbrev pub BackAt : Dir → String → List String → Swap → Type 0
BackAt d0 m stuck t =
    (t.dest m ≡ (if member m stuck then t.dest m else d0 m))
    × ((t.dest m ≡ d0 m) ⊎ (t.aside m ≡ d0 m) ⊎ (d0 m ≡ none))

abbrev pub RolledBack : Dir → String → Outcome → Swap → Type 0
RolledBack d0 m replaced t = ⊥
RolledBack d0 m (put_back e) t = t.dest m ≡ d0 m
RolledBack d0 m (half_replaced e stuck) t = BackAt d0 m stuck t

member-append_all :
    (m : String) (xs ys : List String) → member m (xs ++ ys) ≡ (member m xs || member m ys)
member-append_all m [] ys = ground arith
member-append_all m (x ∷ xs) ys = ground (arith, member-append_all m xs ys)

back_or_lost :
    (d0 : Dir) (mv left stuck : List String) (t : Swap) (m : String)
    → Undoing d0 mv (among d0 mv left nobody) (among d0 mv stuck nobody) t
    → (t.dest m ≡ d0 m) ⊎ (t.aside m ≡ d0 m) ⊎ (d0 m ≡ none)
back_or_lost d0 mv left stuck t m h = elim (Bool-cases (member m mv)) [
  | inl a ↦ elim (h.held m a) [ inl e ↦ inr (inl e) | inr e ↦ inl e.1 ]
  | inr a ↦ elim (Bool-cases (among d0 mv left nobody m)) [
    | inl b ↦ inr (inr (h.gone m a b))
    | inr b ↦ inl (h.others m a b)
  ]
]

Undoing-BackAt :
    (d0 : Dir) (mv left stuck : List String) (t : Swap) (m : String)
    → Undoing d0 mv (among d0 mv left nobody) (among d0 mv stuck nobody) t
    → BackAt d0 m (left ++ stuck) t
Undoing-BackAt d0 mv left stuck t m h = (
  ground (arith, member-append_all m left stuck, h.others m, h.backed m),
  back_or_lost d0 mv left stuck t m h,
)

concluded-RolledBack :
    (d0 : Dir) (m : String) (cause : Error) (stuck : List String)
    → Triple (BackAt d0 m stuck) (concluded cause stuck) (RolledBack d0 m) (λ e t. ⊥)
concluded-RolledBack d0 m cause [] =
    Triple-bind
      (Triple-ignoring {Q = λ t. t.dest m ≡ d0 m}
        (Triple-execute (λ t. record t { aside = λ n. none }) (λ t h. h.0) (λ t e h. h.0)))
      (λ u. Triple-pure (put_back cause) (λ t h. h))
concluded-RolledBack d0 m cause (n ∷ stuck) =
    Triple-pure (half_replaced cause (n ∷ stuck)) (λ t h. h)

pub All-member :
    (ns mv : List String)
    → ((m : String) → member m ns ≡ true → member m mv ≡ true)
    → All (λ n. member n mv ≡ true) ns
All-member [] mv f = tt
All-member (n ∷ ns) mv f =
    (f n (ground (arith, eq_refl n)), All-member ns mv (λ m e. f m (ground arith)))

abort_body-RolledBack :
    (d0 : Dir) (mv pl : List String) (m : String) (cause : Error)
    → Triple
        (Undoing d0 mv (among d0 mv pl nobody) (among d0 mv mv nobody))
        (do left ← unplace_all mv pl; stuck ← move_all_back mv; concluded cause (left ++ stuck))
        (RolledBack d0 m)
        (λ e t. ⊥)
abort_body-RolledBack d0 mv pl m cause =
    Triple-bind (unplace_all-Undoes d0 mv pl nobody (among d0 mv mv nobody)) (λ left.
      Triple-bind
        (move_all_back-Undoes d0 mv mv (among d0 mv left nobody) nobody
          (All-member mv mv (λ m e. e)))
        (λ stuck.
          Triple-imp (concluded-RolledBack d0 m cause (left ++ stuck))
            (λ t h. Undoing-BackAt d0 mv left stuck t m h) (λ o t h. h) (λ e t h. h)))

pub abort-RolledBack :
    (d0 st0 : Dir) (fam : List String) (m : String) (cause : Error)
    → Triple (Moving d0 st0 fam) (abort cause) (RolledBack d0 m) (λ e t. ⊥)
unfolding abort
abort-RolledBack d0 st0 fam m cause = record {
  at = λ s h.
      (abort_body-RolledBack d0 s.table.moved s.table.placed m cause).at s
        (Moving-Undoing d0 st0 fam s.table h);
}

-- A name after a restore: what was staged, or nothing where it belongs to a file that was replaced,
-- or what it was.
abbrev pub restored_to : Dir → Dir → List String → String → Option String
restored_to d0 st0 names m =
    if member m names then st0 m else if member m (family names) then none else d0 m

abbrev pub Ended : Dir → Dir → List String → String → Outcome → Swap → Type 0
Ended d0 st0 names m replaced t = t.dest m ≡ restored_to d0 st0 names m
Ended d0 st0 names m (put_back e) t = t.dest m ≡ d0 m
Ended d0 st0 names m (half_replaced e stuck) t = BackAt d0 m stuck t
