-- ===== src/Engine/Triples.antt =====
-- What an action makes of a property of the tables, on its results and on its errors, whichever of
-- its calls fail.
use sisyphus.Prelude.{Option, none, some, List}
use sisyphus.Fault.{Error, Result, ok, err}
use sisyphus.Engine.{
  Db, Exec, ◌>>=◌, pure, raise, continue, next_fault, perform, statement, execute, ignoring, query,
  system, run_system, update, attempt, call,
}

abbrev pub Post : {T A : Type 0} → (A → T → Type 0) → (Error → T → Type 0) → Result A → T → Type 0
Post Q E (ok a) t = Q a t
Post Q E (err e) t = E e t

-- From tables with `P`, a result has `Q` and an error has `E`.
pub record Triple {T A : Type 0} (P : T → Type 0) (m : Exec T A) (Q : A → T → Type 0)
    (E : Error → T → Type 0) : Type 0 where
  pub at : (s : Db T) → P s.table → Post Q E (m s).0 (m s).1.table

module _ {T A : Type 0} (Q : A → T → Type 0) (E : Error → T → Type 0) where
  run_system-Post :
      (f : T → Result A × T) (t : T) (fs : Option Error × List (Option Error))
      → Post Q E (f t).0 (f t).1
      → ((e : Error) → E e t)
      → Post Q E (run_system f t fs).0 (run_system f t fs).1.table
  run_system-Post f t (none, fs) h k = h
  run_system-Post f t (some e, fs) h k = k e

  perform-Post :
      (q : T → A) (t : T) (fs : Option Error × List (Option Error))
      → Q (q t) t
      → ((e : Error) → E e t)
      → Post Q E (perform (λ t. (q t, t)) t fs).0 (perform (λ t. (q t, t)) t fs).1.table
  perform-Post q t (none, fs) h k = h
  perform-Post q t (some e, fs) h k = k e

module _ {T A B : Type 0} (R : A → T → Type 0) (Q : B → T → Type 0) (E : Error → T → Type 0) where
  continue-Post :
      (r : Result A) (f : A → Exec T B) (s : Db T)
      → ((a : A) → Triple (R a) (f a) Q E)
      → Post R E r s.table
      → Post Q E (continue r f s).0 (continue r f s).1.table
  continue-Post (ok a) f s k h = (k a).at s h
  continue-Post (err e) f s k h = h

module _ {T A : Type 0} where
  attempt-Post :
      (Q : Result A → T → Type 0) (r : Result A) (t : T)
      → Post (λ a. Q (ok a)) (λ e. Q (err e)) r t
      → Q r t
  attempt-Post Q (ok a) t h = h
  attempt-Post Q (err e) t h = h

module _ {T A : Type 0} (Q Q' : A → T → Type 0) (E E' : Error → T → Type 0) where
  Post-imp :
      (r : Result A) (t : T)
      → ((a : A) → Q a t → Q' a t)
      → ((e : Error) → E e t → E' e t)
      → Post Q E r t
      → Post Q' E' r t
  Post-imp (ok a) t f g h = f a h
  Post-imp (err e) t f g h = g e h

module _ {T A : Type 0} {P : T → Type 0} {Q : A → T → Type 0} {E : Error → T → Type 0} where
  pub Triple-pure : (a : A) → ((t : T) → P t → Q a t) → Triple P (pure a) Q E
  unfolding pure
  Triple-pure a h = record { at = λ s p. h s.table p }

  pub Triple-raise : (e : Error) → ((t : T) → P t → E e t) → Triple P (raise e) Q E
  unfolding raise
  Triple-raise e h = record { at = λ s p. h s.table p }

  pub Triple-system :
      (f : T → Result A × T)
      → ((t : T) → P t → Post Q E (f t).0 (f t).1)
      → ((t : T) (e : Error) → P t → E e t)
      → Triple P (system f) Q E
  unfolding system
  Triple-system f h k = record {
    at = λ s p.
        run_system-Post Q E f s.table (next_fault s.faults) (h s.table p) (λ e. k s.table e p);
  }

  pub Triple-query :
      (q : T → A)
      → ((t : T) → P t → Q (q t) t)
      → ((t : T) (e : Error) → P t → E e t)
      → Triple P (query q) Q E
  unfolding query statement
  Triple-query q h k = record {
    at = λ s p. perform-Post Q E q s.table (next_fault s.faults) (h s.table p) (λ e. k s.table e p);
  }

module _ {T A B : Type 0} {P : T → Type 0} {R : A → T → Type 0} {Q : B → T → Type 0}
    {E : Error → T → Type 0} where
  pub Triple-bind :
      {m : Exec T A} {f : A → Exec T B}
      → Triple P m R E
      → ((a : A) → Triple (R a) (f a) Q E)
      → Triple P (m >>= f) Q E
  unfolding ◌>>=◌
  Triple-bind {m} {f} h k = record {
    at = λ s p. continue-Post R Q E (m s).0 f (m s).1 k (h.at s p);
  }

module _ {T : Type 0} {P : T → Type 0} {Q : Unit {0} → T → Type 0} {E : Error → T → Type 0} where
  pub Triple-update : (f : T → T) → ((t : T) → P t → Q tt (f t)) → Triple P (update f) Q E
  unfolding update
  Triple-update f h = record { at = λ s p. h s.table p }

module _ {T A : Type 0} {P : T → Type 0} {E : Error → T → Type 0} where
  pub Triple-attempt :
      (Q : Result A → T → Type 0) {m : Exec T A}
      → Triple P m (λ a. Q (ok a)) (λ e. Q (err e))
      → Triple P (attempt m) Q E
  unfolding attempt
  Triple-attempt Q {m} h = record { at = λ s p. attempt-Post Q (m s).0 (m s).1.table (h.at s p) }

module _ {T A : Type 0} {P P' : T → Type 0} {Q Q' : A → T → Type 0}
    {E E' : Error → T → Type 0} where
  pub Triple-imp :
      {m : Exec T A}
      → Triple P m Q E
      → ((t : T) → P' t → P t)
      → ((a : A) (t : T) → Q a t → Q' a t)
      → ((e : Error) (t : T) → E e t → E' e t)
      → Triple P' m Q' E'
  Triple-imp {m} h p f g = record {
    at = λ s k.
        Post-imp Q Q' E E' (m s).0 (m s).1.table (λ a. f a (m s).1.table) (λ e. g e (m s).1.table)
          (h.at s (p s.table k));
  }

module _ {T A : Type 0} where
  ignoring-Post : (Q : T → Type 0) (r : Result A) (t : T) → Post (λ a. Q) (λ e. Q) r t → Q t
  ignoring-Post Q (ok a) t h = h
  ignoring-Post Q (err e) t h = h

module _ {T A : Type 0} {P : T → Type 0} {E : Error → T → Type 0} where
  pub Triple-ignoring :
      {Q : T → Type 0} {m : Exec T A}
      → Triple P m (λ a. Q) (λ e. Q)
      → Triple P (ignoring m) (λ u. Q) E
  unfolding ignoring
  Triple-ignoring {Q} {m} h = record {
    at = λ s p. ignoring-Post Q (m s).0 (m s).1.table (h.at s p);
  }

module _ {T : Type 0} (Q : Unit {0} → T → Type 0) (E : Error → T → Type 0) where
  perform_execute-Post :
      (f : T → T) (t : T) (fs : Option Error × List (Option Error))
      → Q tt (f t)
      → ((e : Error) → E e t)
      → Post Q E (perform (λ t. (tt, f t)) t fs).0 (perform (λ t. (tt, f t)) t fs).1.table
  perform_execute-Post f t (none, fs) h k = h
  perform_execute-Post f t (some e, fs) h k = k e

module _ {T : Type 0} {P : T → Type 0} {Q : Unit {0} → T → Type 0} {E : Error → T → Type 0} where
  pub Triple-execute :
      (f : T → T)
      → ((t : T) → P t → Q tt (f t))
      → ((t : T) (e : Error) → P t → E e t)
      → Triple P (execute f) Q E
  unfolding execute statement
  Triple-execute f h k = record {
    at = λ s p.
        perform_execute-Post Q E f s.table (next_fault s.faults) (h s.table p) (λ e. k s.table e p);
  }

module _ {T A : Type 0} {P : T → Type 0} {Q : A → T → Type 0} {E : Error → T → Type 0} where
  -- A fact that is no matter of the tables.
  pub Triple-fact : (F : Type 0) {m : Exec T A} → (F → Triple P m Q E) → Triple (λ t. P t × F) m Q E
  Triple-fact F k = record { at = λ s p. (k p.1).at s p.0 }

module _ {T A B : Type 0} {P : T → Type 0} {Q : B → T → Type 0} {E : Error → T → Type 0} where
  pub Triple-pure_bind :
      (f : A → Exec T B) (a : A) → Triple P (f a) Q E → Triple P (pure a >>= f) Q E
  unfolding ◌>>=◌
  Triple-pure_bind f a h = record { at = h.at }

  pub Triple-raise_bind :
      (f : A → Exec T B) (e : Error) → ((t : T) → P t → E e t) → Triple P (raise e >>= f) Q E
  unfolding ◌>>=◌
  Triple-raise_bind f e h = record { at = λ s p. h s.table p }

module _ {T : Type 0} {P : T → Type 0} {E : Error → T → Type 0} where
  pub Triple-call : ((t : T) (e : Error) → P t → E e t) → Triple P call (λ u. P) E
  unfolding call
  Triple-call k = Triple-execute (λ t. t) (λ t h. h) k
