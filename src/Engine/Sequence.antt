-- ===== src/Engine/Sequence.antt =====
-- All or nothing in sequence: an action behind a query or a statement, and one before an action that
-- changes nothing.
use sisyphus.Prelude.{◌≡◌, refl, ◌∙◌, ◌⊎◌, inl, inr, Option, none, some, List, arith}
use sisyphus.Fault.{Error, Result, ok, err}
use sisyphus.Engine.{
  Db, Exec, ◌>>=◌, pure, continue, next_fault, statement, perform, execute, call, with_db, query,
}
use sisyphus.Engine.Atomic.{
  Runs, IsAtomic, IsAtomic-statement, IsAtomic-with_db, Runs-of_IsAtomic, Runs-continue,
}

module _ {T A B : Type 0} where
  -- A query, and an action that is atomic for each of its answers.
  pub IsAtomic-query_bind :
      (q : T → A) (f : A → Exec T B) (g : A → T → T)
      → ((a : A) → IsAtomic (f a) (g a))
      → IsAtomic (query q >>= f) (λ t. g (q t) t)
  unfolding query statement ◌>>=◌
  IsAtomic-query_bind q f g k = record {
    done = λ s b h. after-done s.table (next_fault s.faults) b h;
    settled = λ s. after-settled s.table (next_fault s.faults);
  }
    where
      after-done :
          (t : T) (fs : Option Error × List (Option Error)) (b : B)
          → (continue (perform (λ t. (q t, t)) t fs).0 f (perform (λ t. (q t, t)) t fs).1).0 ≡ ok b
          → (continue (perform (λ t. (q t, t)) t fs).0 f (perform (λ t. (q t, t)) t fs).1).1.table
            ≡ g (q t) t
      after-done t (none, fs) b h = (k (q t)).done (record { table = t; faults = fs }) b h
      after-done t (some e, fs) b h = cc

      after-settled :
          (t : T) (fs : Option Error × List (Option Error))
          → ((continue (perform (λ t. (q t, t)) t fs).0 f (perform (λ t. (q t, t)) t fs).1).1.table
              ≡ t)
            ⊎ ((continue
                  (perform (λ t. (q t, t)) t fs).0
                  f
                  (perform (λ t. (q t, t)) t fs).1).1.table
                ≡ g (q t) t)
      after-settled t (none, fs) = (k (q t)).settled (record { table = t; faults = fs })
      after-settled t (some e, fs) = inl refl

module _ {T A : Type 0} where
  -- A method that only queries: its answer, and the tables it leaves.
  pub query_answers :
      (q : T → A) (s : Db T) (a : A) → (with_db (query q) s).0 ≡ ok a → a ≡ q s.table
  unfolding with_db query statement call execute ◌>>=◌
  query_answers q s a h = ground arith

  query-IsAtomic : (q : T → A) → IsAtomic (query q) (λ t. t)
  unfolding query
  query-IsAtomic q = IsAtomic-statement (λ t. (q t, t))

  pub query_keeps : (q : T → A) (s : Db T) → (with_db (query q) s).1.table ≡ s.table
  query_keeps q s = elim ((IsAtomic-with_db (query-IsAtomic q)).settled s) [ inl e ↦ e | inr e ↦ e ]

module _ {T A B : Type 0} where
  -- A statement, and an action whose effect depends on its answer.
  pub Runs-statement_bind :
      (q : T → A × T) (f : A → Exec T B) (g : A → T → T)
      → ((a : A) → Runs (f a) (g a))
      → Runs (statement q >>= f) (λ t. g (q t).0 (q t).1)
  unfolding statement ◌>>=◌
  Runs-statement_bind q f g k = record { at = λ s b h. after s.table (next_fault s.faults) b h }
    where
      after :
          (t : T) (fs : Option Error × List (Option Error)) (b : B)
          → (continue (perform q t fs).0 f (perform q t fs).1).0 ≡ ok b
          → (continue (perform q t fs).0 f (perform q t fs).1).1.table ≡ g (q t).0 (q t).1
      after t (none, fs) b h = (k (q t).0).at (record { table = (q t).1; faults = fs }) b h
      after t (some e, fs) b h = cc

module _ {T A B : Type 0} where
  -- An action that is atomic, and one after it that changes nothing.
  pub IsAtomic-then :
      {m : Exec T A} {f : A → Exec T B} {g : T → T}
      → IsAtomic m g
      → ((a : A) → IsAtomic (f a) (λ t. t))
      → IsAtomic (m >>= f) g
  unfolding ◌>>=◌
  IsAtomic-then {m} {f} {g} km kf = record {
    done = λ s b h.
        let (a, ra, te) = Runs-continue (m s).0 f (m s).1 b (λ a. Runs-of_IsAtomic (kf a)) h in
        te ∙ km.done s a ra;
    settled = λ s. elim (km.settled s) [
      | inl e ↦ inl (same (m s).0 (m s).1 ∙ e)
      | inr e ↦ inr (same (m s).0 (m s).1 ∙ e)
    ];
  }
    where
      same : (r : Result A) (s : Db T) → (continue r f s).1.table ≡ s.table
      same (ok a) s = elim ((kf a).settled s) [ inl e ↦ e | inr e ↦ e ]
      same (err e) s = refl

module _ {T A : Type 0} where
  pub IsAtomic-pure : (a : A) → IsAtomic (pure {T = T} a) (λ t. t)
  unfolding pure
  IsAtomic-pure a = record { done = λ s b h. refl; settled = λ s. inl refl }
