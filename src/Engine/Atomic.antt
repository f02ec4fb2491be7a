-- ===== src/Engine/Atomic.antt =====
-- All or nothing: what a transaction and Handle.Do make of a body whose effect is known.
use sisyphus.Prelude.{◌≡◌, refl, ap, ◌∙◌, ◌⊎◌, inl, inr, Option, none, some, List}
use sisyphus.Fault.{Error, Result, ok, err}
use sisyphus.Engine.{
  Db, Exec, ◌>>=◌, pure, continue, next_fault, statement, perform, execute, call, settle, committed,
  secured, transaction, with_db,
}

-- Where `m` succeeds, it has turned the tables `t` into `g t`.
pub record Runs {T A : Type 0} (m : Exec T A) (g : T → T) : Type 0 where
  pub at : (s : Db T) (a : A) → (m s).0 ≡ ok a → (m s).1.table ≡ g s.table

-- Moreover, where it fails, the tables are the old ones or `g` of them, and nothing between.
pub record IsAtomic {T A : Type 0} (m : Exec T A) (g : T → T) : Type 0 where
  pub done : (s : Db T) (a : A) → (m s).0 ≡ ok a → (m s).1.table ≡ g s.table
  pub settled : (s : Db T) → ((m s).1.table ≡ s.table) ⊎ ((m s).1.table ≡ g s.table)

module _ {T A : Type 0} where
  pub Runs-pure : (a : A) → Runs {T = T} (pure a) (λ t. t)
  unfolding pure
  Runs-pure a = record { at = λ s b h. refl }

  perform-Runs :
      (f : T → A × T) (t : T) (fs : Option Error × List (Option Error)) (a : A)
      → (perform f t fs).0 ≡ ok a
      → (perform f t fs).1.table ≡ (f t).1
  perform-Runs f t (none, fs) a h = refl
  perform-Runs f t (some e, fs) a h = cc

  perform-settled :
      (f : T → A × T) (t : T) (fs : Option Error × List (Option Error))
      → ((perform f t fs).1.table ≡ t) ⊎ ((perform f t fs).1.table ≡ (f t).1)
  perform-settled f t (none, fs) = inr refl
  perform-settled f t (some e, fs) = inl refl

  pub IsAtomic-statement : (f : T → A × T) → IsAtomic (statement f) (λ t. (f t).1)
  unfolding statement
  IsAtomic-statement f = record {
    done = λ s a h. perform-Runs f s.table (next_fault s.faults) a h;
    settled = λ s. perform-settled f s.table (next_fault s.faults);
  }

  pub Runs-of_IsAtomic : {m : Exec T A} {g : T → T} → IsAtomic m g → Runs m g
  Runs-of_IsAtomic h = record { at = h.done }

module _ {T : Type 0} where
  pub IsAtomic-execute : (f : T → T) → IsAtomic (execute f) f
  unfolding execute
  IsAtomic-execute f = IsAtomic-statement (λ t. (tt, f t))

  pub Runs-execute : (f : T → T) → Runs (execute f) f
  Runs-execute f = Runs-of_IsAtomic (IsAtomic-execute f)

  pub IsAtomic-call : IsAtomic (call {T = T}) (λ t. t)
  unfolding call
  IsAtomic-call = IsAtomic-execute (λ t. t)

  pub call_keeps : (s : Db T) → (call s).1.table ≡ s.table
  call_keeps s = elim (IsAtomic-call.settled s) [ inl e ↦ e | inr e ↦ e ]

module _ {T A B : Type 0} where
  pub Runs-continue :
      (r : Result A) (f : A → Exec T B) {h : T → T} (s : Db T) (b : B)
      → ((a : A) → Runs (f a) h)
      → (continue r f s).0 ≡ ok b
      → (a : A) × (r ≡ ok a) × ((continue r f s).1.table ≡ h s.table)
  Runs-continue (ok a) f s b k e = (a, refl, (k a).at s b e)
  Runs-continue (err x) f s b k e = cc

  pub Runs-bind :
      {m : Exec T A} {f : A → Exec T B} {g h : T → T}
      → Runs m g
      → ((a : A) → Runs (f a) h)
      → Runs (m >>= f) (λ t. h (g t))
  unfolding ◌>>=◌
  Runs-bind {m} {f} {g} {h} km kf = record {
    at = λ s b e.
        let (a, ra, te) = Runs-continue (m s).0 f (m s).1 b kf e in te ∙ ap h (km.at s a ra);
  }

secured-ok :
    {A : Type 0} (r : Result A) (w : Result (Unit {0})) (b : A) → secured r w ≡ ok b → r ≡ ok b
secured-ok (err e) w b h = h
secured-ok (ok a) (ok w) b h = h
secured-ok (ok a) (err e) b h = cc

module _ {T A : Type 0} where
  committed-done :
      (t : T) (a : A) (t' : T) (fs : Option Error × List (Option Error)) (b : A)
      → (committed t a t' fs).0 ≡ ok b
      → (committed t a t' fs).1.table ≡ t'
  committed-done t a t' (none, fs) b h = refl
  committed-done t a t' (some e, fs) b h = cc

  committed-settled :
      (t : T) (a : A) (t' : T) (fs : Option Error × List (Option Error))
      → ((committed t a t' fs).1.table ≡ t)
        ⊎ (((committed t a t' fs).0 ≡ ok a) × ((committed t a t' fs).1.table ≡ t'))
  committed-settled t a t' (none, fs) = inr (refl, refl)
  committed-settled t a t' (some e, fs) = inl refl

  settle-done :
      (t : T) (r : Result A) (s : Db T) (b : A)
      → (settle t r s).0 ≡ ok b
      → (a : A) × (r ≡ ok a) × ((settle t r s).1.table ≡ s.table)
  settle-done t (err e) s b h = cc
  settle-done t (ok a) s b h = (a, refl, committed-done t a s.table (next_fault s.faults) b h)

  settle-settled :
      (t : T) (r : Result A) (s : Db T)
      → ((settle t r s).1.table ≡ t) ⊎ ((a : A) × (r ≡ ok a) × ((settle t r s).1.table ≡ s.table))
  settle-settled t (err e) s = inl refl
  settle-settled t (ok a) s = elim (committed-settled t a s.table (next_fault s.faults)) [
    | inl e ↦ inl e
    | inr e ↦ inr (a, refl, e.1)
  ]

  -- A transaction whose body, where it succeeds, does `g`, does `g` or nothing.
  pub IsAtomic-transaction : {m : Exec T A} {g : T → T} → Runs m g → IsAtomic (transaction m) g
  unfolding transaction ◌>>=◌
  IsAtomic-transaction {m} {g} k = record {
    done = λ s b h. after-done (call s).0 s (call s).1 b (call_keeps s) h;
    settled = λ s. after-settled (call s).0 s (call s).1 (call_keeps s);
  }
    where
      rest : Unit {0} → Exec T A
      rest u s1 = settle s1.table (m s1).0 (m s1).1

      after-done :
          (r : Result (Unit {0})) (s s1 : Db T) (b : A)
          → s1.table ≡ s.table
          → (continue r rest s1).0 ≡ ok b
          → (continue r rest s1).1.table ≡ g s.table
      after-done (ok u) s s1 b e h =
          let (a, ra, te) = settle-done s1.table (m s1).0 (m s1).1 b h in te ∙ k.at s1 a ra ∙ ap g e
      after-done (err x) s s1 b e h = cc

      after-settled :
          (r : Result (Unit {0})) (s s1 : Db T)
          → s1.table ≡ s.table
          → ((continue r rest s1).1.table ≡ s.table) ⊎ ((continue r rest s1).1.table ≡ g s.table)
      after-settled (err x) s s1 e = inl e
      after-settled (ok u) s s1 e = elim (settle-settled s1.table (m s1).0 (m s1).1) [
        | inl q ↦ inl (q ∙ e)
        | inr (a, ra, te) ↦ inr (te ∙ k.at s1 a ra ∙ ap g e)
      ]

  pub IsAtomic-with_db : {m : Exec T A} {g : T → T} → IsAtomic m g → IsAtomic (with_db m) g
  unfolding with_db ◌>>=◌
  IsAtomic-with_db {m} {g} k = record {
    done = λ s b h. after-done (call s).0 s (call s).1 b (call_keeps s) h;
    settled = λ s. after-settled (call s).0 s (call s).1 (call_keeps s);
  }
    where
      rest : Unit {0} → Exec T A
      rest u s1 = (secured (m s1).0 (call (m s1).1).0, (call (m s1).1).1)

      after-done :
          (r : Result (Unit {0})) (s s1 : Db T) (b : A)
          → s1.table ≡ s.table
          → (continue r rest s1).0 ≡ ok b
          → (continue r rest s1).1.table ≡ g s.table
      after-done (ok u) s s1 b e h = call_keeps (m s1).1 ∙ k.done s1 b (secured-ok _ _ b h) ∙ ap g e
      after-done (err x) s s1 b e h = cc

      after-settled :
          (r : Result (Unit {0})) (s s1 : Db T)
          → s1.table ≡ s.table
          → ((continue r rest s1).1.table ≡ s.table) ⊎ ((continue r rest s1).1.table ≡ g s.table)
      after-settled (err x) s s1 e = inl e
      after-settled (ok u) s s1 e = elim (k.settled s1) [
        | inl q ↦ inl (call_keeps (m s1).1 ∙ q ∙ e)
        | inr q ↦ inr (call_keeps (m s1).1 ∙ q ∙ ap g e)
      ]
