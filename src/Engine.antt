-- ===== src/Engine.antt =====
-- What a store package sees of database/sql and of Handle.Do (internal/duckdb/handle.go):
-- calls that may fail, statements, transactions. The engine is not part of the repository: which
-- of its calls fail is a list of outcomes, and a failed statement or commit changes nothing.
pub mod Atomic
pub mod Sequence
pub mod Triples
use sisyphus.Prelude.{Option, none, some, List, [], ◌∷◌}
use sisyphus.Fault.{Error, unavailable, Result, ok, err}

-- The tables, and the outcome of each call to come; calls past the end of the list succeed.
pub record Db (T : Type 0) : Type 0 where
  pub table : T
  pub faults : List (Option Error)

abbrev pub Exec : Type 0 → Type 0 → Type 0
Exec T A = Db T → Result A × Db T

module _ {T A : Type 0} where
  unfoldable pub pure : A → Exec T A
  pure a s = (ok a, s)

  unfoldable pub raise : Error → Exec T A
  raise e s = (err e, s)

module _ {T A B : Type 0} where
  abbrev pub continue : Result A → (A → Exec T B) → Exec T B
  continue (ok a) f s = f a s
  continue (err e) f s = (err e, s)

  infixl 10 ◌>>=◌ ◌>>◌
  unfoldable pub ◌>>=◌ : Exec T A → (A → Exec T B) → Exec T B
  unfolding pure raise
  ◌>>=◌ m f s = let (r, s') = m s in continue r f s'

  abbrev pub ◌>>◌ : Exec T A → Exec T B → Exec T B
  m >> n = m >>= λ _. n

-- The fault of the next call, if it fails, and the calls after it.
abbrev pub next_fault : List (Option Error) → Option Error × List (Option Error)
next_fault [] = (none, [])
next_fault (f ∷ fs) = (f, fs)

module _ {T A : Type 0} where
  -- One statement: it fails and changes nothing, or it returns a value and the new tables.
  abbrev pub perform : (T → A × T) → T → Option Error × List (Option Error) → Result A × Db T
  perform f t (none, fs) = let (a, t') = f t in (ok a, record { table = t'; faults = fs })
  perform f t (some e, fs) = (err e, record { table = t; faults = fs })

  unfoldable pub statement : (T → A × T) → Exec T A
  statement f s = perform f s.table (next_fault s.faults)

  -- A result that is ignored, `_, _ = db.ExecContext(…)`.
  unfoldable pub ignoring : Exec T A → Exec T Unit
  ignoring m s = (ok tt, (m s).1)

module _ {T : Type 0} where
  unfoldable pub execute : (T → T) → Exec T Unit
  unfolding statement
  execute f = statement (λ t. (tt, f t))

  -- A call that reads or writes nothing that is modelled: Begin, rows.Err, Chmod.
  unfoldable pub call : Exec T Unit
  unfolding execute
  call = execute (λ t. t)

-- The end of Handle.Do: an error of `fn` first, then one of narrowing the WAL's permissions.
abbrev pub secured : {A : Type 0} → Result A → Result (Unit {0}) → Result A
secured (err e) w = err e
secured (ok a) (ok w) = ok a
secured (ok a) (err e) = err e

module _ {T A : Type 0} where
  unfoldable pub query : (T → A) → Exec T A
  unfolding statement
  query f = statement (λ t. (f t, t))

  abbrev pub committed : T → A → T → Option Error × List (Option Error) → Result A × Db T
  committed t a t' (none, fs) = (ok a, record { table = t'; faults = fs })
  committed t a t' (some e, fs) = (err e, record { table = t; faults = fs })

  -- The end of `tx`: Commit where the body succeeded; the deferred Rollback where it or the Commit
  -- failed, which puts back the tables that Begin saw.
  abbrev pub settle : T → Result A → Db T → Result A × Db T
  settle t (err e) s = (err e, record s { table = t })
  settle t (ok a) s = committed t a s.table (next_fault s.faults)

  unfoldable pub transaction : Exec T A → Exec T A
  unfolding ◌>>=◌ call
  transaction body = call >>= λ _ s. let (r, s') = body s in settle s.table r s'

  -- Handle.Do: waiting for the lock and opening may fail, and then `fn` does not run.
  unfoldable pub with_db : Exec T A → Exec T A
  unfolding ◌>>=◌ call
  with_db fn = call >>= λ _ s. let (r, s') = fn s in let (w, s'') = call s' in (secured r w, s'')

-- A call of the system that may also fail by what it finds.
abbrev pub run_system :
    {T A : Type 0} → (T → Result A × T) → T → Option Error × List (Option Error) → Result A × Db T
run_system f t (none, fs) = let (r, t') = f t in (r, record { table = t'; faults = fs })
run_system f t (some e, fs) = (err e, record { table = t; faults = fs })

module _ {T : Type 0} where
  -- A change of the program's own variables, which no call makes.
  unfoldable pub update : (T → T) → Exec T Unit
  update f s = (ok tt, record s { table = f s.table })

module _ {T A : Type 0} where
  unfoldable pub system : (T → Result A × T) → Exec T A
  system f s = run_system f s.table (next_fault s.faults)

  -- An error that is looked at and not returned.
  unfoldable pub attempt : Exec T A → Exec T (Result A)
  attempt m s = let (r, s') = m s in (ok r, s')

-- A method's receiver: `none` is the nil *Store.
module _ {T A : Type 0} where
  unfoldable pub on_store : Exec T A → Option (Db T) → Result A × Option (Db T)
  on_store m none = (err unavailable, none)
  on_store m (some s) = let (r, s') = m s in (r, some s')
