-- ===== src/Backup/Restore.antt =====
-- Restore of backup/backup.go: the checks and locks before the swap, the staging, and what is let go
-- at its end. The directory is a Swap; the kinds of the names in it do not change meanwhile.
pub mod Steps
pub mod Safety
use Prim.Native.String.{◌++◌ as append}
use sisyphus.Prelude.{
  ◌≡◌, refl, ℕ, String, Bool, true, false, not, ◌&&◌, ◌||◌, Option, none, some, List, [], ◌∷◌, ◌++◌,
  str_eq, if◌then◌else◌, is_some, map, find?,
}
use sisyphus.Fault.{Error, missing, other, Result, ok, err}
use sisyphus.Engine.{
  Db, Exec, ◌>>=◌, ◌>>◌, pure, raise, query, execute, call, attempt, ignoring, update, system,
}
use sisyphus.Backup.{Lib, File, Header, extract, has_magic, said_yes}
use sisyphus.Backup.Swap.{Dir, set, Swap, Outcome, run}

abbrev pub irregular : Error
irregular = other 5

-- `kind` is what Lstat finds: nothing, or whether it is a regular file. `held` are the locks held.
pub record World : Type 0 where
  pub files : Swap
  pub kind : String → Option Bool
  pub held : List String

abbrev pub is_replaceable : Option Bool → World → Result (Unit {0}) × World
is_replaceable none w = (ok tt, w)
is_replaceable (some true) w = (ok tt, w)
is_replaceable (some false) w = (err irregular, w)

unfoldable pub regular_or_absent : String → Exec World Unit
unfolding system
regular_or_absent n = system (λ w. is_replaceable (w.kind n) w)

unfoldable pub check_replaceable : List String → Exec World Unit
unfolding ◌>>=◌ pure regular_or_absent
check_replaceable [] = pure tt
check_replaceable (n ∷ names) = do
  regular_or_absent n
  regular_or_absent (append n ".lock")
  regular_or_absent (append n ".wait")
  check_replaceable names

-- isDatabase on the directory, where an error says no.
unfoldable pub is_dest_database : String → Exec World Bool
unfolding ◌>>=◌ pure attempt query
is_dest_database n = do
  w ← attempt (query (λ w. is_some (w.files.dest (append n ".wal"))))
  m ← if said_yes w then pure (ok true) else attempt (query (λ w. has_magic (w.files.dest n)))
  pure (said_yes m)

-- The loop of releaseLocks, from the last lock on; the list holds those that are left.
abbrev pub released : List String → List String
released [] = []
released (n ∷ held) = released held

pub released-nil : (held : List String) → released held ≡ []
released-nil [] = refl
released-nil (n ∷ held) = released-nil held

unfoldable pub release_locks : Exec World Unit
unfolding update
release_locks = update (λ w. record w { held = released w.held })

-- What acquireDestLocks makes of AcquireLock's answer.
abbrev pub locked_or_released : String → Result (Unit {0}) → Exec World Unit
locked_or_released n (ok u) = update (λ w. record w { held = n ∷ w.held })
locked_or_released n (err e) = release_locks >> raise e

unfoldable pub acquire_lock : String → Bool → Exec World Unit
unfolding ◌>>=◌ pure raise attempt call update release_locks
acquire_lock n false = pure tt
acquire_lock n true = do r ← attempt call; locked_or_released n r

unfoldable pub acquire_dest_locks : List String → Exec World Unit
unfolding ◌>>=◌ pure is_dest_database acquire_lock
acquire_dest_locks [] = pure tt
acquire_dest_locks (n ∷ names) = do
  db ← is_dest_database n
  acquire_lock n db
  acquire_dest_locks names

-- entries[base]
unfoldable pub bytes_of : String → List File → String
bytes_of n [] = ""
bytes_of n (f ∷ files) = if str_eq f.name n then f.bytes else bytes_of n files

-- writeSynced of every entry into the stage, ctx.Err before each.
unfoldable pub stage_entries : List File → List String → Exec World Unit
unfolding ◌>>=◌ pure call execute bytes_of
stage_entries entries [] = pure tt
stage_entries entries (n ∷ names) = do
  call
  execute (λ w. record w {
    files = record w.files { stage = set n (some (bytes_of n entries)) w.files.stage };
  })
  stage_entries entries names

-- sw.run, on the fields of the World that it is about.
unfoldable pub run_swap : List String → Exec World Outcome
run_swap names w =
    let (r, s) =
      run names
        (record { table = record w.table.files { moved = []; placed = [] }; faults = w.faults }) in
    (r, record { table = record w.table { files = s.table }; faults = s.faults })

abbrev pub remove_stage : World → World
remove_stage w = record w { files = record w.files { stage = λ n. none } }

abbrev pub remove_aside : World → World
remove_aside w = record w { files = record w.files { aside = λ n. none } }

-- The end of Restore: on success the aside directory goes, an error of that ignored.
unfoldable pub finished : Outcome → Exec World Outcome
unfolding ◌>>=◌ pure ignoring execute
finished Outcome.replaced = ignoring (execute remove_aside) >> pure Outcome.replaced
finished (Outcome.put_back e) = pure (Outcome.put_back e)
finished (Outcome.half_replaced e stuck) = pure (Outcome.half_replaced e stuck)

-- From the loop that stages to the end; MkdirTemp makes a new, empty aside directory.
unfoldable pub staged_swap : List File → List String → Exec World Outcome
unfolding ◌>>=◌ call execute stage_entries run_swap finished
staged_swap entries names = do
  stage_entries entries names
  call
  execute remove_aside
  o ← run_swap names
  finished o

-- A deferred step that runs whatever the result is.
unfoldable pub deferring : {T A : Type 0} → Exec T A → Exec T Unit → Exec T A
deferring m after s = let (r, s') = m s in let (u, s'') = after s' in (r, s'')

-- A result of Go's library, such as crypt.Decrypt's.
unfoldable pub given : {T A : Type 0} → Result A → Exec T A
unfolding pure raise
given (ok a) = pure a
given (err e) = raise e

-- sweepStageDirs, on directories of earlier restores; MkdirTemp of the stage; and what comes behind
-- it, with the deferred os.RemoveAll of the stage.
unfoldable pub staging : List File → List String → Exec World Outcome
unfolding ◌>>=◌ ignoring call execute staged_swap deferring
staging entries names = do
  ignoring call
  execute remove_stage
  deferring (staged_swap entries names) (ignoring (execute remove_stage))

abbrev pub names_of : Lib → List File → List String
names_of lib entries = lib.sorted (map (λ f. lib.base f.name) entries)

-- From os.MkdirAll of the directory on.
unfoldable pub replace_entries : Lib → List File → Exec World Outcome
unfolding ◌>>=◌ call check_replaceable acquire_dest_locks deferring release_locks staging
replace_entries lib entries = do
  call
  check_replaceable (names_of lib entries)
  acquire_dest_locks (names_of lib entries)
  deferring (staging entries (names_of lib entries)) release_locks

-- `archive` is what Decrypt returns, read as a tar. The errors up to the swap come back as `err`, and
-- those from then on as the outcome of the swap.
unfoldable pub restore : Lib → Result (List (Result Header)) → Exec World Outcome
unfolding ◌>>=◌ call given replace_entries
restore lib archive = do
  call
  headers ← given archive
  entries ← given (extract lib [] headers)
  replace_entries lib entries
