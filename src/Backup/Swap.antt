-- ===== src/Backup/Swap.antt =====
-- The type swap of backup/backup.go: the renames of a restore, and how they are taken back. Which
-- calls of the system fail, beside those that find no file, is a list of outcomes.
pub mod Rollback
pub mod Aborting
pub mod Returning
pub mod Endings
pub mod Runs
use Prim.Native.String.{◌++◌ as append}
use sisyphus.Prelude.{
  String, Bool, true, false, not, ◌&&◌, Option, none, some, List, [], ◌∷◌, ◌++◌, str_eq, member,
  if◌then◌else◌, is_some,
}
use sisyphus.Fault.{Error, missing, Result, ok, err}
use sisyphus.Engine.{
  Db, Exec, ◌>>=◌, ◌>>◌, pure, raise, query, system, update, attempt, ignoring, execute,
}

abbrev pub Dir : Type 0
Dir = String → Option String

abbrev pub set : String → Option String → Dir → Dir
set n c d m = if str_eq n m then c else d m

pub record Swap : Type 0 where
  pub dest : Dir
  pub stage : Dir
  pub aside : Dir
  pub moved : List String
  pub placed : List String

-- os.Rename between the directories, each with what it finds under the name.
abbrev pub rename_out : String → Option String → Swap → Result (Unit {0}) × Swap
rename_out n none s = (err missing, s)
rename_out n (some c) s =
    (ok tt, record s { dest = set n none s.dest; aside = set n (some c) s.aside })

abbrev pub rename_in : String → Option String → Swap → Result (Unit {0}) × Swap
rename_in n none s = (err missing, s)
rename_in n (some c) s =
    (ok tt, record s { stage = set n none s.stage; dest = set n (some c) s.dest })

abbrev pub rename_back : String → Option String → Swap → Result (Unit {0}) × Swap
rename_back n none s = (err missing, s)
rename_back n (some c) s =
    (ok tt, record s { aside = set n none s.aside; dest = set n (some c) s.dest })

-- os.Remove, where fs.ErrNotExist does not count; the failures in the list of outcomes are others.
abbrev pub remove_found : String → Option String → Swap → Result (Unit {0}) × Swap
remove_found n none s = (ok tt, s)
remove_found n (some c) s = (ok tt, record s { dest = set n none s.dest })

-- The rest of setAside, behind Lstat.
unfoldable pub set_aside_found : String → Bool → Exec Swap Unit
unfolding ◌>>=◌ pure system update
set_aside_found n false = pure tt
set_aside_found n true = do
  system (λ s. rename_out n (s.dest n) s)
  update (λ s. record s { moved = s.moved ++ n ∷ [] })

unfoldable pub set_aside : String → Exec Swap Unit
unfolding ◌>>=◌ query set_aside_found
set_aside n = do found ← query (λ s. is_some (s.dest n)); set_aside_found n found

-- The two loops of run; an error leaves them at once.
unfoldable pub set_all_aside : List String → Exec Swap Unit
unfolding ◌>>=◌ pure set_aside
set_all_aside [] = pure tt
set_all_aside (n ∷ ns) = set_aside n >> set_all_aside ns

unfoldable pub place_all : List String → Exec Swap Unit
unfolding ◌>>=◌ pure system update
place_all [] = pure tt
place_all (n ∷ ns) = do
  system (λ s. rename_in n (s.stage n) s)
  update (λ s. record s { placed = s.placed ++ n ∷ [] })
  place_all ns

-- []string{base, base + walSuffix, base + tempSuffix}, for each of the names.
unfoldable pub family : List String → List String
family [] = []
family (n ∷ ns) = n ∷ append n ".wal" ∷ append n ".tmp" ∷ family ns

abbrev pub stuck_if : String → Result (Unit {0}) → List String → List String
stuck_if n (ok u) stuck = stuck
stuck_if n (err e) stuck = n ∷ stuck

-- The first loop of abort: what was placed where nothing was set aside goes.
unfoldable pub unplace_all : List String → List String → Exec Swap (List String)
unfolding ◌>>=◌ pure attempt system
unplace_all moved [] = pure []
unplace_all moved (n ∷ ns) = do
  r ← if member n moved then pure (ok tt) else attempt (system (λ s. remove_found n (s.dest n) s))
  stuck ← unplace_all moved ns
  pure (stuck_if n r stuck)

-- The second loop, over what was moved, the last first.
unfoldable pub move_all_back : List String → Exec Swap (List String)
unfolding ◌>>=◌ pure attempt system
move_all_back [] = pure []
move_all_back (n ∷ ns) = do
  stuck ← move_all_back ns
  r ← attempt (system (λ s. rename_back n (s.aside n) s))
  pure (stuck ++ stuck_if n r [])

-- What run returns: nil, or the cause with "every previous file is back in place", or the cause with
-- the names that could not be put back.
pub data Outcome : Type 0 where
  replaced : Outcome
  put_back : Error → Outcome
  half_replaced : Error → List String → Outcome

-- The end of abort: os.RemoveAll of the aside directory, its error ignored.
abbrev pub concluded : Error → List String → Exec Swap Outcome
concluded cause [] = do
  ignoring (execute (λ s. record s { aside = λ n. none }))
  pure (put_back cause)
concluded cause (n ∷ stuck) = pure (half_replaced cause (n ∷ stuck))

unfoldable pub abort : Error → Exec Swap Outcome
unfolding ◌>>=◌ pure ignoring execute unplace_all move_all_back
abort cause s =
    (do
      left ← unplace_all s.table.moved s.table.placed
      stuck ← move_all_back s.table.moved
      concluded cause (left ++ stuck))
      s

abbrev pub concluding : Result (Unit {0}) → Exec Swap Outcome
concluding (ok u) = pure replaced
concluding (err cause) = abort cause

unfoldable pub run : List String → Exec Swap Outcome
unfolding ◌>>=◌ pure attempt abort set_all_aside place_all family
run names = do r ← attempt (do set_all_aside (family names); place_all names); concluding r
