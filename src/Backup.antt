-- ===== src/Backup.antt =====
-- backup/backup.go: Archive and extract, over the files of a machine by their paths. The tar format
-- is that of Go's library: an archive is the list of its headers with their bytes, and reading one
-- may fail at any header. A text stands for bytes, one character each. Which calls of the system and of the engine fail is a list of outcomes.
pub mod Swap
pub mod Restore
pub mod Archives
use Prim.Native.String.{◌++◌ as append}
use text.Mathlib.Text.{get?}
use sisyphus.Prelude.{
  ℕ, ◌+◌, ◌≤◌, String, Bool, true, false, not, ◌&&◌, ◌||◌, Option, none, some, List, [], ◌∷◌, ◌++◌,
  str_eq, ltb, if◌then◌else◌, is_some, member, length, any, ◌*◌, ◌^◌,
}
use sisyphus.Fault.{Error, missing, other, Result, ok, err}
use sisyphus.Engine.{Db, Exec, ◌>>=◌, ◌>>◌, pure, raise, query, execute, call, attempt}
use sisyphus.Backup.Swap.{Dir, set}

abbrev pub orphaned_wal : Error
orphaned_wal = other 1

abbrev pub duplicate_entry : Error
duplicate_entry = other 2

abbrev pub nothing_to_back_up : Error
nothing_to_back_up = other 3

abbrev pub entry_too_long : Error
entry_too_long = other 4

-- What the file calls of Go's library and of DuckDB: filepath.Base, filepath.Clean, sort.Strings, and
-- what a database file holds once its log has been folded into it by a CHECKPOINT.
pub record Lib : Type 0 where
  pub base : String → String
  pub clean : String → String
  pub sorted : List String → List String
  pub checkpointed : String → Option String → String

pub record File : Type 0 where
  pub name : String
  pub bytes : String

-- Behind os.Stat or os.Open: a call that fails says no.
abbrev pub said_yes : Result Bool → Bool
said_yes (ok b) = b
said_yes (err e) = false

unfoldable pub has_wal : String → Exec Dir Bool
unfolding ◌>>=◌ pure attempt query
has_wal p = do r ← attempt (query (λ d. is_some (d (append p ".wal")))); pure (said_yes r)

-- string(head[duckMagicOffset:]) == duckMagic; a file that is shorter has no such text.
abbrev pub has_magic : Option String → Bool
has_magic none = false
has_magic (some c) = elim (get? c 8 12) [ none ↦ false | some h ↦ str_eq h "DUCK" ]

unfoldable pub is_database : String → Exec Dir Bool
unfolding ◌>>=◌ pure has_wal query
is_database p = do w ← has_wal p; if w then pure true else query (λ d. has_magic (d p))

-- os.ReadFile, and the one entry of the archive.
abbrev pub read_entry : Lib → String → Option String → Exec Dir (List File)
read_entry lib p none = raise missing
read_entry lib p (some c) = pure (record { name = lib.base p; bytes = c } ∷ [])

unfoldable pub read_plain : Lib → String → Exec Dir (List File)
unfolding ◌>>=◌ pure raise query
read_plain lib p = do c ← query (λ d. d p); read_entry lib p c

-- CHECKPOINT: the database takes its log in.
abbrev pub folded : Lib → String → Option String → Dir → Dir
folded lib p none d = d
folded lib p (some c) d =
    set (append p ".wal") none (set p (some (lib.checkpointed c (d (append p ".wal")))) d)

-- AcquireLock, Open, CHECKPOINT, Close and ReadFile.
unfoldable pub snapshot_db : Lib → String → Exec Dir (List File)
unfolding ◌>>=◌ call execute read_plain
snapshot_db lib p = do call; call; execute (λ d. folded lib p (d p) d); call; read_plain lib p

-- A path with nothing under it: a log that has lost its database is refused.
unfoldable pub snapshot_absent : String → Exec Dir (List File)
unfolding ◌>>=◌ pure raise has_wal
snapshot_absent p = do w ← has_wal p; if w then raise orphaned_wal else pure []

unfoldable pub snapshot : Lib → String → Exec Dir (List File)
unfolding ◌>>=◌ query is_database read_plain snapshot_db snapshot_absent
snapshot lib p = do
  found ← query (λ d. is_some (d p))
  if found
      then (do db ← is_database p; if db then snapshot_db lib p else read_plain lib p)
      else snapshot_absent p

-- The loop over the files of one snapshot: WriteHeader and Write.
unfoldable pub write_files : List File → List File → Exec Dir (List File)
unfolding ◌>>=◌ pure raise call
write_files out [] = pure out
write_files out (f ∷ files) =
    let rest : Exec Dir (List File) = (do call; call; write_files (out ++ f ∷ []) files) in
    if any (λ g. str_eq g.name f.name) out then raise duplicate_entry else rest

-- The loop over the paths; ctx.Err comes first in each turn.
unfoldable pub archive_paths : Lib → List File → List String → Exec Dir (List File)
unfolding ◌>>=◌ pure call snapshot write_files
archive_paths lib out [] = pure out
archive_paths lib out (p ∷ paths) = do
  call
  files ← snapshot lib p
  out' ← write_files out files
  archive_paths lib out' paths

abbrev pub some_files : List File → Exec Dir (List File)
some_files [] = raise nothing_to_back_up
some_files (f ∷ files) = pure (f ∷ files)

unfoldable pub archive : Lib → List String → Exec Dir (List File)
unfolding ◌>>=◌ pure raise call archive_paths
archive lib paths = do call; files ← archive_paths lib [] paths; call; some_files files

-- A header of a tar archive with its bytes, the reading of which may fail; `size` is their number.
pub record Header : Type 0 where
  pub name : String
  pub regular : Bool
  pub content : Result String
  pub size : ℕ

abbrev pub max_entry_bytes : ℕ
max_entry_bytes = 256 * 2 ^ 20

-- out[name] = data
unfoldable pub put_entry : String → String → List File → List File
put_entry n c [] = record { name = n; bytes = c } ∷ []
put_entry n c (f ∷ files) =
    if str_eq f.name n then record { name = n; bytes = c } ∷ files else f ∷ put_entry n c files

abbrev pub is_no_name : String → Bool
is_no_name n = str_eq n "." || str_eq n ".." || str_eq n "" || str_eq n "/"

-- One header: what it adds to `out`, or an error.
unfoldable pub take_header : Lib → List File → Header → Result (List File)
unfolding put_entry
take_header lib out h =
    let n : String = lib.base (lib.clean h.name) in
    if not h.regular || is_no_name n then ok out else elim h.content [
      | err e ↦ err e
      | ok c ↦ if ltb max_entry_bytes h.size then err entry_too_long else ok (put_entry n c out)
    ]

abbrev pub take_next : Result (List File) → (List File → Result (List File)) → Result (List File)
take_next (ok out) k = k out
take_next (err e) k = err e

-- What tar.Reader.Next returns, up to io.EOF.
unfoldable pub extract : Lib → List File → List (Result Header) → Result (List File)
unfolding take_header
extract lib out [] = ok out
extract lib out (err e ∷ headers) = err e
extract lib out (ok h ∷ headers) = take_next (take_header lib out h) (λ o. extract lib o headers)
