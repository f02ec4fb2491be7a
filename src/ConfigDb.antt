-- ===== src/ConfigDb.antt =====
-- configdb/configdb.go and configdb/revision.go: named documents with one current snapshot each and
-- the archived ones, and the marker file that pollers read. Hashing, number formatting and trimming
-- are calls of Go's library and so an argument `lib`; a snapshot's time is the clock's reading.
pub mod Imports
pub mod Documents
use Prim.Native.String.{◌++◌ as append}
use sisyphus.Prelude.{
  ℕ, zero, String, Bool, true, false, not, ◌||◌, Option, none, some, List, [], ◌∷◌, ◌++◌, str_eq,
  ltb, if◌then◌else◌, take, filter, find?, any,
}
use sisyphus.Prelude.Int.{ℤ, pos, negsuc, positive_or}
use sisyphus.Fault.{Error, constraint, generation_marker, Result, ok, err}
use sisyphus.Engine.{
  Db, Exec, ◌>>=◌, ◌>>◌, pure, raise, statement, execute, call, query, transaction, with_db,
}

pub record Snapshot : Type 0 where
  pub name : String
  pub hash : String
  pub format : String
  pub content : String
  pub at : ℕ

-- store_current, store_history in the order of its ids, and the text of the marker file if any.
pub record Tables : Type 0 where
  pub current : List Snapshot
  pub history : List Snapshot
  pub marker : Option String

-- What the file calls of Go's library: hex SHA-256, FormatInt in base 36, [:12], TrimSpace.
pub record Lib : Type 0 where
  pub digest : String → String
  pub base36 : ℕ → String
  pub first12 : String → String
  pub trim_space : String → String

unfoldable pub hash : Lib → String → String → String
hash lib format content = lib.digest (append format (append "\0" content))

abbrev pub named : String → Snapshot → Bool
named n v = str_eq v.name n

abbrev pub unnamed : String → List Snapshot → List Snapshot
unnamed n vs = filter (λ v. not (named n v)) vs

unfoldable pub current_on : String → Exec Tables (Option Snapshot)
unfolding query
current_on n = query (λ t. find? (named n) t.current)

unfoldable pub current : String → Exec Tables (Option Snapshot)
unfolding with_db current_on
current n = with_db (current_on n)

-- INSERT INTO store_current, under its PRIMARY KEY.
unfoldable pub insert_current : Snapshot → Exec Tables Unit
unfolding ◌>>=◌ query raise execute
insert_current v = do
  taken ← query (λ t. any (named v.name) t.current)
  if taken then raise constraint else execute (λ t. record t { current = t.current ++ v ∷ [] })

-- if hasCur { INSERT INTO store_history … }
unfoldable pub archive : ℕ → Option Snapshot → Exec Tables Unit
unfolding pure execute
archive now none = pure tt
archive now (some v) = execute (λ t. record t { history = t.history ++ record v { at = now } ∷ [] })

unfoldable pub drop_current : String → Exec Tables Unit
unfolding execute
drop_current n = execute (λ t. record t { current = unnamed n t.current })

-- The outcome of WriteItem, wrapped in ErrGenerationMarker.
abbrev pub marked_or : {A : Type 0} → Result A → Result A
marked_or (ok a) = ok a
marked_or (err e) = err generation_marker

unfoldable pub revision : Lib → ℕ → String → String
unfolding hash
revision lib now change = append (lib.base36 now) (append "-" (lib.first12 (hash lib "gen" change)))

abbrev pub set_marker : String → Tables → Tables
set_marker rev t = record t { marker = some (append rev "\n") }

unfoldable pub bump : Lib → ℕ → String → Exec Tables Unit
unfolding execute revision
bump lib now change s =
    let (r, s') = execute (set_marker (revision lib now change)) s in (marked_or r, s')

-- The closure that Import passes to Do.
unfoldable pub replace_current : ℕ → Snapshot → Exec Tables Unit
unfolding ◌>>=◌ current_on transaction archive drop_current insert_current
replace_current archived v = do
  cur ← current_on v.name
  transaction (do archive archived cur; drop_current v.name; insert_current v)

-- `archived`, `applied` and `bumped` are the three readings of the clock.
unfoldable pub import_doc : Lib → ℕ → ℕ → ℕ → String → String → String → Exec Tables Unit
unfolding ◌>>=◌ with_db replace_current bump hash
import_doc lib archived applied bumped n content format = do
  with_db (
      replace_current archived (record {
        name = n;
        hash = hash lib format content;
        format = format;
        content = content;
        at = applied;
      }))
  bump lib bumped (append n (append ":" (hash lib format content)))

-- The transaction of Forget.
unfoldable pub forget_doc : String → Exec Tables Unit
unfolding ◌>>=◌ transaction drop_current execute
forget_doc n =
    transaction (do drop_current n; execute (λ t. record t { history = unnamed n t.history }))

unfoldable pub forget : Lib → ℕ → String → Exec Tables Unit
unfolding ◌>>=◌ with_db forget_doc bump
forget lib bumped n = do with_db (forget_doc n); bump lib bumped (append "forget:" n)

-- ORDER BY archived_at DESC; snapshots of one time keep the order of the table.
abbrev pub insert_newest : Snapshot → List Snapshot → List Snapshot
insert_newest v [] = v ∷ []
insert_newest v (w ∷ ws) =
    let rest = insert_newest v ws in if ltb v.at w.at then w ∷ rest else v ∷ w ∷ ws

abbrev pub newest_first : List Snapshot → List Snapshot
newest_first [] = []
newest_first (v ∷ vs) = insert_newest v (newest_first vs)

-- History, a limit that is not positive meaning 50.
unfoldable pub history : String → ℤ → Exec Tables (List Snapshot)
unfolding ◌>>=◌ with_db query call pure
history n limit = with_db (do
  rows ← query (λ t. take (positive_or 50 limit) (newest_first (filter (named n) t.history)))
  call
  pure rows)

-- Generation: `readable` is whether ReadFile succeeds on a marker that is there.
unfoldable pub generation : Lib → Bool → Tables → Option String
generation lib readable t = elim t.marker [
  | none ↦ none
  | some text ↦
      if str_eq (lib.trim_space text) "" || not readable then none else some (lib.trim_space text)
]
