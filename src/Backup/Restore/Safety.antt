-- ===== src/Backup/Restore/Safety.antt =====
-- What Restore of backup/backup.go makes of the directory, whichever calls fail.
use sisyphus.Prelude.{String, ◌≡◌, refl, Bool, Option, none, List, [], All}
use sisyphus.Fault.{Error, Result, ok, err}
use sisyphus.Engine.{Db, Exec, ◌>>=◌}
use sisyphus.Engine.Triples.{
  Post, Triple, Triple-pure, Triple-bind, Triple-update, Triple-ignoring, Triple-execute,
  Triple-call, Triple-pure_bind, Triple-raise_bind, Triple-fact, Triple-imp,
}
use sisyphus.Backup.{Lib, File, Header, extract}
use sisyphus.Backup.Swap.{Dir, Swap, run, Outcome, replaced, put_back, half_replaced}
use sisyphus.Backup.Swap.Endings.{Ended}
use sisyphus.Backup.Swap.Runs.{run-Ended_from}
use sisyphus.Backup.Restore.{
  World, release_locks, released, released-nil, remove_stage, remove_aside, run_swap, finished,
  staged_swap, deferring, given, staging, names_of, replace_entries, restore,
}
use sisyphus.Backup.Restore.Steps.{
  Kept, Free, Replaceable, check_replaceable-Checks, acquire_dest_locks-Keeps, staged, Staged,
  stage_entries-Stages,
}

module _ {T A : Type 0} (Q : T → Type 0) where
  either-Post : (r : Result A) (t : T) → Post (λ a. Q) (λ e. Q) r t → Q t
  either-Post (ok a) t h = h
  either-Post (err e) t h = h

module _ {T A : Type 0} {Q Q' : A → T → Type 0} {E E' : Error → T → Type 0}
    {after : Exec T Unit} where
  deferring-Post :
      (r : Result A) (s : Db T)
      → ((a : A) → Triple (Q a) after (λ u. Q' a) (λ e. Q' a))
      → ((e : Error) → Triple (E e) after (λ u. E' e) (λ x. E' e))
      → Post Q E r s.table
      → Post Q' E' r (after s).1.table
  deferring-Post (ok a) s f g h = either-Post (Q' a) (after s).0 (after s).1.table ((f a).at s h)
  deferring-Post (err e) s f g h = either-Post (E' e) (after s).0 (after s).1.table ((g e).at s h)

  Triple-deferring :
      {P : T → Type 0} {m : Exec T A}
      → Triple P m Q E
      → ((a : A) → Triple (Q a) after (λ u. Q' a) (λ e. Q' a))
      → ((e : Error) → Triple (E e) after (λ u. E' e) (λ x. E' e))
      → Triple P (deferring m after) Q' E'
  unfolding deferring
  Triple-deferring {P} {m} h f g = record {
    at = λ s p. deferring-Post (m s).0 (m s).1 f g (h.at s p);
  }

Ended-stage :
    (d0 st0 : Dir) (names : List String) (m : String) (o : Outcome) (t : World)
    → Ended d0 st0 names m o t.files
    → Ended d0 st0 names m o (remove_stage t).files
Ended-stage d0 st0 names m replaced t h = h
Ended-stage d0 st0 names m (put_back e) t h = h
Ended-stage d0 st0 names m (half_replaced e stuck) t h = h

module _ (lib : Lib) (d0 : Dir) (k0 : String → Option Bool) (m : String) (entries : List File)
    (names : List String) where
  abbrev Over : Outcome → World → Type 0
  Over o t = Ended d0 (staged d0 k0 entries names) names m o t.files

  abbrev Unchanged : Error → World → Type 0
  Unchanged e = Kept d0 k0

  in_World :
      (r : Result Outcome) (s : Swap) (w : World)
      → Post (Ended d0 (staged d0 k0 entries names) names m) (λ e t. ⊥) r s
      → Post Over (λ e t. ⊥) r (record w { files = s })
  in_World (ok o) s w h = h
  in_World (err e) s w h = h

  run_swap-Over :
      Triple
        (λ t. Staged d0 k0 entries names t × ((k : String) → t.files.aside k ≡ none))
        (run_swap names)
        Over
        (λ e t. ⊥)
  unfolding run_swap
  run_swap-Over = record {
    at = λ s h.
        let s0 : Db Swap = record {
          table = record s.table.files { moved = []; placed = [] };
          faults = s.faults;
        } in
        in_World (run names s0).0 (run names s0).1.table s.table (
          (run-Ended_from d0 (staged d0 k0 entries names) names m).at s0
            (h.0.0.0, h.0.1, h.1, refl, refl));
  }

  finished-Over : (o : Outcome) → Triple (Over o) (finished o) Over (λ e t. ⊥)
  unfolding finished
  finished-Over replaced =
      Triple-bind {R = λ u. Over replaced}
        (Triple-ignoring (Triple-execute remove_aside (λ t h. h) (λ t e h. h)))
        (λ u. Triple-pure replaced (λ t h. h))
  finished-Over (put_back e) = Triple-pure (put_back e) (λ t h. h)
  finished-Over (half_replaced e stuck) = Triple-pure (half_replaced e stuck) (λ t h. h)

  staged_swap-Over : Triple (Staged d0 k0 entries []) (staged_swap entries names) Over Unchanged
  unfolding staged_swap
  staged_swap-Over = Triple-bind (stage_entries-Stages d0 k0 entries names []) (λ u.
      Triple-bind (Triple-call (λ t e h. h.0)) (λ u.
        Triple-bind
          {R = λ u t. Staged d0 k0 entries names t × ((k : String) → t.files.aside k ≡ none)}
          (Triple-execute remove_aside (λ t h. (h, λ k. refl)) (λ t e h. h.0))
          (λ u.
            Triple-imp {Q = Over} {E = λ e t. ⊥} (Triple-bind run_swap-Over finished-Over)
              (λ t h. h) (λ o t h. h) (λ e t h. absurd h))))

  staging-Over : Triple (Kept d0 k0) (staging entries names) Over Unchanged
  unfolding staging
  staging-Over =
      Triple-bind {R = λ u. Kept d0 k0} (Triple-ignoring (Triple-call (λ t e h. h))) (λ u.
        Triple-bind {R = λ u. Staged d0 k0 entries []}
          (Triple-execute remove_stage (λ t h. (h, λ k. refl)) (λ t e h. h))
          (λ u.
            Triple-deferring staged_swap-Over
              (λ o.
                Triple-imp {Q = λ u. Over o} {E = λ e t. ⊥}
                  (Triple-ignoring (
                    Triple-execute remove_stage
                      (λ t h. Ended-stage d0 (staged d0 k0 entries names) names m o t h)
                      (λ t e h. h)))
                  (λ t h. h) (λ u t h. h) (λ e t h. absurd h))
              (λ e.
                Triple-imp {Q = λ u. Kept d0 k0} {E = λ e t. ⊥}
                  (Triple-ignoring (Triple-execute remove_stage (λ t h. h) (λ t e h. h))) (λ t h. h)
                  (λ u t h. h) (λ e t h. absurd h))))

  -- The end of Restore: all that `staging` promises, and no lock is held.
  abbrev pub Restored : Outcome → World → Type 0
  Restored o t =
      Ended d0 (staged d0 k0 entries names) names m o t.files
      × (t.held ≡ [])
      × All (Replaceable d0 k0) names

  locked-Restored :
      All (Replaceable d0 k0) names
      → Triple
          (Kept d0 k0)
          (deferring (staging entries names) release_locks)
          Restored
          (λ e. Free d0 k0)
  unfolding release_locks
  locked-Restored a =
      Triple-deferring staging-Over
        (λ o.
          Triple-update (λ w. record w { held = released w.held })
            (λ t h. (h, released-nil t.held, a)))
        (λ e.
          Triple-update (λ w. record w { held = released w.held })
            (λ t h. (h, released-nil t.held)))

-- The entries of an archive, or why it cannot be read.
abbrev pub entries_of : Lib → Result (List (Result Header)) → Result (List File)
entries_of lib (ok headers) = extract lib [] headers
entries_of lib (err e) = err e

module _ (lib : Lib) (d0 : Dir) (k0 : String → Option Bool) (m : String) where
  replace_entries-Restored :
      (entries : List File)
      → Triple
          (Free d0 k0)
          (replace_entries lib entries)
          (Restored lib d0 k0 m entries (names_of lib entries))
          (λ e. Free d0 k0)
  unfolding replace_entries
  replace_entries-Restored entries = Triple-bind (Triple-call (λ t e h. h)) (λ u.
      Triple-bind (check_replaceable-Checks d0 k0 (names_of lib entries)) (λ u.
        Triple-fact (All (Replaceable d0 k0) (names_of lib entries)) (λ a.
          Triple-bind
            (Triple-imp (acquire_dest_locks-Keeps d0 k0 (names_of lib entries)) (λ t h. h.0)
              (λ u t h. h) (λ e t h. h))
            (λ u. locked-Restored lib d0 k0 m entries (names_of lib entries) a))))

  -- After an archive with these entries; where it cannot be read, no outcome is left.
  abbrev pub Safe : Result (List File) → Outcome → World → Type 0
  Safe (ok entries) = Restored lib d0 k0 m entries (names_of lib entries)
  Safe (err e) = λ o t. ⊥

  given-Safe :
      (r : Result (List File))
      → Triple (Free d0 k0) (given r >>= replace_entries lib) (Safe r) (λ e. Free d0 k0)
  unfolding given
  given-Safe (ok entries) =
      Triple-pure_bind (replace_entries lib) entries (replace_entries-Restored entries)
  given-Safe (err e) = Triple-raise_bind (replace_entries lib) e (λ t h. h)

  abbrev with_headers : List (Result Header) → Exec World Outcome
  with_headers headers = given (extract lib [] headers) >>= replace_entries lib

  restore-Safe_triple :
      (archive : Result (List (Result Header)))
      → Triple (Free d0 k0) (restore lib archive) (Safe (entries_of lib archive)) (λ e. Free d0 k0)
  unfolding restore given
  restore-Safe_triple (ok headers) =
      Triple-bind (Triple-call (λ t e h. h))
        (λ u. Triple-pure_bind with_headers headers (given-Safe (extract lib [] headers)))
  restore-Safe_triple (err e) =
      Triple-bind (Triple-call (λ t e h. h)) (λ u. Triple-raise_bind with_headers e (λ t h. h))

-- A restore, whichever calls fail, leaves no lock held, and one that returns an error before its swap
-- has changed no file, as with an archive that cannot be read. From then on it has found every name
-- and its sidecars absent or regular files, and ends as its swap does: each entry's name has the
-- entry's bytes, the .wal and .tmp files beside these are gone, and every other name has what it had;
-- or every name has what it had; or it reports the names that could not be put back, and each other
-- name has what it had, and no file is lost, it is back or it lies in the aside directory.
pub restore-Safe :
    (lib : Lib) (archive : Result (List (Result Header))) (m : String) (s : Db World)
    → s.table.held ≡ []
    → let d0 : Dir = s.table.files.dest in
      let k0 : String → Option Bool = s.table.kind in
      Post
        (Safe lib d0 k0 m (entries_of lib archive))
        (λ e. Free d0 k0)
        (restore lib archive s).0
        (restore lib archive s).1.table
restore-Safe lib archive m s h =
    (restore-Safe_triple lib s.table.files.dest s.table.kind m archive).at s ((λ k. refl, refl), h)
