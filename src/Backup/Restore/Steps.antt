-- ===== src/Backup/Restore/Steps.antt =====
-- What the steps of Restore before its swap leave as it was, whichever calls fail.
use Prim.Native.String.{◌++◌ as append}
use sisyphus.Prelude.{
  String, ◌≡◌, refl, ap, subst, ◌≢◌, Bool, true, false, Option, none, some, List, [], ◌∷◌, ◌++◌,
  arith, eq_iff, member, if◌then◌else◌, is_some, All, append-nil, append_assoc, sym,
}
use sisyphus.Fault.{Result, ok, err}
use sisyphus.Engine.{pure, attempt, query}
use sisyphus.Engine.Triples.{
  Post, Triple, Triple-pure, Triple-raise, Triple-system, Triple-query, Triple-bind, Triple-update,
  Triple-attempt, Triple-execute, Triple-call, Triple-fact, Triple-imp,
}
use sisyphus.Backup.{File, has_magic, said_yes}
use sisyphus.Backup.Swap.{Dir}
use sisyphus.Backup.Swap.Rollback.{member-append}
use sisyphus.Backup.Restore.{
  World, is_replaceable, regular_or_absent, check_replaceable, is_dest_database, release_locks,
  released, released-nil, locked_or_released, acquire_lock, acquire_dest_locks, bytes_of,
  stage_entries,
}

-- `d0` is what the directory holds, `k0` are the kinds of its names.
module _ (d0 : Dir) (k0 : String → Option Bool) where
  abbrev pub Kept : World → Type 0
  Kept t = ((k : String) → t.files.dest k ≡ d0 k) × (t.kind ≡ k0)

  -- Moreover no lock is held.
  abbrev pub Free : World → Type 0
  Free t = Kept t × (t.held ≡ [])

  abbrev pub Regular : String → Type 0
  Regular n = k0 n ≢ some false

  abbrev pub Replaceable : String → Type 0
  Replaceable n = Regular n × Regular (append n ".lock") × Regular (append n ".wait")

  is_replaceable-Post :
      (n : String) (o : Option Bool) (t : World)
      → t.kind n ≡ o
      → Free t
      → Post (λ u t. Free t × Regular n) (λ e. Free) (is_replaceable o t).0 (is_replaceable o t).1
  is_replaceable-Post n none t e h =
      (h, λ q. let kind : t.kind n ≡ k0 n = ap (λ (k : String → Option Bool). k n) h.0.1 in cc)
  is_replaceable-Post n (some true) t e h =
      (h, λ q. let kind : t.kind n ≡ k0 n = ap (λ (k : String → Option Bool). k n) h.0.1 in cc)
  is_replaceable-Post n (some false) t e h = h

  regular_or_absent-Checks :
      (n : String) → Triple Free (regular_or_absent n) (λ u t. Free t × Regular n) (λ e. Free)
  unfolding regular_or_absent
  regular_or_absent-Checks n =
      Triple-system (λ w. is_replaceable (w.kind n) w)
        (λ t h. is_replaceable-Post n (t.kind n) t refl h) (λ t e h. h)

  pub check_replaceable-Checks :
      (ns : List String)
      → Triple Free (check_replaceable ns) (λ u t. Free t × All Replaceable ns) (λ e. Free)
  unfolding check_replaceable
  check_replaceable-Checks [] = Triple-pure tt (λ t h. (h, tt))
  check_replaceable-Checks (n ∷ ns) = Triple-bind (regular_or_absent-Checks n) (λ u.
      Triple-fact (Regular n) (λ a. Triple-bind (regular_or_absent-Checks (append n ".lock")) (λ u.
        Triple-fact (Regular (append n ".lock")) (λ b.
          Triple-bind (regular_or_absent-Checks (append n ".wait")) (λ u.
            Triple-fact (Regular (append n ".wait")) (λ c.
              Triple-imp (check_replaceable-Checks ns) (λ t h. h) (λ u t h. (h.0, ((a, b, c), h.1)))
                (λ e t h. h)))))))

  examined-Keeps :
      (n : String) (b : Bool)
      → Triple Kept
          (if b then pure (ok true) else attempt (query (λ w. has_magic (w.files.dest n))))
          (λ r. Kept)
          (λ e. Free)
  examined-Keeps n true = Triple-pure (ok true) (λ t h. h)
  examined-Keeps n false =
      Triple-attempt (λ r. Kept)
        (Triple-query (λ w. has_magic (w.files.dest n)) (λ t h. h) (λ t e h. h))

  is_dest_database-Keeps : (n : String) → Triple Kept (is_dest_database n) (λ b. Kept) (λ e. Free)
  unfolding is_dest_database
  is_dest_database-Keeps n =
      Triple-bind
        (Triple-attempt (λ r. Kept)
          (Triple-query (λ w. is_some (w.files.dest (append n ".wal"))) (λ t h. h) (λ t e h. h)))
        (λ r.
          Triple-bind (examined-Keeps n (said_yes r)) (λ b. Triple-pure (said_yes b) (λ t h. h)))

  locked_or_released-Keeps :
      (n : String) (r : Result (Unit {0}))
      → Triple Kept (locked_or_released n r) (λ u. Kept) (λ e. Free)
  unfolding release_locks
  locked_or_released-Keeps n (ok u) = Triple-update (λ w. record w { held = n ∷ w.held }) (λ t h. h)
  locked_or_released-Keeps n (err e) =
      Triple-bind {R = λ u. Free}
        (Triple-update (λ w. record w { held = released w.held }) (λ t h. (h, released-nil t.held)))
        (λ u. Triple-raise e (λ t h. h))

  acquire_lock-Keeps :
      (n : String) (b : Bool) → Triple Kept (acquire_lock n b) (λ u. Kept) (λ e. Free)
  unfolding acquire_lock
  acquire_lock-Keeps n false = Triple-pure tt (λ t h. h)
  acquire_lock-Keeps n true =
      Triple-bind (Triple-attempt (λ r. Kept) (Triple-call (λ t e h. h)))
        (λ r. locked_or_released-Keeps n r)

  -- All locks are taken, or none is held.
  pub acquire_dest_locks-Keeps :
      (ns : List String) → Triple Kept (acquire_dest_locks ns) (λ u. Kept) (λ e. Free)
  unfolding acquire_dest_locks
  acquire_dest_locks-Keeps [] = Triple-pure tt (λ t h. h)
  acquire_dest_locks-Keeps (n ∷ ns) =
      Triple-bind (is_dest_database-Keeps n)
        (λ b. Triple-bind (acquire_lock-Keeps n b) (λ u. acquire_dest_locks-Keeps ns))

  module _ (entries : List File) where
    -- What the stage holds once these names are staged.
    abbrev pub staged : List String → Dir
    staged names k = if member k names then some (bytes_of k entries) else none

    abbrev pub Staged : List String → World → Type 0
    Staged names t = Kept t × ((k : String) → t.files.stage k ≡ staged names k)

    pub stage_entries-Stages :
        (ns done : List String)
        → Triple (Staged done) (stage_entries entries ns) (λ u. Staged (done ++ ns)) (λ e. Kept)
    unfolding stage_entries
    stage_entries-Stages [] done =
        Triple-pure tt (λ t h. subst (λ l. Staged l t) (sym (append-nil done)) h)
    stage_entries-Stages (n ∷ ns) done = Triple-bind (Triple-call (λ t e h. h.0)) (λ u.
        Triple-bind {R = λ u. Staged (done ++ n ∷ [])}
          (Triple-execute _
            (λ t h. (h.0, λ k. ground (arith, h.1 k, member-append k n done, eq_iff n k)))
            (λ t e h. h.0))
          (λ u.
            Triple-imp (stage_entries-Stages ns (done ++ n ∷ [])) (λ t h. h)
              (λ u t h. subst (λ l. Staged l t) (append_assoc done (n ∷ []) ns) h) (λ e t h. h)))
