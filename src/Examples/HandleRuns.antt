-- ===== src/Examples/HandleRuns.antt =====
-- internal/duckdb/handle.go: one handle that works, is left alone and closes.
use sisyphus.Prelude.{◌≡◌, refl, true, false, none, some, [], ◌∷◌, arith}
use sisyphus.Fault.{closed, locked, missing, ok}
use sisyphus.Handle.{Handle, active, Locks, Call, new_handle, do_enter, expire, on_idle}
use sisyphus.Handle.Watch.{IsWatched, IsWatched-new, IsWatched-do_enter}
use sisyphus.Handle.Drain.{callbacks, on_idle_stale, idle_closes}
use sisyphus.Handle.Process.{Process, create, act, enters, Reach, begin, next, IsSafe, Reach-IsSafe}

abbrev works : Call
works = record {
  done = false;
  done_after_yield = false;
  wanted = false;
  now = 7;
  lock_ok = true;
  lock_error = locked;
  open_ok = true;
  open_error = missing;
  fn = none;
  wal = none;
}

abbrev made : Handle
made = new_handle "/db" 10 closed

-- After one operation.
abbrev used : Handle
used = (do_enter works made []).1

abbrev used_locks : Locks
used_locks = (do_enter works made []).2

one_operation :
    ((do_enter works made []).0 ≡ some (ok tt)) × (used.db ≡ true) × (used_locks ≡ ("/db", 1) ∷ [])
unfolding do_enter new_handle
one_operation = (refl, refl, refl)

used-IsWatched : IsWatched used
used-IsWatched = IsWatched-do_enter works made [] (IsWatched-new "/db" 10 closed)

idle_closes_example : (callbacks (expire used).in_flight (expire used) used_locks).0.db ≡ false
idle_closes_example = idle_closes used used_locks used-IsWatched

-- The countdown expires, and a second operation takes the mutex before the callback.
abbrev busy : Handle
busy = (do_enter works (expire used) used_locks).1

busy-IsWatched : IsWatched busy
unfolding do_enter new_handle expire
busy-IsWatched = ground arith

on_idle_stale_example :
    ((on_idle busy used_locks).0.db ≡ true)
    × ((on_idle busy used_locks).0.timer ≡ active)
    × ((on_idle busy used_locks).1 ≡ used_locks)
unfolding do_enter new_handle expire
on_idle_stale_example = on_idle_stale busy used_locks busy-IsWatched (omega arith) refl

abbrev after_one : Process
after_one = record { handles = used ∷ []; locks = used_locks }

Reach-after_one : Reach after_one
Reach-after_one =
    next (next begin (create "/db" 10 closed refl))
      (act [] [] made used used_locks refl (enters works) refl)

Reach-IsSafe_example : IsSafe after_one
Reach-IsSafe_example = Reach-IsSafe {p = after_one} Reach-after_one
