-- ===== src/Handle/Watch.antt =====
-- The idle timer of a Handle: what it keeps count of, and that an open handle will be closed.
use sisyphus.Prelude.{ℕ, ◌+◌, ◌<◌, ◌≡◌, true, false, arith, if◌then◌else◌}
use sisyphus.Handle.{
  Handle, Locks, Call, is_active, expire, on_idle, close, do_enter, do_resume, new_handle,
}

-- Between two steps: `pending` counts the countdown and the callbacks on their way; a handle that is
-- closed for good has no database; and one that has it open is armed, with a callback to come.
pub record IsWatched (h : Handle) : Type 0 where
  pub counted : h.pending ≡ h.in_flight + (if is_active h.timer then 1 else 0)
  pub retired : h.closed ≡ true → h.db ≡ false
  pub watched : h.db ≡ true → (0 < h.pending) × (h.gen ≡ h.armed)

pub IsWatched-new : (k : _) (m : ℕ) (u : _) → IsWatched (new_handle k m u)
unfolding new_handle
IsWatched-new k m u = ground arith

pub IsWatched-expire : (h : Handle) → IsWatched h → IsWatched (expire h)
unfolding expire
IsWatched-expire h w = ground arith

pub IsWatched-on_idle :
    (h : Handle) (l : Locks) → 0 < h.in_flight → IsWatched h → IsWatched (on_idle h l).0
unfolding on_idle
IsWatched-on_idle h l f w = ground arith

pub IsWatched-close : (h : Handle) (l : Locks) → IsWatched h → IsWatched (close h l).0
unfolding close
IsWatched-close h l w = ground arith

pub IsWatched-do_enter :
    (c : Call) (h : Handle) (l : Locks) → IsWatched h → IsWatched (do_enter c h l).1
unfolding do_enter
IsWatched-do_enter c h l w = ground arith

pub IsWatched-do_resume :
    (c : Call) (h : Handle) (l : Locks) → IsWatched h → IsWatched (do_resume c h l).1
unfolding do_resume
IsWatched-do_resume c h l w = ground arith
