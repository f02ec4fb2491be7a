-- ===== src/Handle/Drain.antt =====
-- Callbacks of the idle timer: a stale one closes nothing, and the last one closes the database.
use sisyphus.Prelude.{ℕ, zero, suc, ◌<◌, ◌≡◌, refl, true, false, arith}
use sisyphus.Handle.{Handle, Locks, is_active, expire, on_idle}
use sisyphus.Handle.Watch.{IsWatched, IsWatched-expire, IsWatched-on_idle}

-- While the timer counts down for a later operation, a callback of an earlier countdown, however
-- late it comes, closes nothing and gives no lock back.
pub on_idle_stale :
    (h : Handle) (l : Locks)
    → IsWatched h
    → 0 < h.in_flight
    → is_active h.timer ≡ true
    → ((on_idle h l).0.db ≡ h.db) × ((on_idle h l).0.timer ≡ h.timer) × ((on_idle h l).1 ≡ l)
unfolding on_idle
on_idle_stale h l w f a = ground arith

-- n callbacks take the mutex, one after the other.
abbrev pub callbacks : ℕ → Handle → Locks → Handle × Locks
callbacks zero h l = (h, l)
callbacks (suc n) h l = let (h', l') = on_idle h l in callbacks n h' l'

on_idle_count :
    (h : Handle) (l : Locks) (n : ℕ)
    → h.in_flight ≡ suc n
    → is_active h.timer ≡ false
    → ((on_idle h l).0.in_flight ≡ n) × (is_active (on_idle h l).0.timer ≡ false)
unfolding on_idle
on_idle_count h l n e a = ground arith

drain :
    (n : ℕ) (h : Handle) (l : Locks)
    → IsWatched h
    → h.in_flight ≡ n
    → is_active h.timer ≡ false
    → (callbacks n h l).0.db ≡ false
drain zero h l w e a = ground arith
drain (suc n) h l w e a =
    let (e', a') = on_idle_count h l n e a in
    drain n (on_idle h l).0 (on_idle h l).1 (IsWatched-on_idle h l (omega arith) w) e' a'

-- A handle that is left alone gives its database back: once its countdown has expired and every
-- callback on its way has run, the database is closed.
pub idle_closes :
    (h : Handle) (l : Locks)
    → IsWatched h
    → (callbacks (expire h).in_flight (expire h) l).0.db ≡ false
idle_closes h l w =
    drain (expire h).in_flight (expire h) l (IsWatched-expire h w) refl (expired_inactive h)
  where
    expired_inactive : (h : Handle) → is_active (expire h).timer ≡ false
    expired_inactive h = unfold expire in ground arith
