-- ===== src/Handle.antt =====
-- internal/duckdb/handle.go: the Handle that opens a database on demand, keeps it open for an idle
-- window and closes it from a timer, and the process's table of lock files. The mutex makes each
-- part between its Lock and Unlock one step; what the system answers in a call of Do is a `Call`.
pub mod Watch
pub mod Drain
pub mod Locks
pub mod Process
use sisyphus.Prelude.{
  ℕ, zero, suc, ◌+◌, ◌-◌, ◌%◌, ◌^◌, String, Bool, true, false, not, ◌&&◌, ◌||◌, Option, none, some,
  List, [], ◌∷◌, str_eq, ltb, ◌==◌, if◌then◌else◌,
}
use sisyphus.Fault.{Error, cancelled, Result, ok, err}
use sisyphus.Engine.{secured}

-- The *time.Timer: nil, stopped or expired, or counting down.
pub data Timer : Type 0 where
  unset idle active : Timer

pub record Handle : Type 0 where
  -- lockKey(path)
  pub key : String
  pub max_hold : ℕ
  pub unavail : Error
  pub db : Bool
  pub timer : Timer
  pub since : ℕ
  pub gen : ℕ
  pub armed : ℕ
  pub pending : ℕ
  pub closed : Bool
  -- The callbacks of expired timers that have yet to take the mutex, and the calls of Do that have
  -- handed the database off and wait.
  pub in_flight : ℕ
  pub yielding : ℕ

abbrev pub is_active : Timer → Bool
is_active active = true
is_active _ = false

-- timer.Stop(), and whether it stopped a countdown.
abbrev pub stopped : Timer → Timer
stopped unset = unset
stopped idle = idle
stopped active = idle

-- The timer expires: its callback is on its way.
unfoldable pub expire : Handle → Handle
expire h = if is_active h.timer then record h { timer = idle; in_flight = h.in_flight + 1 } else h

unfoldable pub disarm : Handle → Handle
disarm h =
    let h' = record h { gen = (h.gen + 1) % 2 ^ 64; timer = stopped h.timer } in
    if is_active h.timer then record h' { pending = h.pending - 1 } else h'

-- AfterFunc for a nil timer, Reset for one that is there.
unfoldable pub arm : Handle → Handle
arm h =
    let h' = record h { armed = h.gen; timer = active } in
    if is_active h.timer then h' else record h' { pending = h.pending + 1 }

-- locks.m: the references of each key that has an entry.
abbrev pub Locks : Type 0
Locks = List (String × ℕ)

unfoldable pub refs : String → Locks → ℕ
refs k [] = 0
refs k ((j, n) ∷ l) = if str_eq j k then n else refs k l

unfoldable pub set_refs : String → ℕ → Locks → Locks
set_refs k n [] = (k, n) ∷ []
set_refs k n ((j, m) ∷ l) = if str_eq j k then (k, n) ∷ l else (j, m) ∷ set_refs k n l

unfoldable pub drop_refs : String → Locks → Locks
drop_refs k [] = []
drop_refs k ((j, m) ∷ l) = if str_eq j k then drop_refs k l else (j, m) ∷ drop_refs k l

-- An entry gets one more reference; without one the lock file has to be taken, which may fail. Behind
-- that the source looks for an entry again, which is never there: whoever made it holds the lock file,
-- and only one does.
unfoldable pub acquire : String → Bool → Locks → Bool × Locks
unfolding refs set_refs
acquire k lock_ok l =
    if ltb 0 (refs k l)
    then (true, set_refs k (refs k l + 1) l)
    else if lock_ok
    then (true, set_refs k 1 l)
    else (false, l)

unfoldable pub release : String → Locks → Locks
unfolding refs set_refs drop_refs
release k l =
    if refs k l == 0
    then l
    else if ltb 0 (refs k l - 1)
    then set_refs k (refs k l - 1) l
    else drop_refs k l

unfoldable pub shut : Handle → Locks → Handle × Locks
unfolding disarm release
shut h l =
    let h' = disarm h in if h'.db then (record h' { db = false }, release h'.key l) else (h', l)

unfoldable pub on_idle : Handle → Locks → Handle × Locks
unfolding shut
on_idle h l =
    let h' = record h { pending = h.pending - 1; in_flight = h.in_flight - 1 } in
    if ltb 0 h'.pending || h'.closed || not (h'.gen == h'.armed) then (h', l) else shut h' l

unfoldable pub close : Handle → Locks → Handle × Locks
unfolding shut
close h l = shut (record h { closed = true }) l

-- What the world answers to one call of Do; an error where the lock or the file is not to be had.
pub record Call : Type 0 where
  pub done : Bool
  pub done_after_yield : Bool
  pub wanted : Bool
  pub now : ℕ
  pub lock_ok : Bool
  pub lock_error : Error
  pub open_ok : Bool
  pub open_error : Error
  pub fn : Option Error
  pub wal : Option Error

-- openLocked: the lock first, then the file; a file that does not open gives the lock back.
unfoldable pub open_locked : Call → Handle → Locks → Bool × Handle × Locks
unfolding acquire release
open_locked c h l =
    let (held, l') = acquire h.key c.lock_ok l in
    if not held
    then (false, h, l')
    else if c.open_ok
    then (true, record h { db = true; since = c.now }, l')
    else (false, h, release h.key l')

abbrev pub error_of : Option Error → Result (Unit {0})
error_of none = ok tt
error_of (some e) = err e

-- The error that openLocked returns.
abbrev pub open_failure : Call → Handle → Locks → Error
open_failure c h l = if (acquire h.key c.lock_ok l).0 then c.open_error else c.lock_error

-- The end of Do, once the handle is disarmed and nothing is handed off.
unfoldable pub run_fn : Call → Handle → Locks → Result (Unit {0}) × Handle × Locks
unfolding open_locked arm
run_fn c h l =
    let (opened, h', l') = open_locked c h l in
    let done = secured (error_of c.fn) (error_of c.wal) in
    if h.db
    then (done, arm h, l)
    else if opened
    then (done, arm h', l')
    else (err (open_failure c h l), h', l')

-- Do up to its end, or up to the point where yieldLocked drops the mutex: `none`.
unfoldable pub do_enter : Call → Handle → Locks → Option (Result (Unit {0})) × Handle × Locks
unfolding disarm shut run_fn
do_enter c h l =
    if c.done
    then (some (err cancelled), h, l)
    else if h.closed
    then (some (err h.unavail), h, l)
    else let h' = disarm h in
      let (h'', l'') = shut h' l in
      let (r, ran, l') = run_fn c h' l in
      if h'.db && (c.wanted || ltb h'.max_hold (c.now - h'.since))
      then (none, record h'' { yielding = h''.yielding + 1 }, l'')
      else (some r, ran, l')

-- The rest of a call that has yielded, once it has the mutex again.
unfoldable pub do_resume : Call → Handle → Locks → Result (Unit {0}) × Handle × Locks
unfolding disarm run_fn
do_resume c h l =
    let h' = record h { yielding = h.yielding - 1 } in
    let (r, ran, l') = run_fn c (disarm h') l in
    if h'.closed
    then (err h'.unavail, h', l)
    else if c.done_after_yield
    then (err cancelled, h', l)
    else (r, ran, l')

-- NewHandle; a positive option replaces its default, and ErrClosed stands for no sentinel.
unfoldable pub new_handle : String → ℕ → Error → Handle
new_handle key max_hold unavail = record {
  key = key;
  max_hold = max_hold;
  unavail = unavail;
  db = false;
  timer = unset;
  since = 0;
  gen = 0;
  armed = 0;
  pending = 0;
  closed = false;
  in_flight = 0;
  yielding = 0;
}
