-- ===== src/Schedule/Cycle.antt =====
-- One round of Run in schedule/schedule.go: which jobs run, when they run again, how long it sleeps.
use sisyphus.Prelude.{
  ℕ, ◌+◌, ◌≤◌, ◌<◌, min, ◌≡◌, ◌≢◌, ◌⊎◌, Bool, true, false, not, ◌&&◌, Option, none, some, List, [],
  ◌∷◌, arith, ltb, leb, ◌==◌, if◌then◌else◌,
}
use sisyphus.Prelude.Int.{pos}
use sisyphus.Fault.{Result, ok, err}
use sisyphus.Schedule.{Job, ScheduleState, Answer, Turn, Plan, visit, wait, schedule_backoff}
use sisyphus.Schedule.Backoff.{schedule_backoff_pos}

-- The time that an answer gives is there and has come.
abbrev pub has_come : ℕ → Result ℕ → Bool
has_come now (err e) = false
has_come now (ok due) = not (due == 0) && leb due now

-- A job runs in a visit exactly if it has both callbacks, its own time has come, and Next answers
-- with a time that has come; and it is asked exactly under the first two conditions.
pub visit_runs :
    (interval now : ℕ) (job : Job) (st : ScheduleState) (ans : Answer)
    → let ready = job.has_next && job.has_run && leb st.at now in
      ((visit interval now job st ans).asked ≡ ready)
      × ((visit interval now job st ans).ran ≡ (ready && has_come now ans.due))
unfolding visit
visit_runs interval now job st ans = ground arith

-- A failed job, whose count of failures is at most 64, counts one more up to 64, waits for the delay
-- of that count, and is never retried at once.
pub visit_fails :
    (interval now : ℕ) (job : Job) (st : ScheduleState) (ans : Answer)
    → st.fails ≤ 64
    → (visit interval now job st ans).report ≢ none
    → let st' = (visit interval now job st ans).state in
      (st'.fails ≡ min (st.fails + 1) 64)
      × (st'.at ≡ now + schedule_backoff (pos interval) st'.fails)
      × (now < st'.at)
unfolding visit
visit_fails interval now job st ans b h = ground (
  arith,
  schedule_backoff_pos (pos interval) (st.fails + 1),
  schedule_backoff_pos (pos interval) st.fails,
)

-- The plan that a later note leaves, against an earlier one.
record Refines (p q : Plan) : Type 0 where
  soon : p.poll_soon ≡ true → q.poll_soon ≡ true
  first : 0 < p.soonest → (0 < q.soonest) × (q.soonest ≤ p.soonest)

-- What a plan promises for a time that a job waits for.
abbrev pub Covers : ℕ → Plan → Option ℕ → Type 0
Covers now p none = Unit {0}
Covers now p (some at) =
    if ltb now at then (0 < p.soonest) × (p.soonest ≤ at) else p.poll_soon ≡ true

-- That a sleep of `w` from `later` on serves a time that a job waits for, where `p.soonest` is the
-- earliest of the times to come: for one that was to come, the sleep ends in time while the earliest
-- is still to come, and is an interval once that has passed; for one that had come at the start of the
-- round it is at most an interval.
abbrev pub Serves : ℕ → ℕ → ℕ → ℕ → Plan → Option ℕ → Type 0
Serves interval now later w p none = Unit {0}
Serves interval now later w p (some at) =
    if ltb now at
    then (0 < p.soonest)
      × (p.soonest ≤ at)
      × (if ltb later p.soonest then later + w ≤ at else w ≡ interval)
    else w ≤ interval

-- The time is that of one of the jobs, or 0 where none has it.
abbrev pub IsNoted : ℕ → List Turn → Type 0
IsNoted at [] = at ≡ 0
IsNoted at (t ∷ turns) = (t.noted ≡ some at) ⊎ IsNoted at turns

-- The plan's time is the one before, or that of one of the turns.
abbrev Kept : ℕ → ℕ → List Turn → Type 0
Kept before at [] = at ≡ before
Kept before at (t ∷ turns) = (t.noted ≡ some at) ⊎ Kept before at turns

pub wait_pos : (interval later : ℕ) (p : Plan) → 0 < interval → 0 < wait interval later p
unfolding wait
wait_pos interval later p h = ground arith
