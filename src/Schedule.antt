-- ===== src/Schedule.antt =====
-- schedule/schedule.go: periodic jobs with backoff. Times and durations are nanoseconds; 0 is Go's
-- zero time. What a job's callbacks return and whether the context is done by then is an `Answer`;
-- what one round of Run sees of the world is a `Tick`. A job's log line is a `Report`.
pub mod Backoff
pub mod Cycle
pub mod Rounds
use sisyphus.Prelude.{
  ℕ, zero, suc, ◌+◌, ◌-◌, ◌*◌, ◌%◌, ◌^◌, String, Bool, true, false, not, ◌&&◌, ◌||◌, Option, none,
  some, List, [], ◌∷◌, ◌++◌, str_eq, ltb, leb, ◌==◌, if◌then◌else◌,
}
use sisyphus.Prelude.Int.{ℤ, pos, negsuc, positive_or}
use sisyphus.Fault.{Error, Result, ok, err}

abbrev pub second : ℕ
second = 1_000_000_000

abbrev pub max_schedule_backoff : ℕ
max_schedule_backoff = 300_000_000_000

abbrev pub max_schedule_fails : ℕ
max_schedule_fails = 64

-- d *= 2 on the bits of an int64.
abbrev pub double : ℕ → ℕ
double d = (d * 2) % 2 ^ 64

-- for i := 1; i < fails && d < maxScheduleBackoff; i++, by the rounds that `i` leaves.
unfoldable pub grow : ℕ → ℕ → ℕ
grow zero d = d
grow (suc n) d = let rest = grow n (double d) in if ltb d max_schedule_backoff then rest else d

unfoldable pub backoff_from : ℕ → ℕ → ℕ
unfolding grow
backoff_from interval fails =
    let d = grow (fails - 1) interval in
    if ltb max_schedule_backoff d && ltb interval max_schedule_backoff
    then max_schedule_backoff
    else d

unfoldable pub schedule_backoff : ℤ → ℕ → ℕ
unfolding backoff_from
schedule_backoff interval fails = backoff_from (positive_or second interval) fails

-- A zero time is "none yet".
unfoldable pub earlier : ℕ → ℕ → ℕ
earlier a b = if b == 0 then a else if (a == 0) || ltb b a then b else a

pub record Job : Type 0 where
  pub name : String
  pub has_next : Bool
  pub has_run : Bool
  pub has_on_error : Bool

pub record ScheduleState : Type 0 where
  pub fails : ℕ
  pub at : ℕ

pub record Answer : Type 0 where
  -- The time that Next returns, or its error, and whether the context is done after an error.
  pub due : Result ℕ
  pub done_after_next : Bool
  pub ran : Option Error
  pub done_after_run : Bool

pub data Report : Type 0 where
  on_error : Error → ℕ → ℕ → Report
  warn : String → Error → ℕ → ℕ → Report

unfoldable pub report_schedule_error : Job → Error → ℕ → ℕ → Report
report_schedule_error job e fails retry_in =
    if job.has_on_error
    then on_error e fails retry_in
    else warn (if str_eq job.name "" then "job" else job.name) e fails retry_in

-- What a visit to one job comes to: its state, the time handed to `note`, whether Next and Run were
-- called, and the report of a failure.
pub record Turn : Type 0 where
  pub state : ScheduleState
  pub noted : Option ℕ
  pub asked : Bool
  pub ran : Bool
  pub report : Option Report
  pub done : Bool

unfoldable pub fail : ℕ → ℕ → Job → ScheduleState → Error → Bool → Turn
unfolding report_schedule_error schedule_backoff
fail interval now job st e ran =
    let fails = if ltb st.fails max_schedule_fails then st.fails + 1 else st.fails in
    let d = schedule_backoff (pos interval) fails in
    record {
      state = record { fails = fails; at = now + d };
      noted = some (now + d);
      asked = true;
      ran = ran;
      report = some (report_schedule_error job e fails d);
      done = false;
    }

abbrev pub succeed : ℕ → Bool → Turn
succeed at ran = record {
  state = record { fails = 0; at = at };
  noted = some at;
  asked = true;
  ran = ran;
  report = none;
  done = false;
}

-- ctx.Err() != nil after an error: Run returns, and the state is not used again.
abbrev pub stop : ScheduleState → Bool → Turn
stop st ran = record {
  state = st;
  noted = none;
  asked = true;
  ran = ran;
  report = none;
  done = true;
}

run_job : ℕ → ℕ → Job → ScheduleState → Answer → Option Error → Turn
unfolding fail
run_job interval now job st ans none = succeed now true
run_job interval now job st ans (some e) =
    if ans.done_after_run then stop st true else fail interval now job st e true

ask : ℕ → ℕ → Job → ScheduleState → Answer → Result ℕ → Turn
unfolding fail run_job
ask interval now job st ans (err e) =
    if ans.done_after_next then stop st false else fail interval now job st e false
ask interval now job st ans (ok due) =
    if not (due == 0) && not (ltb now due)
    then run_job interval now job st ans ans.ran
    else if due == 0
    then succeed (now + interval) false
    else succeed due false

-- The body of `for i := range jobs`.
unfoldable pub visit : ℕ → ℕ → Job → ScheduleState → Answer → Turn
unfolding ask
visit interval now job st ans =
    if not (job.has_next && job.has_run)
    then record {
      state = st;
      noted = none;
      asked = false;
      ran = false;
      report = none;
      done = false;
    }
    else if not (st.at == 0) && ltb now st.at
    then record {
      state = st;
      noted = some st.at;
      asked = false;
      ran = false;
      report = none;
      done = false;
    }
    else ask interval now job st ans ans.due

pub record Plan : Type 0 where
  pub soonest : ℕ
  pub poll_soon : Bool

unfoldable pub note : ℕ → Plan → Option ℕ → Plan
unfolding earlier
note now p none = p
note now p (some at) =
    if ltb now at
    then record p { soonest = earlier p.soonest at }
    else record p { poll_soon = true }

pub record Slot : Type 0 where
  pub job : Job
  pub state : ScheduleState

pub record Round : Type 0 where
  pub slots : List Slot
  pub turns : List Turn
  pub plan : Plan
  pub done : Bool

-- The loop over the jobs, in order; a done context ends it. An answer that is not listed is that of
-- a job with nothing scheduled.
abbrev pub unscheduled : Answer
unscheduled = record { due = ok 0; done_after_next = false; ran = none; done_after_run = false }

abbrev pub next_answer : List Answer → Answer × List Answer
next_answer [] = (unscheduled, [])
next_answer (a ∷ rest) = (a, rest)

unfoldable pub visits : ℕ → ℕ → Plan → List Slot → List Answer → Round
unfolding visit note
visits interval now p [] answers = record { slots = []; turns = []; plan = p; done = false }
visits interval now p (slot ∷ slots) answers =
    let (ans, others) = next_answer answers in
    let turn = visit interval now slot.job slot.state ans in
    let rest = visits interval now (note now p turn.noted) slots others in
    if turn.done
    then record { slots = slot ∷ slots; turns = turn ∷ []; plan = p; done = true }
    else record {
      slots = record slot { state = turn.state } ∷ rest.slots;
      turns = turn ∷ rest.turns;
      plan = rest.plan;
      done = rest.done;
    }

-- How long Run sleeps; `later` is the clock when time.Until reads it.
unfoldable pub wait : ℕ → ℕ → Plan → ℕ
wait interval later p =
    if not (p.soonest == 0)
      && ltb later p.soonest
      && (not p.poll_soon || ltb (p.soonest - later) interval)
    then p.soonest - later
    else interval

pub record Tick : Type 0 where
  pub done_before : Bool
  pub now : ℕ
  pub answers : List Answer
  pub later : ℕ
  pub done_waiting : Bool

-- What Run has done after some rounds: the states, the turns of each round and the waits; `returned`
-- says that the context ended it.
pub record Trace : Type 0 where
  pub slots : List Slot
  pub rounds : List Round
  pub waits : List ℕ
  pub returned : Bool

abbrev pub no_plan : Plan
no_plan = record { soonest = 0; poll_soon = false }

unfoldable pub run_from : ℕ → List Slot → List Tick → Trace
unfolding visits wait
run_from interval slots [] = record { slots = slots; rounds = []; waits = []; returned = false }
run_from interval slots (tick ∷ ticks) =
    let round = visits interval tick.now no_plan slots tick.answers in
    let w = wait interval tick.later round.plan in
    let rest = run_from interval round.slots ticks in
    if tick.done_before
    then record { slots = slots; rounds = []; waits = []; returned = true }
    else if round.done
    then record { slots = round.slots; rounds = round ∷ []; waits = []; returned = true }
    else if tick.done_waiting
    then record { slots = round.slots; rounds = round ∷ []; waits = w ∷ []; returned = true }
    else record {
      slots = rest.slots;
      rounds = round ∷ rest.rounds;
      waits = w ∷ rest.waits;
      returned = rest.returned;
    }

abbrev pub fresh_slots : List Job → List Slot
fresh_slots [] = []
fresh_slots (job ∷ jobs) =
    record { job = job; state = record { fails = 0; at = 0 } } ∷ fresh_slots jobs

unfoldable pub run : ℤ → List Job → List Tick → Trace
unfolding run_from
run interval jobs ticks = run_from (positive_or second interval) (fresh_slots jobs) ticks

-- RunAt: whether `fn` is nil, when to run, the clock, whether the context is done while waiting and
-- when `fn` would start, and what `fn` returns. The result: did `fn` run, and its error.
unfoldable pub run_at : Option (Option Error) → ℕ → ℕ → Bool → Bool → Bool × Option Error
run_at none at now done_waiting done_before = (false, none)
run_at (some e) at now done_waiting done_before =
    if ltb now at && done_waiting
    then (false, none)
    else if done_before
    then (false, none)
    else (true, e)
