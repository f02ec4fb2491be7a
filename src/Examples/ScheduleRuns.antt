-- ===== src/Examples/ScheduleRuns.antt =====
-- schedule/schedule.go with two jobs, one of which fails.
use sisyphus.Prelude.{ℕ, ◌≡◌, refl, true, false, none, some, List, [], ◌∷◌}
use sisyphus.Prelude.Int.{pos, negsuc}
use sisyphus.Fault.{other, ok}
use sisyphus.Schedule.{
  Job, ScheduleState, Answer, Slot, Tick, visits, wait, run, schedule_backoff, no_plan,
}
use sisyphus.Schedule.Backoff.{schedule_backoff_closed}
use sisyphus.Schedule.Rounds.{IsSound, run-IsSound}

abbrev job : Job
job = record { name = "poll"; has_next = true; has_run = true; has_on_error = false }

abbrev fresh : ScheduleState
fresh = record { fails = 0; at = 0 }

abbrev failed : Answer
failed = record {
  due = ok 90;
  done_after_next = false;
  ran = some (other 1);
  done_after_run = false;
}

abbrev later_today : Answer
later_today = record { due = ok 150; done_after_next = false; ran = none; done_after_run = false }

abbrev slots : List Slot
slots = record { job = job; state = fresh } ∷ record { job = job; state = fresh } ∷ []

third_failure : schedule_backoff (pos 1_000_000_000) 3 ≡ 4_000_000_000
unfolding schedule_backoff
third_failure = refl

many_failures : schedule_backoff (negsuc 4) 64 ≡ 300_000_000_000
unfolding schedule_backoff
many_failures = refl

schedule_backoff_closed_example : schedule_backoff (pos 1_000_000_000) 3 ≡ 4_000_000_000
schedule_backoff_closed_example = schedule_backoff_closed (pos 1_000_000_000) 3

abbrev ticks : List Tick
ticks =
    record {
      done_before = false;
      now = 100;
      answers = failed ∷ later_today ∷ [];
      later = 105;
      done_waiting = false;
    }
    ∷ record {
      done_before = false;
      now = 140;
      answers = failed ∷ later_today ∷ [];
      later = 141;
      done_waiting = true;
    }
    ∷ []

two_waits : (run (pos 40) (job ∷ job ∷ []) ticks).waits ≡ 35 ∷ 9 ∷ []
unfolding run
two_waits = refl

run-IsSound_example : IsSound 2 (run (pos 40) (job ∷ job ∷ []) ticks)
run-IsSound_example = run-IsSound (pos 40) (job ∷ job ∷ []) ticks

-- One job is due at 101 and one at 110, and the round ends at 105: Run sleeps until 145.
abbrev due_at : ℕ → Answer
due_at at = record { due = ok at; done_after_next = false; ran = none; done_after_run = false }

sleeps_past_the_second :
    wait 40 105 (visits 40 100 no_plan slots (due_at 101 ∷ due_at 110 ∷ [])).plan ≡ 40
unfolding visits wait
sleeps_past_the_second = refl
