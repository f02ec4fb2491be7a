-- ===== src/Schedule/Rounds.antt =====
-- Run of schedule/schedule.go over any number of rounds, and RunAt.
use sisyphus.Prelude.{
  ℕ, suc, ◌≤◌, ◌<◌, ◌≡◌, refl, inl, inr, Bool, false, not, ◌&&◌, Option, none, some, List, [], ◌∷◌,
  arith, ap, subst, ◌∙◌, is_some, ltb, if◌then◌else◌, All, Bool-cases, length,
}
use sisyphus.Prelude.Int.{ℤ, positive_or}
use sisyphus.Fault.{Error}
use sisyphus.Schedule.{
  Job, Answer, Plan, Slot, Round, Tick, Trace, visit, visits, note, run_from, run, run_at,
  next_answer, no_plan, second, fresh_slots,
}
use sisyphus.Schedule.Backoff.{positive_or_pos}
use sisyphus.Schedule.Cycle.{wait_pos}

abbrev pub IsCapped : Slot → Type 0
IsCapped slot = slot.state.fails ≤ 64

visit-IsCapped :
    (interval now : ℕ) (slot : Slot) (ans : Answer)
    → IsCapped slot
    → (visit interval now slot.job slot.state ans).state.fails ≤ 64
unfolding visit
visit-IsCapped interval now slot ans h = ground arith

-- What one round keeps: no count of failures passes 64, every job is still there, and unless the
-- context was done each has had its turn.
pub record Kept (slots : List Slot) (r : Round) : Type 0 where
  pub capped : All IsCapped r.slots
  pub all_there : length r.slots ≡ length slots
  pub all_visited : r.done ≡ false → length r.turns ≡ length slots

pub visits-Kept :
    (interval now : ℕ) (p : Plan) (slots : List Slot) (answers : List Answer)
    → All IsCapped slots
    → Kept slots (visits interval now p slots answers)
unfolding visits
visits-Kept interval now p [] answers h = record {
  capped = tt;
  all_there = refl;
  all_visited = λ e. refl;
}
visits-Kept interval now p (slot ∷ slots) answers h =
    let turn = visit interval now slot.job slot.state (next_answer answers).0 in
    let rest = visits-Kept interval now (note now p turn.noted) slots (next_answer answers).1 h.1 in
    elim (Bool-cases turn.done) [
      | inl e ↦ rw e (record { capped = h; all_there = refl; all_visited = λ f. cc })
      | inr e ↦ rw e (record {
        capped = (visit-IsCapped interval now slot (next_answer answers).0 h.0, rest.capped);
        all_there = ap suc rest.all_there;
        all_visited = λ f. ap suc (rest.all_visited f);
      })
    ]

pub record IsSound (n : ℕ) (t : Trace) : Type 0 where
  pub capped : All IsCapped t.slots
  pub all_there : length t.slots ≡ n
  pub awake : All (λ w. 0 < w) t.waits

run_from-IsSound :
    (interval : ℕ) (slots : List Slot) (ticks : List Tick)
    → 0 < interval
    → All IsCapped slots
    → IsSound (length slots) (run_from interval slots ticks)
unfolding run_from
run_from-IsSound interval slots [] i h = record { capped = h; all_there = refl; awake = tt }
run_from-IsSound interval slots (tick ∷ ticks) i h =
    let round = visits interval tick.now no_plan slots tick.answers in
    let kept = visits-Kept interval tick.now no_plan slots tick.answers h in
    let w = wait_pos interval tick.later round.plan i in
    let rest = run_from-IsSound interval round.slots ticks i kept.capped in
    elim (Bool-cases tick.done_before) [
      | inl e ↦ rw e (record { capped = h; all_there = refl; awake = tt })
      | inr e ↦ rw e (elim (Bool-cases round.done) [
        | inl d ↦ rw d (record { capped = kept.capped; all_there = kept.all_there; awake = tt })
        | inr d ↦ rw d (elim (Bool-cases tick.done_waiting) [
          | inl x ↦
              rw x (record { capped = kept.capped; all_there = kept.all_there; awake = (w, tt) })
          | inr x ↦ rw x (record {
            capped = rest.capped;
            all_there = rest.all_there ∙ kept.all_there;
            awake = (w, rest.awake);
          })
        ])
      ])
    ]

fresh-IsCapped : (jobs : List Job) → All IsCapped (fresh_slots jobs)
fresh-IsCapped [] = tt
fresh-IsCapped (job ∷ jobs) = (omega arith, fresh-IsCapped jobs)

length-fresh : (jobs : List Job) → length (fresh_slots jobs) ≡ length jobs
length-fresh [] = refl
length-fresh (job ∷ jobs) = ap suc (length-fresh jobs)

-- Run over any jobs, whatever they answer and whenever the context is done: no count of failures
-- passes 64, no job is dropped, and every sleep is longer than nothing, for an interval of any sign.
pub run-IsSound :
    (interval : ℤ) (jobs : List Job) (ticks : List Tick)
    → IsSound (length jobs) (run interval jobs ticks)
unfolding run
run-IsSound interval jobs ticks =
    subst (λ n. IsSound n (run_from (positive_or second interval) (fresh_slots jobs) ticks))
      (length-fresh jobs)
      (run_from-IsSound (positive_or second interval) (fresh_slots jobs) ticks
        (positive_or_pos interval) (fresh-IsCapped jobs))

-- RunAt calls its function exactly if there is one, the context is not done when it would start,
-- and it is not done during the wait, which takes place only for a time that is still to come; and
-- its error is that of the call, none where there is no call.
pub run_at_calls :
    (fn : Option (Option Error)) (at now : ℕ) (done_waiting done_before : Bool)
    → ((run_at fn at now done_waiting done_before).0
        ≡ (is_some fn && not (ltb now at && done_waiting) && not done_before))
      × ((e : Option Error)
          → fn ≡ some e
          → (run_at fn at now done_waiting done_before).1
            ≡ (if (run_at fn at now done_waiting done_before).0 then e else none))
unfolding run_at
run_at_calls fn at now done_waiting done_before = (ground arith, λ e h. ground arith)
