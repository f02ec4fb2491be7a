-- ===== src/Examples/SubjectRuns.antt =====
-- stream/subject.go with two subscribers.
use sisyphus.Prelude.{ℕ, ◌≡◌, refl, String, Bool, false, List, [], ◌∷◌, map}
use sisyphus.Prelude.Int.{pos}
use sisyphus.Stream.Subject.{Command, subscribe, unsubscribe, next, receive, new_subject, step, run}
use sisyphus.Stream.Subject.Places.{channels, holds, subscribed}
use sisyphus.Stream.Subject.Safety.{IsSafe, run-IsSafe}

abbrev nobody : ℕ → Bool
nobody id = false

-- Two subscribers, one with room for a value; two values; and one leaves.
abbrev commands : List (Command String)
commands =
    subscribe 1 (pos 1)
    ∷ subscribe 2 (pos 0)
    ∷ next "v" nobody
    ∷ next "w" nobody
    ∷ receive 1
    ∷ unsubscribe 2
    ∷ []

delivered : map (λ c. c.sent) (run commands new_subject).subs ≡ ("v" ∷ []) ∷ []
unfolding run new_subject
delivered = refl

run-IsSafe_example :
    IsSafe (run commands new_subject)
    × ((id : ℕ) → holds id (run commands new_subject) ≡ subscribed id commands)
    × ((id : ℕ) → channels id (step (unsubscribe id) (run commands new_subject)).subs ≡ 0)
run-IsSafe_example = run-IsSafe commands
