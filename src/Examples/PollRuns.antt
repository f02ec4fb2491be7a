-- ===== src/Examples/PollRuns.antt =====
-- The polling loops of stream/ on three polls: two items, an error, and an item of each kind.
use sisyphus.Prelude.{◌≡◌, refl, String, true, Option, none, some, List, [], ◌∷◌}
use sisyphus.Prelude.Int.{ℤ, pos}
use sisyphus.Fault.{Error, missing}
use sisyphus.Engine.{Db}
use sisyphus.Kv.{Table}
use sisyphus.Stream.Store.{KvOps}
use sisyphus.Stream.KvStore.{kv_ops}
use sisyphus.Stream.Polling.{
  Source, Round, items, failed, received, poll, poll_adaptive, run_source,
}
use sisyphus.Stream.Polling.Cadence.{WaitsPositive, poll_adaptive-poll}

abbrev empty_kv : Db Table
empty_kv = record { table = []; faults = [] }

abbrev kv : KvOps (Db Table)
kv = kv_ops 10

abbrev round : List String → ℤ → Option Error → Round String
round found next error = record {
  answer = record { found = found; next = next; error = error };
  taken = true;
  ticked = true;
}

abbrev rounds : List (Round String)
rounds =
    round ("a" ∷ "b" ∷ []) (pos 0) none
    ∷ round [] (pos 7) (some missing)
    ∷ round ("b" ∷ "c" ∷ []) (pos 0) none
    ∷ []

abbrev source : Source
source = record { interval = pos 5; adaptive = true; store = none }

run_source_example :
    run_source kv source (some (λ k. k)) empty_kv rounds (true ∷ true ∷ true ∷ [])
    ≡ failed missing ∷ items ("c" ∷ []) ∷ []
unfolding run_source
run_source_example = refl

poll_adaptive-poll_example :
    (received (poll_adaptive (pos 5) rounds) ≡ received (poll (pos 5) rounds))
    × WaitsPositive (poll_adaptive (pos 5) rounds)
poll_adaptive-poll_example = poll_adaptive-poll (pos 5) rounds
