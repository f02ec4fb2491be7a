-- ===== src/Examples/JournalRuns.antt =====
-- journal/journal.go on a run, its child and a later run, with three records.
use sisyphus.Prelude.{none, ℕ, ◌≡◌, refl, [], ◌∷◌}
use sisyphus.Prelude.Int.{pos}
use sisyphus.Fault.{ok}
use sisyphus.Engine.{Db}
use sisyphus.Engine.Atomic.{IsAtomic}
use sisyphus.Kv.{null_time}
use sisyphus.Journal.{Tables, Run, Record, add}
use sisyphus.Journal.Retention.{retain}
use sisyphus.Journal.Queries.{records_of}
use sisyphus.Journal.Cascade.{added, add-IsAtomic}
use sisyphus.Journal.Owners.{IsOwned}
use sisyphus.Journal.Evictions.{retained, retain-IsAtomic}

abbrev sync : Run
sync = record {
  id = 0;
  parent_id = 0;
  kind = "sync";
  name = "all";
  started = 5;
  finished = 6;
  count = 1;
  error = "";
  attrs = "";
}

abbrev note : ℕ → Record
note ts = record { ts = ts; attrs = "" }

abbrev empty : Db Tables
empty = record {
  table = record {
    runs = [];
    records = [];
    next_run = 1;
    records_compact = none;
    runs_compact = none;
  };
  faults = [];
}

abbrev parent : Db Tables
parent = (add sync (note 1 ∷ []) empty).1

abbrev nested : Db Tables
nested = (add (record sync { parent_id = 1; count = 4 }) (note 2 ∷ note 3 ∷ []) parent).1

abbrev calm : Db Tables
calm = (add (record sync { started = 9 }) (note 4 ∷ []) nested).1

second_id : (add sync [] parent).0 ≡ ok 2
unfolding add
second_id = refl

only_the_newest : (retain (pos 1) calm).0 ≡ ok 1
unfolding add retain
only_the_newest = refl

left_of_retain : (records_of 2 (retain (pos 1) calm).1).0 ≡ ok []
unfolding add retain records_of
left_of_retain = refl

newest_record : (records_of 2 calm).0 ≡ ok (note 3 ∷ note 2 ∷ [])
unfolding add records_of null_time
newest_record = refl

calm-IsOwned : IsOwned calm.table
unfolding add
calm-IsOwned = (refl, (refl, (refl, (refl, tt))))

add-IsAtomic_example : IsAtomic (add sync (note 1 ∷ [])) (added sync (note 1 ∷ []))
add-IsAtomic_example = add-IsAtomic sync (note 1 ∷ [])

retain-IsAtomic_example : IsAtomic (retain (pos 1)) (retained (pos 1))
retain-IsAtomic_example = retain-IsAtomic (pos 1)
