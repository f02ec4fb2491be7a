-- ===== src/Examples/KvRuns.antt =====
-- kv/kv.go on a table of three rows, one of them expired at time 10.
use sisyphus.Prelude.{String, ◌≡◌, refl, Bool, none, some, [], ◌∷◌, str_eq}
use sisyphus.Fault.{other, ok, err}
use sisyphus.Engine.{Db}
use sisyphus.Engine.Atomic.{IsAtomic}
use sisyphus.Kv.{expired, Table, get, put, delete, list}
use sisyphus.Kv.Table.{view, IsKeyed}
use sisyphus.Kv.Reads.{get-view, list-view, lookup}
use sisyphus.Kv.Writes.{upsert, put-IsAtomic, put-view, delete-view}

abbrev table : Table
table =
    record { namespace = "app"; key = "a"; value = "1"; expiry = none; updated_at = 5 }
    ∷ record { namespace = "app"; key = "b"; value = "2"; expiry = some 7; updated_at = 6 }
    ∷ record { namespace = "web"; key = "a"; value = "3"; expiry = some 20; updated_at = 8 }
    ∷ []

abbrev calm : Db Table
calm = record { table = table; faults = [] }

-- The lock is taken, the first statement fails.
abbrev failing : Db Table
failing = record { table = table; faults = none ∷ none ∷ some (other 1) ∷ [] }

table-IsKeyed : IsKeyed table
table-IsKeyed = (refl, refl, (refl, refl, (refl, refl, tt)))

put_fails :
    (put 10 "app" "a" "x" 0 failing) ≡ (err (other 1), record { table = table; faults = [] })
unfolding put
put_fails = refl

get_expired : (get 10 "app" "b" calm).0 ≡ ok none
unfolding get
get_expired = refl

get-view_example : some (record { value = "1"; expiry = 0; updated = 5 }) ≡ view 10 table "app" "a"
unfolding get
get-view_example =
    get-view 10 "app" "a" calm (some (record { value = "1"; expiry = 0; updated = 5 })) refl

list_result_now :
    (list 10 "app" calm).0 ≡ ok (("a", record { value = "1"; expiry = 0; updated = 5 }) ∷ [])
unfolding list
list_result_now = refl

list-view_example :
    lookup "b" (("a", record { value = "1"; expiry = 0; updated = 5 }) ∷ [])
    ≡ view 10 table "app" "b"
list-view_example =
    list-view 10 "app" "b" calm (("a", record { value = "1"; expiry = 0; updated = 5 }) ∷ [])
      table-IsKeyed list_result_now

put-IsAtomic_example : IsAtomic (put 10 "app" "a" "x" 0) (upsert 10 "app" "a" "x" 0)
put-IsAtomic_example = put-IsAtomic 10 "app" "a" "x" 0

put-view_example :
    view 30 (put 10 "app" "a" "x" 40 calm).1.table "app" "a"
    ≡ some (record { value = "x"; expiry = 40; updated = 10 })
unfolding put expired
put-view_example = put-view 10 30 "app" "a" "x" 40 calm "app" "a" refl

delete-view_example : view 10 (delete "web" "a" calm).1.table "web" "a" ≡ none
unfolding delete
delete-view_example = delete-view 10 "web" "a" calm "web" "a" refl

-- A stand-in for the order of the two texts here.
abbrev app_first : String → String → Bool
app_first a b = str_eq a "app"
