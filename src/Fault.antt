-- ===== src/Fault.antt =====
-- Go's (value, error) results, and the errors that the packages tell apart:
-- storeerr/storeerr.go, internal/duckdb/handle.go, configdb/revision.go, sealed/sealed.go,
-- mode/mode.go.
use sisyphus.Prelude.{ℕ}

pub data Error : Type 0 where
  unavailable : Error
  closed : Error
  cancelled : Error
  constraint : Error
  undecodable : Error
  locked : Error
  generation_marker : Error
  unsupported_mode : Error
  -- fs.ErrNotExist.
  missing : Error
  -- Any other error of the engine, the system or a callback, told apart by a number.
  other : ℕ → Error

pub data Result {ℓ} (A : Type ℓ) : Type ℓ where
  ok : A → Result A
  err : Error → Result A
