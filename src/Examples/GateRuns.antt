-- ===== src/Examples/GateRuns.antt =====
-- The gate of mode/mode.go with a hook that denies.
use sisyphus.Prelude.{◌≡◌, refl, true, none, some, [], ◌∷◌}
use sisyphus.Fault.{other}
use sisyphus.Mode.{unauthorized, authorized, block, Hook, GateHooks, supported, gate}
use sisyphus.Mode.Gate.{gate_error, gate_authorized}

abbrev hooks : GateHooks
hooks = record {
  classify = some unauthorized;
  cli_unauthenticated = none;
  cli_unauthorized = some (some (other 1));
  unauthorized_policy = block;
  serve_unauthorized = some none;
  daemon_unauthorized = none;
  deck_require = none;
}

gate_error_example : (gate true "cli" hooks).error ≡ some (other 1)
gate_error_example = gate_error true "cli" hooks

gate_authorized_example :
    gate true "serve" (record hooks { classify = some authorized })
    ≡ record { error = none; calls = Hook.classify ∷ [] }
unfolding supported
gate_authorized_example =
    gate_authorized true "serve" (record hooks { classify = some authorized }) refl refl refl
