-- ===== src/Mode.antt =====
-- mode/mode.go: operating modes and the authorization gate. A hook is the error that a call of it
-- returns, or `none` where it is nil; the gate returns its error and the hooks that it called.
pub mod Gate
use sisyphus.Prelude.{
  ℕ, String, Bool, true, false, not, ◌&&◌, ◌||◌, Option, none, some, List, [], ◌∷◌, str_eq,
  if◌then◌else◌,
}
use sisyphus.Fault.{Error, unsupported_mode}

-- A mode is a text; an application may have others.
abbrev pub mode_cli : String
mode_cli = "cli"

abbrev pub mode_serve : String
mode_serve = "serve"

abbrev pub mode_daemon : String
mode_daemon = "daemon"

abbrev pub mode_deck : String
mode_deck = "deck"

pub data AuthState : Type 0 where
  unauthenticated unauthorized authorized : AuthState
  -- Any other value of the Go integer.
  undefined : ℕ → AuthState

pub data Policy : Type 0 where
  warn block : Policy

pub data Hook : Type 0 where
  classify cli_unauthenticated cli_unauthorized serve_unauthorized daemon_unauthorized : Hook
  deck_require : Hook

pub record GateHooks : Type 0 where
  pub classify : Option AuthState
  pub cli_unauthenticated : Option (Option Error)
  pub cli_unauthorized : Option (Option Error)
  pub unauthorized_policy : Policy
  pub serve_unauthorized : Option (Option Error)
  pub daemon_unauthorized : Option (Option Error)
  pub deck_require : Option (Option Error)

pub record Verdict : Type 0 where
  pub error : Option Error
  pub calls : List Hook

-- `daemon_supported` is the constant DaemonSupported of the build.
unfoldable pub supported : Bool → String → Bool
supported daemon_supported m =
    if str_eq m mode_serve || str_eq m mode_daemon then daemon_supported else true

-- if hook != nil { return hook(ctx) }; return nil
abbrev pub run_hook : Hook → Option (Option Error) → Verdict
run_hook h none = record { error = none; calls = Hook.classify ∷ [] }
run_hook h (some e) = record { error = e; calls = Hook.classify ∷ h ∷ [] }

abbrev pub allow : Verdict
allow = record { error = none; calls = Hook.classify ∷ [] }

abbrev pub is_authorized : AuthState → Bool
is_authorized authorized = true
is_authorized _ = false

abbrev pub softened : Policy → Verdict → Verdict
softened block v = v
softened warn v = record v { error = none }

gate_cli : GateHooks → AuthState → Verdict
gate_cli hooks unauthenticated = run_hook Hook.cli_unauthenticated hooks.cli_unauthenticated
gate_cli hooks unauthorized =
    softened hooks.unauthorized_policy (run_hook Hook.cli_unauthorized hooks.cli_unauthorized)
gate_cli hooks authorized = allow
gate_cli hooks (undefined n) = allow

gate_state : String → GateHooks → AuthState → Verdict
unfolding gate_cli
gate_state m hooks state =
    if str_eq m mode_serve
    then (if is_authorized state
        then allow
        else run_hook Hook.serve_unauthorized hooks.serve_unauthorized)
    else if str_eq m mode_daemon
    then (if is_authorized state
        then allow
        else run_hook Hook.daemon_unauthorized hooks.daemon_unauthorized)
    else if str_eq m mode_deck
    then run_hook Hook.deck_require hooks.deck_require
    else gate_cli hooks state

gate_classified : String → GateHooks → Option AuthState → Verdict
unfolding gate_state
gate_classified m hooks none = record { error = none; calls = [] }
gate_classified m hooks (some state) = gate_state m hooks state

unfoldable pub gate : Bool → String → GateHooks → Verdict
unfolding gate_classified supported
gate daemon_supported m hooks =
    if not (supported daemon_supported m)
    then record { error = some unsupported_mode; calls = [] }
    else gate_classified m hooks hooks.classify
