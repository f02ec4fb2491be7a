-- ===== src/Mode/Gate.antt =====
-- The gate of mode/mode.go: where its errors come from, and whom it lets pass.
use sisyphus.Prelude.{
  String, ◌≡◌, not, ◌&&◌, Bool, true, false, ◌||◌, Option, none, some, [], ◌∷◌, arith, str_eq,
  if◌then◌else◌,
}
use sisyphus.Fault.{Error, unsupported_mode}
use sisyphus.Mode.{
  mode_serve, mode_daemon, mode_deck, AuthState, Policy, unauthenticated, undefined, unauthorized,
  authorized, warn, block, Hook, GateHooks, supported, gate,
}

-- What a call of a hook would return.
abbrev pub outcome : GateHooks → Hook → Option (Option Error)
outcome hooks Hook.classify = none
outcome hooks Hook.cli_unauthenticated = hooks.cli_unauthenticated
outcome hooks Hook.cli_unauthorized = hooks.cli_unauthorized
outcome hooks Hook.serve_unauthorized = hooks.serve_unauthorized
outcome hooks Hook.daemon_unauthorized = hooks.daemon_unauthorized
outcome hooks Hook.deck_require = hooks.deck_require

-- The hook whose error blocks a user in such a state, by mode and policy.
abbrev pub duty : String → AuthState → Policy → Option Hook
duty m state policy =
    if str_eq m "serve"
    then elim state [
      | unauthenticated ↦ some Hook.serve_unauthorized
      | unauthorized ↦ some Hook.serve_unauthorized
      | authorized ↦ none
      | undefined n ↦ some Hook.serve_unauthorized
    ]
    else if str_eq m "daemon"
    then elim state [
      | unauthenticated ↦ some Hook.daemon_unauthorized
      | unauthorized ↦ some Hook.daemon_unauthorized
      | authorized ↦ none
      | undefined n ↦ some Hook.daemon_unauthorized
    ]
    else if str_eq m "deck"
    then some Hook.deck_require
    else elim state [
      | unauthenticated ↦ some Hook.cli_unauthenticated
      | unauthorized ↦ elim policy [ warn ↦ none | block ↦ some Hook.cli_unauthorized ]
      | authorized ↦ none
      | undefined n ↦ none
    ]

-- The error of the hook that has the duty, if there is one and it is set.
abbrev pub refusal : GateHooks → Option Hook → Option Error
refusal hooks none = none
refusal hooks (some h) = elim (outcome hooks h) [ none ↦ none | some e ↦ e ]

-- That the gate is right to return this: the build has to support the mode, and then the hook that has
-- the duty has the say; with no Classify everyone passes.
abbrev pub due : Bool → String → GateHooks → Option Error
due daemon_supported m hooks =
    if (str_eq m "serve" || str_eq m "daemon") && not daemon_supported
    then some unsupported_mode
    else elim hooks.classify [
      | none ↦ none
      | some state ↦ refusal hooks (duty m state hooks.unauthorized_policy)
    ]

-- Whom the gate blocks, in every mode, state and policy, and with what: a mode that the build lacks, with
-- ErrUnsupportedMode; in serve and daemon mode all but the authorized, in deck mode everyone, with the
-- error of that mode's hook; in any other mode the unauthenticated, and under PolicyBlock the
-- unauthorized, with the error of theirs. Nobody else is blocked, nor anybody where the hook is nil or
-- succeeds.
pub gate_error :
    (d : Bool) (m : String) (hooks : GateHooks) → (gate d m hooks).error ≡ due d m hooks
unfolding gate
gate_error d m hooks = ground arith

-- PolicyWarn, the zero value, never lets the error of CLIUnauthorized block, and PolicyBlock always
-- does: for an unauthorized user in a mode that is none of serve, daemon and deck, the hook is
-- called if there is one, and its error is the gate's exactly under PolicyBlock.
pub gate_policy :
    (d : Bool) (m : String) (hooks : GateHooks)
    → str_eq m mode_serve || str_eq m mode_daemon || str_eq m mode_deck ≡ false
    → hooks.classify ≡ some unauthorized
    → (e : Option Error) → hooks.cli_unauthorized ≡ some e
    → gate d m hooks ≡ record {
      error = elim hooks.unauthorized_policy [ block ↦ e | warn ↦ none ];
      calls = Hook.classify ∷ Hook.cli_unauthorized ∷ [];
    }
unfolding gate
gate_policy d m hooks n c e h = ground arith

-- In a build without daemon support the two daemon modes fail closed: whatever the hooks, the gate
-- blocks and calls none of them. No other mode is refused so.
pub gate_fails_closed :
    (m : String) (hooks : GateHooks)
    → (supported true m ≡ true)
      × (gate false m hooks ≡ (
          if str_eq m mode_serve || str_eq m mode_daemon
          then record { error = some unsupported_mode; calls = [] }
          else gate true m hooks))
unfolding gate
gate_fails_closed m hooks = ground arith

-- Whom Classify finds authorized passes in every supported mode but the deck, and no hook is called.
pub gate_authorized :
    (d : Bool) (m : String) (hooks : GateHooks)
    → supported d m ≡ true
    → hooks.classify ≡ some authorized
    → str_eq m mode_deck ≡ false
    → gate d m hooks ≡ record { error = none; calls = Hook.classify ∷ [] }
unfolding gate
gate_authorized d m hooks s c n = ground arith
