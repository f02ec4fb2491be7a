-- ===== src/Examples/DeviceRuns.antt =====
-- auth/device.go on an endpoint that says to slow down and then grants, and on one that never answers
-- in time.
use sisyphus.Prelude.{ℕ, zero, suc, ◌*◌, ◌≤◌, ◌≡◌, refl, String, none, [], ◌∷◌, arith, length}
use sisyphus.Prelude.Int.{pos}
use sisyphus.Fault.{ok}
use sisyphus.Auth.{
  second, DeviceCode, DeviceFlowOptions, Token, Poll, granted, opens, sleeps, poll_loop,
  device_token,
}
use sisyphus.Auth.Polls.{Decided, total, poll_loop-Decided, device_token_lasts}

abbrev token : String → String → Token
token access error = record {
  access_token = access;
  scope = "repo";
  error = error;
  error_description = "";
}

abbrev reply : Token → Poll
reply t = record { context = none; reply = ok t }

abbrev granting : ℕ → Poll
granting zero = reply (token "" "slow_down")
granting (suc k) = reply (token "gho" "")

abbrev silent : ℕ → Poll
silent k = reply (token "" "authorization_pending")

abbrev options : DeviceFlowOptions
options = record { client_id = "app"; code_url = "c"; token_url = "t"; poll_interval = pos 0 }

abbrev code : DeviceCode
code = record {
  device_code = "d";
  user_code = "WXYZ";
  verification_uri = "u";
  verification_uri_complete = "";
  expires_in = pos 20;
  interval = pos 10;
}

granted_run : device_token options (ok code) granting ≡ (
  opens "u" "WXYZ" ∷ sleeps (pos (10 * second)) ∷ sleeps (pos (15 * second)) ∷ [],
  granted "gho" "repo",
)
unfolding device_token
granted_run = refl

poll_loop-Decided_example :
    Decided 3 granting (poll_loop 3 (pos second) granting).1
    × (length (poll_loop 3 (pos second) granting).0 ≤ 3)
poll_loop-Decided_example = poll_loop-Decided 3 (pos second) granting

device_token_lasts_example : 20 * second ≤ total (device_token options (ok code) silent).0
unfolding device_token
device_token_lasts_example = device_token_lasts options code silent 19 refl (omega arith) refl
