-- ===== src/Auth.antt =====
-- DeviceToken of auth/device.go. Durations are int64 nanoseconds, with their wrap-around; what the two
-- endpoints answer, and what the context says before each poll, are inputs. A trace holds what the
-- flow asks of the caller: the address it prints and opens, and its calls of Sleep.
pub mod Polls
use sisyphus.Prelude.{
  ℕ, zero, suc, ◌+◌, ◌-◌, ◌*◌, ◌/◌, ◌%◌, ◌^◌, String, Bool, true, false, ◌||◌, Option, none, some,
  List, [], ◌∷◌, str_eq, ltb, if◌then◌else◌,
}
use sisyphus.Prelude.Int.{ℤ, pos, negsuc, positive_or}
use sisyphus.Fault.{Error, Result, ok, err}

-- The int64 with the same bits.
abbrev wrap_bits : ℕ → ℤ
wrap_bits m = if ltb m (2 ^ 63) then pos m else negsuc (2 ^ 64 - 1 - m)

abbrev wrap_inverted : ℕ → ℤ
wrap_inverted m = if ltb m (2 ^ 63) then negsuc m else pos (2 ^ 64 - 1 - m)

unfoldable pub wrap64 : ℤ → ℤ
wrap64 (pos n) = wrap_bits (n % 2 ^ 64)
wrap64 (negsuc n) = wrap_inverted (n % 2 ^ 64)

abbrev pub second : ℕ
second = 10 ^ 9

-- time.Duration(n) * time.Second
unfoldable pub seconds : ℤ → ℤ
unfolding wrap64
seconds (pos n) = wrap64 (pos (n * second))
seconds (negsuc n) = wrap64 (negsuc (n * second + (second - 1)))

-- interval += 5 * time.Second
unfoldable pub slow_down : ℤ → ℤ
unfolding wrap64
slow_down (pos n) = wrap64 (pos (n + 5 * second))
slow_down (negsuc n) =
    if ltb n (5 * second) then pos (5 * second - 1 - n) else negsuc (n - 5 * second)

pub record DeviceCode : Type 0 where
  pub device_code : String
  pub user_code : String
  pub verification_uri : String
  pub verification_uri_complete : String
  pub expires_in : ℤ
  pub interval : ℤ

pub record DeviceFlowOptions : Type 0 where
  pub client_id : String
  pub code_url : String
  pub token_url : String
  pub poll_interval : ℤ

pub record Token : Type 0 where
  pub access_token : String
  pub scope : String
  pub error : String
  pub error_description : String

-- ctx.Err() before a poll, and what postFormJSON returns for it.
pub record Poll : Type 0 where
  pub context : Option Error
  pub reply : Result Token

pub data Outcome : Type 0 where
  granted : String → String → Outcome
  required_missing : Outcome
  requesting : Error → Outcome
  done : Error → Outcome
  polling : Error → Outcome
  expired : Outcome
  denied : Outcome
  refused : String → String → Outcome
  timed_out : Outcome

pub data Call : Type 0 where
  opens : String → String → Call
  sleeps : ℤ → Call

abbrev pub is_empty : String → Bool
is_empty s = str_eq s ""

abbrev pub at_least : ℕ → ℕ → ℕ
at_least least n = if ltb n least then least else n

unfoldable pub poll_interval : DeviceFlowOptions → DeviceCode → ℕ
unfolding seconds
poll_interval opts dc =
    at_least second
      (positive_or (positive_or (5 * second) (seconds dc.interval)) opts.poll_interval)

-- maxPolls, or 0 for a negative one.
abbrev pub as_count : ℤ → ℕ
as_count (pos n) = n
as_count (negsuc n) = zero

unfoldable pub max_polls : ℕ → ℤ → ℕ
unfolding wrap64
max_polls interval (pos zero) = 12
max_polls interval (pos (suc n)) =
    as_count (wrap64 (pos (suc n / at_least 1 (interval / second) + 1)))
max_polls interval (negsuc n) = 12

-- What the switch makes of a reply.
pub data Verdict : Type 0 where
  returns : Outcome → Verdict
  pending : Verdict
  slower : Verdict

unfoldable pub judge : Token → Verdict
judge t =
    if is_empty t.error
    then (if is_empty t.access_token then pending else returns (granted t.access_token t.scope))
    else if str_eq t.error "authorization_pending"
    then pending
    else if str_eq t.error "slow_down"
    then slower
    else if str_eq t.error "expired_token"
    then returns expired
    else if str_eq t.error "access_denied"
    then returns denied
    else returns (refused t.error t.error_description)

unfoldable pub judge_reply : Result Token → Verdict
unfolding judge
judge_reply (err e) = returns (polling e)
judge_reply (ok t) = judge t

abbrev pub with_call : Call → List Call × Outcome → List Call × Outcome
with_call c (calls, o) = (c ∷ calls, o)

abbrev pub after_reply : (ℤ → List Call × Outcome) → ℤ → Verdict → List Call × Outcome
after_reply rest interval (returns o) = ([], o)
after_reply rest interval pending = rest interval
after_reply rest interval slower = rest (slow_down interval)

abbrev pub unless_done : Option Error → List Call × Outcome → List Call × Outcome
unless_done none run = run
unless_done (some e) run = ([], done e)

-- The loop, for the polls that are left of maxPolls; `world` gives the answers from here on.
unfoldable pub poll_loop : ℕ → ℤ → (ℕ → Poll) → List Call × Outcome
unfolding judge_reply slow_down
poll_loop zero interval world = ([], timed_out)
poll_loop (suc n) interval world = unless_done (world 0).context (
    with_call (sleeps interval) (
      after_reply (λ i. poll_loop n i (λ k. world (suc k))) interval (judge_reply (world 0).reply)))

abbrev pub either : String → String → String
either a b = if is_empty a then b else a

abbrev pub with_code : DeviceFlowOptions → (ℕ → Poll) → Result DeviceCode → List Call × Outcome
with_code opts world (err e) = ([], requesting e)
with_code opts world (ok dc) =
    with_call (opens (either dc.verification_uri_complete dc.verification_uri) dc.user_code) (
      poll_loop (max_polls (poll_interval opts dc) dc.expires_in) (pos (poll_interval opts dc))
        world)

unfoldable pub device_token :
    DeviceFlowOptions → Result DeviceCode → (ℕ → Poll) → List Call × Outcome
unfolding poll_interval max_polls poll_loop
device_token opts code world =
    if is_empty opts.client_id || is_empty opts.code_url || is_empty opts.token_url
    then ([], required_missing)
    else with_code opts world code
