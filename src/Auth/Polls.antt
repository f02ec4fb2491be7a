-- ===== src/Auth/Polls.antt =====
-- How often DeviceToken of auth/device.go polls, what ends it, and how long it goes on.
use native.Mathlib.Nat.{
  mod-eq_of_lt, mul-le-mul_left, mul-le-mul_right, div-lt_iff_lt-mul, div-le_self, mul_assoc,
}
use sisyphus.Prelude.{
  ℕ, zero, suc, ◌+◌, ◌*◌, ◌/◌, ◌^◌, ◌≤◌, ◌<◌, ◌≡◌, refl, sym, ap, ◌∙◌, ◌⊎◌, ◌≢◌, inl, inr, ◌||◌,
  Bool, true, false, Option, none, some, List, [], ◌∷◌, arith, str_eq, ltb, lt→ltb, tests, length,
  if◌then◌else◌, Bool-cases,
}
use sisyphus.Prelude.Int.{ℤ, pos, negsuc, positive_or}
use sisyphus.Fault.{Error, Result, ok, err}
use sisyphus.Auth.{
  wrap64, second, seconds, slow_down, DeviceCode, DeviceFlowOptions, Token, Poll, Outcome,
  timed_out, done, Call, opens, sleeps, is_empty, poll_interval, max_polls, Verdict,
  required_missing, returns, pending, slower, judge, judge_reply, with_call, after_reply,
  unless_done, poll_loop, device_token, at_least,
}

-- What one poll makes of the flow: an outcome, or nothing.
abbrev pub decided_by : Verdict → Option Outcome
decided_by (returns o) = some o
decided_by pending = none
decided_by slower = none

abbrev pub decision_of : Option Error → Verdict → Option Outcome
decision_of (some e) v = some (done e)
decision_of none v = decided_by v

abbrev pub decision : Poll → Option Outcome
decision p = decision_of p.context (judge_reply p.reply)

-- The outcome is that of the first of n polls that decides, or no poll does and it is a time-out.
abbrev pub Decided : ℕ → (ℕ → Poll) → Outcome → Type 0
Decided n world o =
    ((k : ℕ) × (k < n)
      × (decision (world k) ≡ some o)
      × ((j : ℕ) → j < k → decision (world j) ≡ none))
    ⊎ (((j : ℕ) → j < n → decision (world j) ≡ none) × (o ≡ timed_out))

Decided-now :
    (n : ℕ) (world : ℕ → Poll) (o : Outcome) → decision (world 0) ≡ some o → Decided (suc n) world o
Decided-now n world o h = inl (0, omega arith, h, λ j l. absurd (omega arith))

Decided-later :
    (n : ℕ) (world : ℕ → Poll) (o : Outcome)
    → decision (world 0) ≡ none
    → Decided n (λ k. world (suc k)) o
    → Decided (suc n) world o
Decided-later n world o h (inl (k, l, e, f)) = inl (suc k, omega arith, e, before)
  where
    before : (j : ℕ) → j < suc k → decision (world j) ≡ none
    before zero m = h
    before (suc j) m = f j (omega arith)
Decided-later n world o h (inr (f, e)) = inr (all, e)
  where
    all : (j : ℕ) → j < suc n → decision (world j) ≡ none
    all zero m = h
    all (suc j) m = f j (omega arith)

turn-Decided :
    (n : ℕ) (interval : ℤ) (world : ℕ → Poll) (later : ℤ → List Call × Outcome)
    → ((d : ℤ) → Decided n (λ k. world (suc k)) (later d).1 × (length (later d).0 ≤ n))
    → (c : Option Error) (v : Verdict) → decision (world 0) ≡ decision_of c v
    → let run = unless_done c (with_call (sleeps interval) (after_reply later interval v)) in
      Decided (suc n) world run.1 × (length run.0 ≤ suc n)
turn-Decided n interval world later f (some e) v h = (Decided-now n world (done e) h, omega arith)
turn-Decided n interval world later f none (returns o) h = (Decided-now n world o h, omega arith)
turn-Decided n interval world later f none pending h =
    let (d, l) = f interval in (Decided-later n world _ h d, omega arith)
turn-Decided n interval world later f none slower h =
    let (d, l) = f (slow_down interval) in (Decided-later n world _ h d, omega arith)

-- The loop, however its interval grows, sleeps at most as often as maxPolls says, and returns what the
-- first deciding poll among so many says: the context's error, that of the request, or what the reply
-- stands for. Where none of them decides it times out.
pub poll_loop-Decided :
    (n : ℕ) (interval : ℤ) (world : ℕ → Poll)
    → Decided n world (poll_loop n interval world).1 × (length (poll_loop n interval world).0 ≤ n)
unfolding poll_loop
poll_loop-Decided zero interval world = (inr (λ j l. absurd (omega arith), refl), omega arith)
poll_loop-Decided (suc n) interval world =
    turn-Decided n interval world (λ d. poll_loop n d (λ k. world (suc k)))
      (λ d. poll_loop-Decided n d (λ k. world (suc k))) (world 0).context
      (judge_reply (world 0).reply) refl

wrap64_small : (n : ℕ) → n < 2 ^ 63 → wrap64 (pos n) ≡ pos n
unfolding wrap64
wrap64_small n h =
    rw (mod-eq_of_lt {n = n} {m = 2 ^ 64} (omega arith)) (rw (lt→ltb n (2 ^ 63) h) refl)

slow_down_small : (i : ℕ) → i + 5 * second < 2 ^ 63 → slow_down (pos i) ≡ pos (i + 5 * second)
unfolding slow_down
slow_down_small i h = wrap64_small (i + 5 * second) h

-- All that is slept, where no duration is negative.
abbrev pub total : List Call → ℕ
total [] = 0
total (opens uri code ∷ calls) = total calls
total (sleeps (pos d) ∷ calls) = d + total calls
total (sleeps (negsuc d) ∷ calls) = total calls

abbrev InTime : Verdict → Type 0
InTime (returns o) = o ≢ timed_out
InTime pending = Unit {0}
InTime slower = Unit {0}

InTime-if : (b : Bool) (v w : Verdict) → InTime v → InTime w → InTime (if b then v else w)
InTime-if true v w h k = h
InTime-if false v w h k = k

judge_reply-InTime : (r : Result Token) → InTime (judge_reply r)
unfolding judge_reply judge
judge_reply-InTime (err e) = λ h. cc
judge_reply-InTime (ok t) =
    InTime-if (is_empty t.error) _ _ (InTime-if (is_empty t.access_token) _ _ tt (λ h. cc)) (
      InTime-if (str_eq t.error "authorization_pending") _ _ tt (
        InTime-if (str_eq t.error "slow_down") _ _ tt (
          InTime-if (str_eq t.error "expired_token") _ _ (λ h. cc)
            (InTime-if (str_eq t.error "access_denied") _ _ (λ h. cc) (λ h. cc)))))

turn-total :
    (n i : ℕ) (later : ℤ → List Call × Outcome)
    → i + suc n * (5 * second) < 2 ^ 63
    → ((d : ℕ)
        → d + n * (5 * second) < 2 ^ 63
        → (later (pos d)).1 ≡ timed_out
        → n * d ≤ total (later (pos d)).0)
    → (c : Option Error) (v : Verdict) → InTime v
    → (unless_done c (with_call (sleeps (pos i)) (after_reply later (pos i) v))).1 ≡ timed_out
    → suc n * i ≤ total (unless_done c (with_call (sleeps (pos i)) (after_reply later (pos i) v))).0
turn-total n i later room f (some e) v t h = cc
turn-total n i later room f none (returns o) t h = absurd (t h)
turn-total n i later room f none pending t h = let l = f i (omega arith) h in omega arith
turn-total n i later room f none slower t h =
    let e = slow_down_small i (omega arith) in
    let l = f (i + 5 * second) (omega arith) (ap (λ d. (later d).1) (sym e) ∙ h) in
    let m = mul-le-mul_left {m = i} {n = i + 5 * second} n (omega arith) in rw e (omega arith)

poll_loop-total :
    (n i : ℕ) (world : ℕ → Poll)
    → i + n * (5 * second) < 2 ^ 63
    → (poll_loop n (pos i) world).1 ≡ timed_out
    → n * i ≤ total (poll_loop n (pos i) world).0
unfolding poll_loop
poll_loop-total zero i world room h = omega arith
poll_loop-total (suc n) i world room h =
    turn-total n i (λ d. poll_loop n d (λ k. world (suc k))) room
      (λ d. poll_loop-total n d (λ k. world (suc k))) (world 0).context
      (judge_reply (world 0).reply) (judge_reply-InTime (world 0).reply) h

at_least-le : (least n : ℕ) → least ≤ at_least least n
at_least-le least n = grind (arith, tests)

max_polls_small :
    (interval n : ℕ)
    → n + 2 < 2 ^ 63
    → max_polls interval (pos (suc n)) ≡ suc n / at_least 1 (interval / second) + 1
unfolding max_polls
max_polls_small interval n h =
    rw
      (wrap64_small (suc n / at_least 1 (interval / second) + 1)
        (let l = div-le_self (suc n) (at_least 1 (interval / second)) in omega arith))
      refl

covered : (e s i u : ℕ) → 0 < s → s * u ≤ i → e * u ≤ (e / s + 1) * i
covered e s i u p h =
    let q = (div-lt_iff_lt-mul {k = s} {x = e} {y = e / s + 1} p).0 (omega arith) in
    let l = mul-le-mul_right {m = e} {n = (e / s + 1) * s} u (omega (arith, q)) in
    let m = mul-le-mul_left {m = s * u} {n = i} (e / s + 1) h in
    let a = mul_assoc (e / s + 1) s u in omega (arith, l, m, a)

-- maxPolls intervals are no shorter than the lifetime of the code.
polls_cover :
    (interval n : ℕ)
    → second ≤ interval
    → suc n * second ≤ (suc n / at_least 1 (interval / second) + 1) * interval
polls_cover interval n h =
    covered (suc n) (at_least 1 (interval / second)) interval second
      (omega (arith, at_least-le 1 (interval / second)))
      (elim (Bool-cases (ltb (interval / second) 1)) [
        | inl e ↦ rw e (omega arith)
        | inr e ↦ rw e (omega arith)
      ])

loop_lasts :
    (i n : ℕ) (x : ℤ) (world : ℕ → Poll)
    → x ≡ pos (suc n)
    → second ≤ i
    → i + (n + 2) * (5 * second) < 2 ^ 63
    → (poll_loop (max_polls i x) (pos i) world).1 ≡ timed_out
    → suc n * second ≤ total (poll_loop (max_polls i x) (pos i) world).0
loop_lasts i n x world q le room h =
    let e = ap (max_polls i) q ∙ max_polls_small i n (omega arith) in
    let d = div-le_self (suc n) (at_least 1 (i / second)) in
    let l = poll_loop-total (max_polls i x) i world (omega arith) h in
    let c = polls_cover i n le in let m = ap (λ k. k * i) e in omega (arith, l, c, m)

poll_interval_least : (opts : DeviceFlowOptions) (dc : DeviceCode) → second ≤ poll_interval opts dc
unfolding poll_interval
poll_interval_least opts dc =
    at_least-le second
      (positive_or (positive_or (5 * second) (seconds dc.interval)) opts.poll_interval)

guarded :
    (b : Bool) (run : List Call × Outcome) (k : ℕ)
    → (run.1 ≡ timed_out → k ≤ total run.0)
    → (if b then ([], required_missing) else run).1 ≡ timed_out
    → k ≤ total (if b then ([], required_missing) else run).0
guarded true run k f h = cc
guarded false run k f h = f h

-- A flow that times out has slept through the whole lifetime of its code, whatever interval the
-- endpoint and the options set and however often it was told to slow down. So it is where the endpoint
-- gives a lifetime, and where the interval cannot reach 2 ^ 63 nanoseconds by slowing down at every
-- poll.
pub device_token_lasts :
    (opts : DeviceFlowOptions) (dc : DeviceCode) (world : ℕ → Poll) (n : ℕ)
    → dc.expires_in ≡ pos (suc n)
    → poll_interval opts dc + (n + 2) * (5 * second) < 2 ^ 63
    → (device_token opts (ok dc) world).1 ≡ timed_out
    → suc n * second ≤ total (device_token opts (ok dc) world).0
unfolding device_token
device_token_lasts opts dc world n e room h =
    guarded (is_empty opts.client_id || is_empty opts.code_url || is_empty opts.token_url) _
      (suc n * second)
      (loop_lasts (poll_interval opts dc) n dc.expires_in world e (poll_interval_least opts dc)
        room)
      h
