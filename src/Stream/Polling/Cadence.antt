-- ===== src/Stream/Polling/Cadence.antt =====
-- How Poll and PollAdaptive of stream/ keep time.
use sisyphus.Prelude.{
  ℕ, zero, suc, ◌<◌, ◌≡◌, refl, ap, Bool, true, false, none, some, List, [], ◌∷◌, ◌++◌, arith,
  if◌then◌else◌, Option,
}
use sisyphus.Prelude.Int.{ℤ, pos, negsuc, positive_or}
use sisyphus.Stream.Polling.{
  Emission, Round, Event, sent, ticks, waits, tick, send, emission_of, poll, poll_from,
  poll_adaptive, adaptive_from, received, default_interval,
}

positive_or-pos : (d : ℕ) (z : ℤ) → 0 < d → 0 < positive_or d z
positive_or-pos d (pos zero) h = h
positive_or-pos d (pos (suc n)) h = omega arith
positive_or-pos d (negsuc n) h = h

module _ {T : Type 0} where
  received-append : (xs ys : List (Event T)) → received (xs ++ ys) ≡ received xs ++ received ys
  received-append [] ys = refl
  received-append (sent e ∷ xs) ys = ap (λ l. e ∷ l) (received-append xs ys)
  received-append (ticks d ∷ xs) ys = received-append xs ys
  received-append (waits d ∷ xs) ys = received-append xs ys

  -- One turn of either loop: what is received does not turn on the delay.
  turn-received :
      (out xs ys : List (Event T)) (go ticked : Bool) (d d' : ℕ)
      → received xs ≡ received ys
      → received (if go then out ++ waits d ∷ (if ticked then xs else []) else out)
        ≡ received (if go then out ++ ticks d' ∷ (if ticked then ys else []) else out)
  turn-received out xs ys false ticked d d' h = refl
  turn-received out xs ys true true d d' h =
      cc (received-append out (waits d ∷ xs), received-append out (ticks d' ∷ ys), h)
  turn-received out xs ys true false d d' h =
      cc (received-append out (waits d ∷ []), received-append out (ticks d' ∷ []))

  received-adaptive_from :
      (rounds : List (Round T)) (d cur : ℕ)
      → received (adaptive_from cur rounds) ≡ received (poll_from d rounds)
  unfolding adaptive_from poll_from
  received-adaptive_from [] d cur = refl
  received-adaptive_from (r ∷ rounds) d cur =
      turn-received (tick r).0 _ _ (tick r).1 r.ticked (positive_or cur r.answer.next) d
        (received-adaptive_from rounds d (positive_or cur r.answer.next))

  -- The waits of a run are all longer than nothing.
  abbrev pub WaitsPositive : List (Event T) → Type 0
  WaitsPositive [] = Unit {0}
  WaitsPositive (sent e ∷ events) = WaitsPositive events
  WaitsPositive (ticks d ∷ events) = (0 < d) × WaitsPositive events
  WaitsPositive (waits d ∷ events) = (0 < d) × WaitsPositive events

  WaitsPositive-append :
      (xs ys : List (Event T)) → WaitsPositive xs → WaitsPositive ys → WaitsPositive (xs ++ ys)
  WaitsPositive-append [] ys h k = k
  WaitsPositive-append (sent e ∷ xs) ys h k = WaitsPositive-append xs ys h k
  WaitsPositive-append (ticks d ∷ xs) ys h k = (h.0, WaitsPositive-append xs ys h.1 k)
  WaitsPositive-append (waits d ∷ xs) ys h k = (h.0, WaitsPositive-append xs ys h.1 k)

  send-WaitsPositive : (taken : Bool) (e : Option (Emission T)) → WaitsPositive (send taken e).0
  send-WaitsPositive taken none = tt
  send-WaitsPositive true (some e) = tt
  send-WaitsPositive false (some e) = tt

  turn-WaitsPositive :
      (out xs : List (Event T)) (go ticked : Bool) (d : ℕ)
      → WaitsPositive out
      → WaitsPositive xs
      → 0 < d
      → WaitsPositive (if go then out ++ waits d ∷ (if ticked then xs else []) else out)
  turn-WaitsPositive out xs false ticked d h k p = h
  turn-WaitsPositive out xs true true d h k p = WaitsPositive-append out (waits d ∷ xs) h (p, k)
  turn-WaitsPositive out xs true false d h k p = WaitsPositive-append out (waits d ∷ []) h (p, tt)

  adaptive_from-WaitsPositive :
      (rounds : List (Round T)) (cur : ℕ) → 0 < cur → WaitsPositive (adaptive_from cur rounds)
  unfolding adaptive_from
  adaptive_from-WaitsPositive [] cur p = tt
  adaptive_from-WaitsPositive (r ∷ rounds) cur p =
      let q = positive_or-pos cur r.answer.next p in
      turn-WaitsPositive (tick r).0 _ (tick r).1 r.ticked (positive_or cur r.answer.next)
        (send-WaitsPositive r.taken (emission_of r.answer.found r.answer.error))
        (adaptive_from-WaitsPositive rounds (positive_or cur r.answer.next) q) q

  -- PollAdaptive, whatever delays its steps return and for an interval of any sign, emits what Poll
  -- does, and every wait of its is longer than nothing.
  pub poll_adaptive-poll :
      (interval : ℤ) (rounds : List (Round T))
      → (received (poll_adaptive interval rounds) ≡ received (poll interval rounds))
        × WaitsPositive (poll_adaptive interval rounds)
  unfolding poll_adaptive poll
  poll_adaptive-poll interval rounds = (
    received-adaptive_from rounds _ _,
    adaptive_from-WaitsPositive rounds _ (positive_or-pos default_interval interval (omega arith)),
  )
