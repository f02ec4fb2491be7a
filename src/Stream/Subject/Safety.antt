-- ===== src/Stream/Subject/Safety.antt =====
-- What holds of a Subject of stream/subject.go whatever its goroutine takes.
use sisyphus.Prelude.{
  ℕ, ◌+◌, ◌≤◌, ◌≡◌, refl, Bool, true, false, ◌&&◌, List, [], ◌∷◌, ◌++◌, arith, ltb, ◌==◌, length,
  length-append, if◌then◌else◌, All, All-append, All-if, All-imp, All-map, Bool-cases, inl, inr,
  map, filter, ap, ltb→lt,
}
use sisyphus.Stream.Subject.{
  Channel, Command, subscribe, unsubscribe, next, receive, close, Subject, new_subject, closed,
  offer, received_from, at, step, run,
}
use sisyphus.Stream.Subject.Places.{channels, holds, subscribed, holds-run, without-none}

module _ {T : Type 0} where
  -- Closed so often, and no more in the buffer than it holds.
  abbrev pub Keeps : ℕ → Channel T → Type 0
  Keeps n c = (c.closes ≡ n) × (c.taken ≤ length c.sent) × (length c.sent ≤ c.taken + c.buffer)

  pub record IsSafe (s : Subject T) : Type 0 where
    pub unclosed : All (Keeps 0) s.subs
    pub once : All (Keeps 1) s.shut
    pub over : s.runs ≡ false → s.subs ≡ []

  offer-Keeps :
      (n : ℕ) (v : T) (waits : ℕ → Bool) (c : Channel T) → Keeps n c → Keeps n (offer v waits c)
  unfolding offer
  offer-Keeps n v waits c h =
      let l = length-append c.sent (v ∷ []) in
      elim (Bool-cases (ltb (length c.sent) (c.taken + c.buffer))) [
        | inl e ↦
            let m = ltb→lt (length c.sent) (c.taken + c.buffer) e in
            rw e (h.0, omega arith, omega arith)
        | inr e ↦ rw e (elim (Bool-cases (waits c.id && length c.sent == c.taken)) [
          | inl q ↦ rw q (h.0, omega arith, omega arith)
          | inr q ↦ rw q h
        ])
      ]

  received_from-Keeps : (n : ℕ) (c : Channel T) → Keeps n c → Keeps n (received_from c)
  received_from-Keeps n c h = elim (Bool-cases (ltb c.taken (length c.sent))) [
    | inl e ↦ let m = ltb→lt c.taken (length c.sent) e in rw e (h.0, omega arith, omega arith)
    | inr e ↦ rw e h
  ]

  closed-Keeps : (c : Channel T) → Keeps 0 c → Keeps 1 (closed c)
  closed-Keeps c h = (omega arith, h.1, h.2)

  at-All :
      (n id : ℕ) (cs : List (Channel T)) → All (Keeps n) cs → All (Keeps n) (at id received_from cs)
  at-All n id [] h = tt
  at-All n id (c ∷ cs) h =
      All-if (Keeps n) (c.id == id) _ _ (λ e. (received_from-Keeps n c h.0, at-All n id cs h.1))
        (λ e. (h.0, at-All n id cs h.1))

  filter-All :
      (P : Channel T → Type 0) (p : Channel T → Bool) (cs : List (Channel T))
      → All P cs
      → All P (filter p cs)
  filter-All P p [] h = tt
  filter-All P p (c ∷ cs) h =
      All-if P (p c) _ _ (λ e. (h.0, filter-All P p cs h.1)) (λ e. filter-All P p cs h.1)

  shut-All :
      (cs shut : List (Channel T))
      → All (Keeps 0) cs
      → All (Keeps 1) shut
      → All (Keeps 1) (map closed cs ++ shut)
  shut-All cs shut h k =
      All-append (Keeps 1) (map closed cs) shut
        (All-map (Keeps 1) closed cs (All-imp cs closed-Keeps h)) k

  at-nil : (id : ℕ) (cs : List (Channel T)) → cs ≡ [] → at id received_from cs ≡ []
  at-nil id [] h = refl
  at-nil id (c ∷ cs) h = cc

  IsSafe-if :
      (b : Bool) (s t : Subject T)
      → (b ≡ true → IsSafe s)
      → (b ≡ false → IsSafe t)
      → IsSafe (if b then s else t)
  IsSafe-if true s t f g = f refl
  IsSafe-if false s t f g = g refl

  step-IsSafe : (c : Command T) (s : Subject T) → IsSafe s → IsSafe (step c s)
  unfolding step
  step-IsSafe (subscribe id buffer) s h =
      IsSafe-if s.runs _ _
        (λ e. record {
          unclosed = ((refl, omega arith, omega arith), h.unclosed);
          once = h.once;
          over = λ q. cc;
        })
        (λ e. record {
          unclosed = h.unclosed;
          once = ((refl, omega arith, omega arith), h.once);
          over = λ q. h.over e;
        })
  step-IsSafe (unsubscribe id) s h =
      IsSafe-if s.runs _ _
        (λ e. record {
          unclosed = filter-All (Keeps 0) _ s.subs h.unclosed;
          once = shut-All _ s.shut (filter-All (Keeps 0) _ s.subs h.unclosed) h.once;
          over = λ q. cc;
        })
        (λ e. h)
  step-IsSafe (next v waits) s h =
      IsSafe-if s.runs _ _
        (λ e. record {
          unclosed =
              All-map (Keeps 0) (offer v waits) s.subs
                (All-imp s.subs (offer-Keeps 0 v waits) h.unclosed);
          once = h.once;
          over = λ q. cc;
        })
        (λ e. h)
  step-IsSafe (receive id) s h = record {
    unclosed = at-All 0 id s.subs h.unclosed;
    once = at-All 1 id s.shut h.once;
    over = λ q. at-nil id s.subs (h.over q);
  }
  step-IsSafe close s h =
      IsSafe-if s.runs _ _
        (λ e. record {
          unclosed = tt;
          once = shut-All s.subs s.shut h.unclosed h.once;
          over = λ q. refl;
        })
        (λ e. h)

  run_from-IsSafe : (cs : List (Command T)) (s : Subject T) → IsSafe s → IsSafe (run cs s)
  unfolding run
  run_from-IsSafe [] s h = h
  run_from-IsSafe (c ∷ cs) s h = run_from-IsSafe cs (step c s) (step-IsSafe c s h)

  unsubscribed :
      (id : ℕ) (s : Subject T) → IsSafe s → channels id (step (unsubscribe id) s).subs ≡ 0
  unfolding step
  unsubscribed id s h = elim (Bool-cases s.runs) [
    | inl e ↦ rw e (without-none id s.subs)
    | inr e ↦ rw e (ap (channels id) (h.over e))
  ]

  -- Whatever a Subject is told, in any order. Every channel that was subscribed is a subscriber or is
  -- shut, as often as it was subscribed and no more, so that a channel subscribed once is not both, nor
  -- lost. No subscriber is closed, so that nothing is sent to a closed channel; every shut one is
  -- closed, exactly once. No buffer holds more than its size. After Unsubscribe the channel is no
  -- subscriber, and once the Subject is closed there are none.
  pub run-IsSafe :
      (cs : List (Command T))
      → IsSafe (run cs new_subject)
        × ((id : ℕ) → holds id (run cs new_subject) ≡ subscribed id cs)
        × ((id : ℕ) → channels id (step (unsubscribe id) (run cs new_subject)).subs ≡ 0)
  unfolding new_subject
  run-IsSafe cs =
      let safe =
        run_from-IsSafe cs new_subject (record { unclosed = tt; once = tt; over = λ q. refl }) in
      (
        safe,
        λ id. omega (arith, holds-run id cs new_subject),
        λ id. unsubscribed id (run cs new_subject) safe,
      )
