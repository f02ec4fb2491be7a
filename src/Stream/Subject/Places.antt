-- ===== src/Stream/Subject/Places.antt =====
-- Where the channels of a Subject of stream/subject.go are: subscribed, or shut.
use sisyphus.Prelude.{
  ℕ, ◌+◌, ◌≡◌, refl, Bool, true, false, List, [], ◌∷◌, ◌++◌, arith, ◌==◌, if◌then◌else◌, Bool-cases,
  inl, inr, map, count, suc,
}
use sisyphus.Stream.Subject.{
  Channel, Command, subscribe, unsubscribe, next, receive, close, Subject, closed, offer,
  received_from, at, without, only, step, run,
}

module _ {T : Type 0} where
  -- How many of the channels have this number, in a list, and in a Subject.
  abbrev pub channels : ℕ → List (Channel T) → ℕ
  channels id cs = count (λ c. c.id == id) cs

  abbrev pub holds : ℕ → Subject T → ℕ
  holds id s = channels id s.subs + channels id s.shut

  -- How often a channel with this number was subscribed.
  abbrev pub subscribed : ℕ → List (Command T) → ℕ
  subscribed id [] = 0
  subscribed id (subscribe j buffer ∷ cs) =
      if j == id then suc (subscribed id cs) else subscribed id cs
  subscribed id (unsubscribe j ∷ cs) = subscribed id cs
  subscribed id (next v waits ∷ cs) = subscribed id cs
  subscribed id (receive j ∷ cs) = subscribed id cs
  subscribed id (close ∷ cs) = subscribed id cs

  abbrev adds : ℕ → Command T → ℕ
  adds id c = subscribed id (c ∷ [])

  channels-map :
      (id : ℕ) (f : Channel T → Channel T) (cs : List (Channel T))
      → ((c : Channel T) → (f c).id ≡ c.id)
      → channels id (map f cs) ≡ channels id cs
  channels-map id f [] h = refl
  channels-map id f (c ∷ cs) h = rw (h c) (ground (arith, channels-map id f cs h))

  channels-append :
      (id : ℕ) (xs ys : List (Channel T)) → channels id (xs ++ ys) ≡ channels id xs + channels id ys
  channels-append id [] ys = omega arith
  channels-append id (c ∷ xs) ys = ground (arith, channels-append id xs ys)

  channels-split :
      (id j : ℕ) (cs : List (Channel T))
      → channels id (without j cs) + channels id (only j cs) ≡ channels id cs
  channels-split id j [] = refl
  channels-split id j (c ∷ cs) = ground (arith, channels-split id j cs)

  received_from-id : (c : Channel T) → (received_from c).id ≡ c.id
  received_from-id c = ground arith

  channels-at :
      (id j : ℕ) (cs : List (Channel T)) → channels id (at j received_from cs) ≡ channels id cs
  channels-at id j [] = refl
  channels-at id j (c ∷ cs) = elim (Bool-cases (c.id == j)) [
    | inl e ↦ rw e (rw (received_from-id c) (ground (arith, channels-at id j cs)))
    | inr e ↦ rw e (ground (arith, channels-at id j cs))
  ]

  offer-id : (v : T) (waits : ℕ → Bool) (c : Channel T) → (offer v waits c).id ≡ c.id
  unfolding offer
  offer-id v waits c = ground arith

  holds-if :
      (id n : ℕ) (b : Bool) (s t : Subject T)
      → holds id s ≡ n
      → holds id t ≡ n
      → holds id (if b then s else t) ≡ n
  holds-if id n true s t h k = h
  holds-if id n false s t h k = k

  holds-step :
      (id : ℕ) (c : Command T) (s : Subject T) → holds id (step c s) ≡ holds id s + adds id c
  unfolding step
  holds-step id (subscribe j buffer) s = holds-if id _ s.runs _ _ (ground arith) (ground arith)
  holds-step id (unsubscribe j) s =
      holds-if id _ s.runs _ _
        (omega (
          arith,
          channels-append id (map closed (only j s.subs)) s.shut,
          channels-map id closed (only j s.subs) (λ c. refl),
          channels-split id j s.subs,
        ))
        (omega arith)
  holds-step id (next v waits) s =
      holds-if id _ s.runs _ _
        (omega (arith, channels-map id (offer v waits) s.subs (offer-id v waits))) (omega arith)
  holds-step id (receive j) s = omega (arith, channels-at id j s.subs, channels-at id j s.shut)
  holds-step id close s =
      holds-if id _ s.runs _ _
        (omega (
          arith,
          channels-append id (map closed s.subs) s.shut,
          channels-map id closed s.subs (λ c. refl),
        ))
        (omega arith)

  subscribed-cons :
      (id : ℕ) (c : Command T) (cs : List (Command T))
      → subscribed id (c ∷ cs) ≡ adds id c + subscribed id cs
  subscribed-cons id (subscribe j buffer) cs = ground arith
  subscribed-cons id (unsubscribe j) cs = omega arith
  subscribed-cons id (next v waits) cs = omega arith
  subscribed-cons id (receive j) cs = omega arith
  subscribed-cons id close cs = omega arith

  pub holds-run :
      (id : ℕ) (cs : List (Command T)) (s : Subject T)
      → holds id (run cs s) ≡ holds id s + subscribed id cs
  unfolding run
  holds-run id [] s = omega arith
  holds-run id (c ∷ cs) s =
      omega (arith, holds-run id cs (step c s), holds-step id c s, subscribed-cons id c cs)

  -- No subscriber has the number.
  pub without-none : (id : ℕ) (cs : List (Channel T)) → channels id (without id cs) ≡ 0
  without-none id [] = refl
  without-none id (c ∷ cs) = elim (Bool-cases (c.id == id)) [
    | inl e ↦ rw e (without-none id cs)
    | inr e ↦ rw e (rw e (without-none id cs))
  ]
