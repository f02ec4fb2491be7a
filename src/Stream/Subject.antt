-- ===== src/Stream/Subject.antt =====
-- Subject of stream/subject.go: the goroutine of NewSubject, by what its select takes, one after the
-- other. A channel is known by a number and keeps all that was sent on it.
pub mod Places
pub mod Safety
use sisyphus.Prelude.{
  ℕ, zero, suc, ◌+◌, ◌≤◌, ◌≡◌, refl, Bool, true, false, ◌||◌, List, [], ◌∷◌, ◌++◌, arith, tests,
  ltb, ◌==◌, length, length-append, if◌then◌else◌, All, Bool-cases, inl, inr, ◌&&◌, not, filter,
  map,
}
use sisyphus.Prelude.Int.{ℤ, pos, negsuc}

-- `taken` of what was sent has been received.
pub record Channel (T : Type 0) : Type 0 where
  pub id : ℕ
  pub buffer : ℕ
  pub sent : List T
  pub taken : ℕ
  pub closes : ℕ

-- What the goroutine takes, or a receiver does. In `next`, `waits` says of which channels a receiver
-- is waiting.
pub data Command (T : Type 0) : Type 0 where
  subscribe : ℕ → ℤ → Command T
  unsubscribe : ℕ → Command T
  next : T → (ℕ → Bool) → Command T
  receive : ℕ → Command T
  close : Command T

-- The subscribers, the channels that are closed, and whether `done` is not closed.
pub record Subject (T : Type 0) : Type 0 where
  pub subs : List (Channel T)
  pub shut : List (Channel T)
  pub runs : Bool

-- A negative buffer means 0.
abbrev pub size : ℤ → ℕ
size (pos n) = n
size (negsuc n) = 0

module _ {T : Type 0} where
  unfoldable pub new_subject : Subject T
  new_subject = record { subs = []; shut = []; runs = true }

  abbrev pub channel : ℕ → ℤ → Channel T
  channel id buffer = record { id = id; buffer = size buffer; sent = []; taken = 0; closes = 0 }

  abbrev pub closed : Channel T → Channel T
  closed c = record c { closes = suc c.closes }

  -- select { case ch <- v: default: }
  unfoldable pub offer : T → (ℕ → Bool) → Channel T → Channel T
  offer v waits c =
      if ltb (length c.sent) (c.taken + c.buffer)
      then record c { sent = c.sent ++ v ∷ [] }
      else if waits c.id && length c.sent == c.taken
      then record c { sent = c.sent ++ v ∷ []; taken = suc c.taken }
      else c

  abbrev pub received_from : Channel T → Channel T
  received_from c = if ltb c.taken (length c.sent) then record c { taken = suc c.taken } else c

  abbrev pub at : ℕ → (Channel T → Channel T) → List (Channel T) → List (Channel T)
  at id f [] = []
  at id f (c ∷ cs) = let rest = at id f cs in if c.id == id then f c ∷ rest else c ∷ rest

  abbrev pub without : ℕ → List (Channel T) → List (Channel T)
  without id cs = filter (λ c. not (c.id == id)) cs

  abbrev pub only : ℕ → List (Channel T) → List (Channel T)
  only id cs = filter (λ c. c.id == id) cs

  unfoldable pub step : Command T → Subject T → Subject T
  unfolding offer
  step (subscribe id buffer) s =
      if s.runs
      then record s { subs = channel id buffer ∷ s.subs }
      else record s { shut = closed (channel id buffer) ∷ s.shut }
  step (unsubscribe id) s =
      if s.runs
      then record s { subs = without id s.subs; shut = map closed (only id s.subs) ++ s.shut }
      else s
  step (next v waits) s = if s.runs then record s { subs = map (offer v waits) s.subs } else s
  step (receive id) s = record s {
    subs = at id received_from s.subs;
    shut = at id received_from s.shut;
  }
  step close s =
      if s.runs then record { subs = []; shut = map closed s.subs ++ s.shut; runs = false } else s

  unfoldable pub run : List (Command T) → Subject T → Subject T
  unfolding step
  run [] s = s
  run (c ∷ cs) s = run cs (step c s)
