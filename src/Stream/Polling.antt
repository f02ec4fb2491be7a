-- ===== src/Stream/Polling.antt =====
-- Poll of stream/stream.go, PollAdaptive of stream/persist.go and Source.Run of stream/source.go. A
-- run is a list of rounds, each with what its step returned and which of two ready cases its selects
-- took; channels are the sequences of what is sent. A duration is in nanoseconds.
pub mod Cadence
pub mod FreshItems
use sisyphus.Prelude.{
  ℕ, ◌*◌, ◌^◌, String, Bool, true, false, Option, none, some, List, [], ◌∷◌, ◌++◌, if◌then◌else◌,
}
use sisyphus.Prelude.Int.{ℤ, positive_or}
use sisyphus.Fault.{Error}
use sisyphus.Stream.Store.{KvOps}
use sisyphus.Stream.Deduper.{Deduper, new_deduper, new_persistent_deduper, unseen}

-- Items or an error, never both.
pub data Emission (T : Type 0) : Type 0 where
  items : List T → Emission T
  failed : Error → Emission T

-- What a step returned; a step of Poll returns no delay.
pub record Answer (T : Type 0) : Type 0 where
  pub found : List T
  pub next : ℤ
  pub error : Option Error

-- `taken`: the send, if one is made, is received before the context is done. `ticked`: the timer
-- fires before the context is done.
pub record Round (T : Type 0) : Type 0 where
  pub answer : Answer T
  pub taken : Bool
  pub ticked : Bool

-- What the goroutine does: it sends, or it waits, for so long or for a tick.
pub data Event (T : Type 0) : Type 0 where
  sent : Emission T → Event T
  -- For the next tick of a ticker of that period, which may come at once.
  ticks : ℕ → Event T
  waits : ℕ → Event T

abbrev pub default_interval : ℕ
default_interval = 60 * 10 ^ 9

module _ {T : Type 0} where
  abbrev pub of_items : List T → Option (Emission T)
  of_items [] = none
  of_items (x ∷ xs) = some (items (x ∷ xs))

  -- What a tick has to send.
  abbrev pub emission_of : List T → Option Error → Option (Emission T)
  emission_of found none = of_items found
  emission_of found (some e) = some (failed e)

  -- The events of `send`, and whether the loop goes on.
  abbrev pub send : Bool → Option (Emission T) → List (Event T) × Bool
  send taken none = ([], true)
  send true (some e) = (sent e ∷ [], true)
  send false (some e) = ([], false)

  unfoldable pub tick : Round T → List (Event T) × Bool
  tick r = send r.taken (emission_of r.answer.found r.answer.error)

  unfoldable pub poll_from : ℕ → List (Round T) → List (Event T)
  unfolding tick
  poll_from interval [] = []
  poll_from interval (r ∷ rounds) =
      let (out, goes_on) = tick r in
      let rest = poll_from interval rounds in
      if goes_on then out ++ ticks interval ∷ (if r.ticked then rest else []) else out

  unfoldable pub poll : ℤ → List (Round T) → List (Event T)
  unfolding poll_from
  poll interval rounds = poll_from (positive_or default_interval interval) rounds

  -- `cur` is the delay that is set; a positive one that the step returns takes its place.
  unfoldable pub adaptive_from : ℕ → List (Round T) → List (Event T)
  unfolding tick
  adaptive_from cur [] = []
  adaptive_from cur (r ∷ rounds) =
      let (out, goes_on) = tick r in
      let cur' = positive_or cur r.answer.next in
      let rest = adaptive_from cur' rounds in
      if goes_on then out ++ waits cur' ∷ (if r.ticked then rest else []) else out

  unfoldable pub poll_adaptive : ℤ → List (Round T) → List (Event T)
  unfolding adaptive_from
  poll_adaptive interval rounds = adaptive_from (positive_or default_interval interval) rounds

  -- What a receiver of the channel gets.
  abbrev pub received : List (Event T) → List (Emission T)
  received [] = []
  received (sent e ∷ events) = e ∷ received events
  received (ticks d ∷ events) = received events
  received (waits d ∷ events) = received events

  -- continue, or the send.
  abbrev pub forwarded :
      (List Bool → List (Emission T)) → Option (Emission T) → List Bool → List (Emission T)
  forwarded rest none taken = rest taken
  forwarded rest (some e) [] = []
  forwarded rest (some e) (false ∷ taken) = []
  forwarded rest (some e) (true ∷ taken) = e ∷ rest taken

-- The fields of Source that its loop looks at: Namespace with KV, and whether StepAdaptive is set. A
-- step that runs into StepTimeout shows in what it returned.
pub record Source : Type 0 where
  pub interval : ℤ
  pub adaptive : Bool
  pub store : Option String

-- Source.poll.
module _ {T : Type 0} where
  unfoldable pub polled : Source → List (Round T) → List (Event T)
  unfolding poll poll_adaptive
  polled src rounds =
      if src.adaptive then poll_adaptive src.interval rounds else poll src.interval rounds

module _ {S : Type 0} (kv : KvOps S) where
  -- s.deduper, with NewPersistentDeduper where there is a KV.
  unfoldable pub deduper : Option String → S → Deduper × S
  unfolding new_deduper new_persistent_deduper
  deduper none s = (new_deduper, s)
  deduper (some ns) s = new_persistent_deduper kv ns s

  -- The deduper is made at the first emission without an error.
  abbrev pub deduper_or : Option String → Option Deduper → S → Deduper × S
  deduper_or ns none s = deduper ns s
  deduper_or ns (some d) s = (d, s)

module _ {S : Type 0} (kv : KvOps S) {T : Type 0} where
  -- One emission through the pipeline: what it has to send, the deduper and the store.
  unfoldable pub pass :
      (T → String)
      → Option String
      → Option Deduper
      → S
      → Emission T
      → Option (Emission T) × Option Deduper × S
  unfolding unseen deduper
  pass key ns d s (failed e) = (some (failed e), d, s)
  pass key ns d s (items xs) =
      let (d', s') = deduper_or kv ns d s in
      let (out, d'', s'') = unseen kv key d' xs s' in (of_items out, some d'', s'')

  -- The goroutine of Run, over what it receives; `taken` says of each send whether it is received
  -- before the context is done.
  unfoldable pub run_from :
      (T → String)
      → Option String
      → Option Deduper
      → S
      → List (Emission T)
      → List Bool
      → List (Emission T)
  unfolding pass
  run_from key ns d s [] taken = []
  run_from key ns d s (e ∷ ems) taken =
      let (out, d', s') = pass key ns d s e in forwarded (run_from key ns d' s' ems) out taken

  abbrev pub deduped :
      Source → Option (T → String) → S → List (Emission T) → List Bool → List (Emission T)
  deduped src none s ems taken = ems
  deduped src (some key) s ems taken = run_from key src.store none s ems taken

  -- Source.Run; `none` is a nil Key.
  unfoldable pub run_source :
      Source → Option (T → String) → S → List (Round T) → List Bool → List (Emission T)
  unfolding polled run_from
  run_source src key s rounds taken = deduped src key s (received (polled src rounds)) taken
