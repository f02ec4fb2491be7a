-- ===== src/Tray.antt =====
-- tray/state.go: the states that a tray shows, and the icon of each. A map of icons is a list of
-- bindings, the newest first, under the integers that the states are.
use sisyphus.Prelude.{
  ℕ, ◌≡◌, refl, String, Bool, not, Option, none, some, List, [], ◌∷◌, arith, ◌==◌, if◌then◌else◌,
  filter, is_some, length,
}

abbrev pub State : Type 0
State = ℕ

abbrev pub state_inactive : State
state_inactive = 0

abbrev pub state_running : State
state_running = 1

abbrev pub state_notify : State
state_notify = 2

abbrev pub state_warn : State
state_warn = 3

abbrev pub state_error : State
state_error = 4

unfoldable pub states : List State
states = state_inactive ∷ state_running ∷ state_notify ∷ state_warn ∷ state_error ∷ []

unfoldable pub string : State → String
string s =
    if s == state_inactive
    then "inactive"
    else if s == state_running
    then "running"
    else if s == state_notify
    then "notify"
    else if s == state_warn
    then "warn"
    else if s == state_error
    then "error"
    else "unknown"

pub record Asset : Type 0 where
  pub name : String
  pub mime : String
  pub bytes : String

abbrev pub Icons : Type 0
Icons = List (State × Asset)

unfoldable pub new_icons : Icons
new_icons = []

unfoldable pub set : State → Asset → Icons → Icons
set s a m = (s, a) ∷ m

unfoldable pub get : State → Icons → Option Asset
get s [] = none
get s ((t, a) ∷ m) = let rest = get s m in if t == s then some a else rest

unfoldable pub missing : Icons → List State
unfolding states get
missing m = filter (λ s. not (is_some (get s m))) states

unfoldable pub complete : Icons → Bool
unfolding missing
complete m = length (missing m) == 0

-- The icon that was set is the one that is read, and the other states keep theirs.
pub get-set :
    (s t : State) (a : Asset) (m : Icons) → get t (set s a m) ≡ (if s == t then some a else get t m)
unfolding get set
get-set s t a m = refl

missing-set_from :
    (s : State) (a : Asset) (m : Icons) (ts : List State)
    → filter (λ t. not (is_some (get t (set s a m)))) ts
      ≡ filter (λ t. not (s == t)) (filter (λ t. not (is_some (get t m))) ts)
unfolding get set
missing-set_from s a m [] = refl
missing-set_from s a m (t ∷ ts) = ground (arith, missing-set_from s a m ts)

-- Setting an icon takes its state, and no other, off the states that have none.
pub missing-set :
    (s : State) (a : Asset) (m : Icons)
    → missing (set s a m) ≡ filter (λ t. not (s == t)) (missing m)
unfolding missing
missing-set s a m = missing-set_from s a m states
