-- ===== src/Lifecycle.antt =====
-- The lifecycle states of a module and the table of legal transitions (internal/module/state.go).
pub mod Paths
use my_own_agent.Prelude.{◌≡◌, refl, Bool, true, false, List, [], ◌∷◌, ◌||◌, if◌then◌else◌, ◌==◌, ℕ}

-- type State int, with its iota values in `to_int`.
pub data State : Type 0 where
  registered starting running pausing paused resuming stopping stopped failed crash_looping : State
  unsupported disabled : State

abbrev pub to_int : State → ℕ
to_int registered = 0
to_int starting = 1
to_int running = 2
to_int pausing = 3
to_int paused = 4
to_int resuming = 5
to_int stopping = 6
to_int stopped = 7
to_int failed = 8
to_int crash_looping = 9
to_int unsupported = 10
to_int disabled = 11

-- `==` on State.
abbrev pub state_eq : State → State → Bool
state_eq a b = to_int a == to_int b

unfoldable pub terminal : State → Bool
terminal crash_looping = true
terminal unsupported = true
terminal disabled = true
terminal stopped = true
terminal _ = false

unfoldable pub active : State → Bool
active starting = true
active running = true
active pausing = true
active paused = true
active resuming = true
active stopping = true
active _ = false

-- The map literal, a key that it lacks giving nil.
unfoldable allowed_transitions : State → List State
allowed_transitions registered = starting ∷ disabled ∷ stopped ∷ []
allowed_transitions starting = running ∷ failed ∷ unsupported ∷ stopping ∷ []
allowed_transitions running = pausing ∷ stopping ∷ failed ∷ []
allowed_transitions pausing = paused ∷ failed ∷ stopping ∷ []
allowed_transitions paused = resuming ∷ stopping ∷ failed ∷ []
allowed_transitions resuming = running ∷ failed ∷ stopping ∷ []
allowed_transitions stopping = stopped ∷ failed ∷ []
allowed_transitions stopped = starting ∷ disabled ∷ failed ∷ []
allowed_transitions failed = starting ∷ crash_looping ∷ stopping ∷ stopped ∷ disabled ∷ []
allowed_transitions crash_looping = starting ∷ stopped ∷ disabled ∷ failed ∷ []
allowed_transitions unsupported = stopped ∷ disabled ∷ []
allowed_transitions disabled = starting ∷ stopped ∷ []

-- The loop over allowedTransitions[from].
unfoldable pub allows : List State → State → Bool
allows [] to = false
allows (s ∷ rest) to = state_eq s to || allows rest to

unfoldable pub can_transition : State → State → Bool
unfolding allows allowed_transitions
can_transition from to = if state_eq from to then true else allows (allowed_transitions from) to
