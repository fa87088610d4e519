-- ===== src/Lifecycle/Paths.antt =====
-- What the table of legal transitions guarantees (internal/module/state.go).
use my_own_agent.Prelude.{
  ◌≡◌, refl, ◌≢◌, ◌⊎◌, inl, inr, Bool, true, false, not, List, [], ◌∷◌, arith,
}
use my_own_agent.Lifecycle.{
  State, registered, starting, running, stopping, stopped, failed, terminal, active, can_transition,
  state_eq,
}

-- From `s` on, each state of the list is entered by a legal transition.
abbrev pub Legal : State → List State → Type 0
Legal s [] = Unit
Legal s (t ∷ ts) = (can_transition s t ≡ true) × Legal t ts

-- Whether no state of the list is Running but behind a Starting.
abbrev starts_first : List State → Bool
starts_first [] = true
starts_first (starting ∷ ts) = true
starts_first (running ∷ ts) = false
starts_first (_ ∷ ts) = starts_first ts

-- The states that a module has when it is not up and no start is on its way.
abbrev is_cold : State → Bool
is_cold stopping = true
is_cold s = not (active s)

cold_edge :
    (s t : State)
    → is_cold s ≡ true
    → can_transition s t ≡ true
    → (t ≡ starting) ⊎ ((is_cold t ≡ true) × (t ≢ running))
unfolding can_transition active
cold_edge registered t c h = ground arith
cold_edge starting t c h = ground arith
cold_edge running t c h = ground arith
cold_edge _ t c h = ground arith

starts_first-cons :
    (t : State) (ts : List State)
    → t ≢ running
    → starts_first ts ≡ true
    → starts_first (t ∷ ts) ≡ true
starts_first-cons running ts n h = absurd (n refl)
starts_first-cons _ ts n h = ground arith

-- A module that is not up never gets to Running without passing Starting, where its permissions are
-- checked, whatever legal transitions it goes through.
running_needs_starting :
    (s : State) (ts : List State) → is_cold s ≡ true → Legal s ts → starts_first ts ≡ true
running_needs_starting s [] c h = refl
running_needs_starting s (t ∷ ts) c h = elim (cold_edge s t c h.0) [
  | inl e ↦ rw e
  | inr (c', n) ↦ starts_first-cons t ts n (running_needs_starting t ts c' h.1)
]

-- An active state can be stopped and can fail, and Stopping leads to Stopped: no active state is a
-- dead end.
active-can_stop :
    (s : State)
    → active s ≡ true
    → (can_transition s stopping ≡ true)
      × (can_transition s failed ≡ true)
      × (can_transition stopping stopped ≡ true)
unfolding can_transition active
active-can_stop s h = ground arith

-- A terminal state is never active, and each legal transition out of it leads to Starting or to a
-- state that is not active either.
terminal_edges :
    (s t : State)
    → terminal s ≡ true
    → can_transition s t ≡ true
    → (active s ≡ false) × ((t ≡ starting) ⊎ (active t ≡ false))
unfolding can_transition active terminal
terminal_edges s t h e = ground arith

-- The test for equality of states is exact.
pub state_eq_sound : (a b : State) → state_eq a b ≡ true → a ≡ b
state_eq_sound registered b h = ground arith
state_eq_sound starting b h = ground arith
state_eq_sound _ b h = ground arith
