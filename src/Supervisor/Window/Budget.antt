-- ===== src/Supervisor/Window/Budget.antt =====
-- The budget of restarts is spent by recent restarts only (internal/supervisor/backoff.go).
use my_own_agent.Prelude.{
  ℕ, ◌+◌, ◌≤◌, ◌<◌, ◌≡◌, refl, ◌↔◌, List, [], ◌∷◌, ◌++◌, length, length-append, ◌==◌, count_by, ◌-◌,
  ltb, if◌then◌else◌, arith, true, Bool-cases, inl, inr,
}
use my_own_agent.Supervisor.Window.{Window, recent, drop_old, record_restart}

-- The restarts came in the order of the clock, none of them later than `now`.
abbrev pub InOrder : ℕ → List ℕ → Type 0
InOrder now [] = Unit
InOrder now (a ∷ []) = a ≤ now
InOrder now (a ∷ b ∷ rest) = (a ≤ b) × InOrder now (b ∷ rest)

-- How many of the restarts are less than `window` nanoseconds old.
abbrev pub count_younger : ℕ → ℕ → List ℕ → ℕ
count_younger now window [] = 0
count_younger now window (event ∷ rest) =
    let more = count_younger now window rest in if ltb (now - event) window then more + 1 else more

abbrev count_recent : ℕ → ℕ → List ℕ → ℕ
count_recent now window events = count_by (recent now window) events

InOrder-tail : (now a : ℕ) (rest : List ℕ) → InOrder now (a ∷ rest) → InOrder now rest
InOrder-tail now a [] h = tt
InOrder-tail now a (b ∷ rest) h = h.1

all_recent :
    (now window a : ℕ) (rest : List ℕ)
    → InOrder now (a ∷ rest)
    → now < a + window
    → length rest ≡ count_recent now window rest
all_recent now window a [] h r = refl
all_recent now window a (b ∷ rest) h r = ground (arith, h.0, all_recent now window b rest h.1)

-- Dropping from the front until an event is recent keeps just the recent ones.
length-drop_old :
    (now window : ℕ) (events : List ℕ)
    → InOrder now events
    → length (drop_old now window events) ≡ count_recent now window events
unfolding drop_old
length-drop_old now window [] h = refl
length-drop_old now window (a ∷ rest) h = ground (
  arith,
  length-drop_old now window rest (InOrder-tail now a rest h),
  all_recent now window a rest h,
)

younger-recent :
    (now window event : ℕ) → 0 < window → ltb (now - event) window ≡ recent now window event
younger-recent now window event pos = ground arith

count_younger-recent :
    (now window : ℕ) (events : List ℕ)
    → 0 < window
    → count_younger now window events ≡ count_recent now window events
count_younger-recent now window [] pos = refl
count_younger-recent now window (event ∷ rest) pos =
    ground (arith, younger-recent now window event pos, count_younger-recent now window rest pos)

-- With a window that is not 0, and restarts in the order of the clock, none of them later than now: a
-- restart is within its budget exactly when fewer than `max` of the restarts before it are less than
-- `window` nanoseconds old; the older ones do not count.
pub record_restart_budget :
    (now : ℕ) (w : Window)
    → 0 < w.window
    → InOrder now w.events
    → ((record_restart now w).1 ≡ true) ↔ (count_younger now w.window w.events < w.max)
unfolding record_restart
record_restart_budget now w pos h = ground (
  arith,
  length-drop_old now w.window w.events h,
  length-append {0} (drop_old now w.window w.events) (now ∷ []),
  count_younger-recent now w.window w.events pos,
)

InOrder-snoc : (now : ℕ) (events : List ℕ) → InOrder now events → InOrder now (events ++ now ∷ [])
InOrder-snoc now [] h = omega arith
InOrder-snoc now (a ∷ []) h = (h, omega arith)
InOrder-snoc now (a ∷ b ∷ rest) h = (h.0, InOrder-snoc now (b ∷ rest) h.1)

InOrder-drop_old :
    (now window : ℕ) (events : List ℕ)
    → InOrder now events
    → InOrder now (drop_old now window events)
unfolding drop_old
InOrder-drop_old now window [] h = tt
InOrder-drop_old now window (a ∷ rest) h = elim (Bool-cases (recent now window a)) [
  | inl r ↦ rw r h
  | inr o ↦ rw o (InOrder-drop_old now window rest (InOrder-tail now a rest h))
]

InOrder-later :
    (now later : ℕ) (events : List ℕ) → now ≤ later → InOrder now events → InOrder later events
InOrder-later now later [] l h = tt
InOrder-later now later (a ∷ []) l h = omega (arith, h)
InOrder-later now later (a ∷ b ∷ rest) l h = (h.0, InOrder-later now later (b ∷ rest) l h.1)

-- Recording a restart keeps the events in the order of the clock, and no more than `max` of them are
-- kept while the module stays within its budget.
record_restart-InOrder :
    (now later : ℕ) (w : Window)
    → now ≤ later
    → InOrder now w.events
    → InOrder later (record_restart now w).0.events
      × ((record_restart now w).1 ≡ true → length (record_restart now w).0.events ≤ w.max)
unfolding record_restart
record_restart-InOrder now later w l h = elim (Bool-cases (w.window == 0)) [
  | inl z ↦ rw z (InOrder-later now later _ l (InOrder-snoc now w.events h), λ b. ground arith)
  | inr n ↦ rw n (
    InOrder-later now later _ l (
        InOrder-snoc now (drop_old now w.window w.events)
          (InOrder-drop_old now w.window w.events h)),
    λ b. ground arith,
  )
]
