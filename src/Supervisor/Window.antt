-- ===== src/Supervisor/Window.antt =====
-- The sliding window that detects a crash loop (internal/supervisor/backoff.go). A time.Time is the
-- number of its nanoseconds, and so is a time.Duration; Validate admits no negative window.
pub mod Budget
use my_own_agent.Prelude.{
  ℕ, zero, suc, ◌+◌, ◌-◌, Bool, List, [], ◌∷◌, ◌++◌, length, ltb, leb, ◌==◌, if◌then◌else◌,
}

-- restartWindow
pub record Window : Type 0 where
  pub max : ℕ
  pub window : ℕ
  pub events : List ℕ

-- newRestartWindow
abbrev pub new_window : ℕ → ℕ → Window
new_window max window = record { max = max; window = window; events = [] }

-- events[i].After(now.Add(-window)), with no subtraction.
abbrev pub recent : ℕ → ℕ → ℕ → Bool
recent now window event = ltb now (event + window)

-- The loop of prune: it drops events until one is recent.
unfoldable pub drop_old : ℕ → ℕ → List ℕ → List ℕ
drop_old now window [] = []
drop_old now window (event ∷ rest) =
    let dropped = drop_old now window rest in
    if recent now window event then event ∷ rest else dropped

-- (*restartWindow).prune
unfoldable prune : ℕ → Window → Window
unfolding drop_old
prune now w = if w.window == 0 then w else record w { events = drop_old now w.window w.events }

-- (*restartWindow).record
unfoldable pub record_restart : ℕ → Window → Window × Bool
unfolding prune
record_restart now w =
    let pruned = prune now w in
    let events = pruned.events ++ now ∷ [] in
    (record pruned { events = events }, leb (length events) w.max)

-- (*restartWindow).count
unfoldable count_restarts : ℕ → Window → Window × ℕ
unfolding prune
count_restarts now w = let pruned = prune now w in (pruned, length pruned.events)

-- (*restartWindow).reset
abbrev pub reset_window : Window → Window
reset_window w = record w { events = [] }
