-- ===== src/Supervisor/Runner/Steps.antt =====
-- setStateLocked as the other proofs use it (internal/supervisor/supervisor.go).
use my_own_agent.Prelude.{
  ◌≡◌, refl, Bool, true, false, not, ◌||◌, List, [], ◌∷◌, ◌++◌, any, arith, Bool-cases, inl, inr,
}
use my_own_agent.Lifecycle.{State, state_eq, can_transition}
use my_own_agent.Lifecycle.Paths.{state_eq_sound}
use my_own_agent.Supervisor.Runner.{
  Runner, Event, state_changed, illegal_transition, Step, set_state, emit,
}

same_state : (to : State) (r : Runner) → r.state ≡ to → r ≡ record r { state = to }
same_state to r h = ground arith

pub runner-set_state :
    (to : State) (s : Step) → (set_state to s).runner ≡ record s.runner { state = to }
unfolding set_state
runner-set_state to s = elim (Bool-cases (state_eq s.runner.state to)) [
  | inl e ↦ rw e (same_state to s.runner (state_eq_sound s.runner.state to e))
  | inr n ↦ rw n
]

records-set_state : (to : State) (s : Step) → (set_state to s).records ≡ s.records
unfolding set_state
records-set_state to s = ground arith

abbrev pub is_illegal : Event → Bool
is_illegal (illegal_transition id from to) = true
is_illegal _ = false

pub any-append {ℓ} :
    {A : Type ℓ} (p : A → Bool) (xs ys : List A) → any p (xs ++ ys) ≡ (any p xs || any p ys)
any-append p [] ys = refl
any-append p (x ∷ xs) ys = ground (arith, any-append p xs ys)

-- An illegal transition is logged exactly where the table lacks it.
pub illegal-set_state :
    (to : State) (s : Step)
    → any is_illegal (set_state to s).events
      ≡ (any is_illegal s.events || not (can_transition s.runner.state to))
unfolding set_state can_transition
illegal-set_state to s =
    let from = s.runner.state in
    let id = s.runner.id in
    ground (
      arith,
      any-append is_illegal (s.events ++ illegal_transition id from to ∷ [])
          (state_changed id from to ∷ []),
      any-append is_illegal s.events (illegal_transition id from to ∷ []),
      any-append is_illegal s.events (state_changed id from to ∷ []),
    )

runner-emit : (x : Event) (s : Step) → (emit x s).runner ≡ s.runner
unfolding emit
runner-emit x s = refl
