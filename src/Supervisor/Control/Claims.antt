-- ===== src/Supervisor/Control/Claims.antt =====
-- When a module may start (claimStart of internal/supervisor/supervisor.go).
use my_own_agent.Prelude.{
  ℕ, ◌+◌, ◌≡◌, refl, ap, ◌∙◌, subst, inl, inr, Bool, true, false, Option, none, some, List, [], ◌∷◌,
  arith, if◌then◌else◌, Bool-cases, eq_iff, sym, str_eq,
}
use my_own_agent.Lifecycle.{starting, can_transition}
use my_own_agent.Supervisor.Graph.{ModuleId}
use my_own_agent.Supervisor.Runner.{Runner, Step}
use my_own_agent.Supervisor.Control.{
  Supervisor, commit, is_running, first_blocked, dependencies, startable, grant_start, claim_known,
  claim_runner, claim_start,
}
use my_own_agent.Supervisor.Control.Effects.{runner-grant_start}

-- Every module of the list is there and running.
abbrev pub AllRunning : (ModuleId → Option Runner) → List ModuleId → Type 0
AllRunning runners [] = Unit
AllRunning runners (dep ∷ rest) = (is_running (runners dep) ≡ true) × AllRunning runners rest

first_blocked-AllRunning :
    (runners : ModuleId → Option Runner) (deps : List ModuleId)
    → first_blocked runners deps ≡ none
    → AllRunning runners deps
unfolding first_blocked
first_blocked-AllRunning runners [] h = tt
first_blocked-AllRunning runners (dep ∷ rest) h = elim (Bool-cases (is_running (runners dep))) [
  | inl y ↦ (y, first_blocked-AllRunning runners rest (rw (y, first_blocked) at h))
  | inr n ↦ let bad : some dep ≡ none = rw (n, first_blocked) at h in absurd (cc bad)
]

first_blocked_of_AllRunning :
    (runners : ModuleId → Option Runner) (deps : List ModuleId)
    → AllRunning runners deps
    → first_blocked runners deps ≡ none
unfolding first_blocked
first_blocked_of_AllRunning runners [] h = refl
first_blocked_of_AllRunning runners (dep ∷ rest) h =
    rw h.0 (first_blocked_of_AllRunning runners rest h.1)

-- The conditions of a start: the module is known, enabled, in a state with a way to Starting, and not
-- in an operation, all its dependencies run, and the supervisor has not been shut down.
pub record MayStart (s : Supervisor) (id : ModuleId) (r : Runner) : Type 0 where
  pub known : s.runners id ≡ some r
  pub live : s.stopped_flag ≡ false
  pub idle : r.op_in_flight ≡ false
  pub enabled : r.enabled ≡ true
  pub legal : can_transition r.state starting ≡ true
  pub deps : AllRunning s.runners (dependencies s.graph id)

startable_parts :
    (r : Runner)
    → startable r ≡ true
    → (r.op_in_flight ≡ false) × (r.enabled ≡ true) × (can_transition r.state starting ≡ true)
startable_parts r h = ground arith

-- What a claim returns where it is granted.
abbrev pub Granted : ℕ → ModuleId → Supervisor → Supervisor × Option ℕ → Type 0
Granted now id s (s', none) = Unit
Granted now id s (s', some gen) =
    (r : Runner) × (MayStart s id r)
    × (s' ≡ commit now id (grant_start r) s)
    × (gen ≡ r.generation + 1)

claim_known-Granted :
    (now : ℕ) (id : ModuleId) (r : Runner) (s : Supervisor)
    → s.runners id ≡ some r
    → s.stopped_flag ≡ false
    → startable r ≡ true
    → Granted now id s (claim_known now id r s)
unfolding claim_known
claim_known-Granted now id r s k l h = go (first_blocked s.runners (dependencies s.graph id)) refl
  where
    go :
        (o : Option ModuleId)
        → first_blocked s.runners (dependencies s.graph id) ≡ o
        → Granted now id s (claim_known now id r s)
    go (some dep) q = rw (q, claim_known) tt
    go none q =
        let (i, e, t) = startable_parts r h in
        rw (q, claim_known)
          (
            r,
            record {
              known = k;
              live = l;
              idle = i;
              enabled = e;
              legal = t;
              deps = first_blocked-AllRunning s.runners (dependencies s.graph id) q;
            },
            refl,
            refl,
          )

claim_start-Granted :
    (now : ℕ) (id : ModuleId) (s : Supervisor) → Granted now id s (claim_start now id s)
unfolding claim_start claim_runner
claim_start-Granted now id s = go (s.runners id) refl
  where
    with_flag :
        (r : Runner)
        → s.runners id ≡ some r
        → (b c : Bool) → s.stopped_flag ≡ b
        → startable r ≡ c
        → Granted now id s
            (if b then (s, none) else if c then claim_known now id r s else (s, none))
    with_flag r q true c l h = tt
    with_flag r q false true l h = claim_known-Granted now id r s q l h
    with_flag r q false false l h = tt

    go : (o : Option Runner) → s.runners id ≡ o → Granted now id s (claim_runner now id o s)
    go none q = tt
    go (some r) q = with_flag r q s.stopped_flag (startable r) refl refl

claim_start-commits :
    (now : ℕ) (id : ModuleId) (s s' : Supervisor) (gen : ℕ)
    → claim_start now id s ≡ (s', some gen)
    → (r : Runner) × (MayStart s id r)
      × (s' ≡ commit now id (grant_start r) s)
      × (gen ≡ r.generation + 1)
claim_start-commits now id s s' gen h = subst (Granted now id s) h (claim_start-Granted now id s)

-- Under these conditions a start is always granted.
pub claim_start_of_MayStart :
    (now : ℕ) (id : ModuleId) (s : Supervisor) (r : Runner)
    → MayStart s id r
    → claim_start now id s ≡ (commit now id (grant_start r) s, some (r.generation + 1))
unfolding claim_start claim_known
claim_start_of_MayStart now id s r m =
    rw (m.known, claim_runner)
      (rw (m.live, m.idle, m.enabled, m.legal)
        (rw (first_blocked_of_AllRunning s.runners (dependencies s.graph id) m.deps, claim_known)))

runner-commit :
    (now : ℕ) (id : ModuleId) (st : Step) (s : Supervisor)
    → (commit now id st s).runners id ≡ some st.runner
unfolding commit
runner-commit now id st s = ground (arith, eq_iff id id)

-- The module is Starting, under the generation `gen`, in an operation, and waits neither for a
-- dependency nor for a retry; all else of it is as it was, and so are the other modules.
pub record Started (id : ModuleId) (gen : ℕ) (r : Runner) (s s' : Supervisor) : Type 0 where
  pub next : gen ≡ r.generation + 1
  pub after :
      (j : ModuleId)
      → s'.runners j ≡ (
          if str_eq id j
          then some (record r {
            state = starting;
            generation = gen;
            op_in_flight = true;
            blocked_on_deps = false;
            retry_at = 0;
          })
          else s.runners j)

grant_start-Started :
    (now : ℕ) (id : ModuleId) (r : Runner) (s : Supervisor)
    → Started id (r.generation + 1) r s (commit now id (grant_start r) s)
unfolding commit
grant_start-Started now id r s = record {
  next = refl;
  after = λ j. ground (arith, eq_iff id j, runner-grant_start r);
}

-- A start is granted only where the module is known, enabled, in a state with a way to Starting and
-- in no operation, all its dependencies run, and the supervisor is not shut down. The module is then
-- Starting, marked as in an operation, under the next generation, which is the result, and no other
-- module has changed.
pub claim_start-granted :
    (now : ℕ) (id : ModuleId) (s s' : Supervisor) (gen : ℕ)
    → claim_start now id s ≡ (s', some gen)
    → (r : Runner) × MayStart s id r × Started id gen r s s'
claim_start-granted now id s s' gen h =
    let (r, m, e, g) = claim_start-commits now id s s' gen h in
    (
      r,
      m,
      subst (λ (k : ℕ). Started id k r s s') (sym g)
          (subst (Started id (r.generation + 1) r s) (sym e) (grant_start-Started now id r s)),
    )

-- A module in an operation is not claimed: nothing changes.
claim_start_busy :
    (now : ℕ) (id : ModuleId) (s : Supervisor) (r : Runner)
    → s.runners id ≡ some r
    → r.op_in_flight ≡ true
    → claim_start now id s ≡ (s, none)
unfolding claim_start claim_runner
claim_start_busy now id s r k h = rw (k, claim_runner) (ground arith)

-- Once a start is granted, every further claim of the module is refused and changes nothing, until
-- the operation has ended: no two starts of one module overlap.
claim_start-once :
    (now later : ℕ) (id : ModuleId) (s s' : Supervisor) (gen : ℕ)
    → claim_start now id s ≡ (s', some gen)
    → claim_start later id s' ≡ (s', none)
claim_start-once now later id s s' gen h =
    let (r, m, e, g) = claim_start-commits now id s s' gen h in
    claim_start_busy later id s' (grant_start r).runner
      (ap (λ (t : Supervisor). t.runners id) e ∙ runner-commit now id (grant_start r) s)
      (ap (λ (q : Runner). q.op_in_flight) (runner-grant_start r))
