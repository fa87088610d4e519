-- ===== src/Supervisor/Probing/Once.antt =====
-- No two probes of one module overlap (internal/supervisor/loop.go).
use my_own_agent.Prelude.{
  ◌≡◌, refl, ap, sym, subst, ap-if, ◌∙◌, Bool, true, false, Option, none, some, List, [], ◌∷◌,
  arith, if◌then◌else◌, eq_iff, str_eq, Bool-cases, inl, inr,
}
use my_own_agent.Diagnostics.{Record}
use my_own_agent.Supervisor.Graph.{ModuleId, update}
use my_own_agent.Supervisor.Runner.{Runner, Step, start_step, add_diagnostic}
use my_own_agent.Supervisor.Control.{Supervisor}
use my_own_agent.Supervisor.Probing.{
  probeable, mark_probed, claim_probes, probe_all, Probe, answered, panicked, failed_probe,
  adopt_each, settle_probe,
}

probeable-mark_probed : (o : Option Runner) → probeable (mark_probed o) ≡ false
probeable-mark_probed none = refl
probeable-mark_probed (some r) = ground arith

probeable-update :
    (runners : ModuleId → Option Runner) (id j : ModuleId)
    → probeable (runners j) ≡ false
    → probeable (update runners id (mark_probed (runners id)) j) ≡ false
probeable-update runners id j h = elim (Bool-cases (str_eq id j)) [
  | inl e ↦ rw e (probeable-mark_probed (runners id))
  | inr n ↦ rw n h
]

-- A module that is not to be probed stays so.
claim_probes-keeps :
    (ids : List ModuleId) (runners : ModuleId → Option Runner) (j : ModuleId)
    → probeable (runners j) ≡ false
    → probeable ((claim_probes ids runners).0 j) ≡ false
unfolding claim_probes
claim_probes-keeps [] runners j h = h
claim_probes-keeps (id ∷ ids) runners j h = elim (Bool-cases (probeable (runners id))) [
  | inl p ↦ rw p (
      claim_probes-keeps ids (update runners id (mark_probed (runners id))) j
        (probeable-update runners id j h))
  | inr n ↦ rw n (claim_probes-keeps ids runners j h)
]

-- None of the modules is to be probed.
abbrev pub NoneProbeable : (ModuleId → Option Runner) → List ModuleId → Type 0
NoneProbeable runners [] = Unit
NoneProbeable runners (id ∷ ids) = (probeable (runners id) ≡ false) × NoneProbeable runners ids

claim_probes-cons :
    (id : ModuleId) (ids : List ModuleId) (runners : ModuleId → Option Runner)
    → (claim_probes (id ∷ ids) runners).0 ≡ (
        if probeable (runners id)
        then (claim_probes ids (update runners id (mark_probed (runners id)))).0
        else (claim_probes ids runners).0)
unfolding claim_probes
claim_probes-cons id ids runners =
    ap-if (λ (p : (ModuleId → Option Runner) × List ModuleId). p.0) (probeable (runners id)) refl
      refl

claim_probes-NoneProbeable :
    (ids : List ModuleId) (runners : ModuleId → Option Runner)
    → NoneProbeable (claim_probes ids runners).0 ids
claim_probes-NoneProbeable [] runners = tt
claim_probes-NoneProbeable (id ∷ ids) runners =
    subst (λ (f : ModuleId → Option Runner). NoneProbeable f (id ∷ ids))
      (sym (claim_probes-cons id ids runners))
      (go (probeable (runners id)) refl λ f. claim_probes-NoneProbeable ids f)
  where
    next : ModuleId → Option Runner
    next = update runners id (mark_probed (runners id))

    go :
        (b : Bool)
        → probeable (runners id) ≡ b
        → ((f : ModuleId → Option Runner) → NoneProbeable (claim_probes ids f).0 ids)
        → NoneProbeable
            (if b then (claim_probes ids next).0 else (claim_probes ids runners).0)
            (id ∷ ids)
    go true p all = (
      claim_probes-keeps ids next id
          (rw ((eq_iff id id).1 refl) (probeable-mark_probed (runners id))),
      all next,
    )
    go false n all = (claim_probes-keeps ids runners id n, all runners)

claim_probes_none :
    (ids : List ModuleId) (runners : ModuleId → Option Runner)
    → NoneProbeable runners ids
    → claim_probes ids runners ≡ (runners, [])
unfolding claim_probes
claim_probes_none [] runners h = refl
claim_probes_none (id ∷ ids) runners h = rw h.0 (claim_probes_none ids runners h.1)

-- A second round of probes, before any probe of the first has ended, probes nothing: no two probes of
-- one module overlap.
probe_all-once : (s : Supervisor) → (probe_all (probe_all s).0).1 ≡ []
unfolding probe_all
probe_all-once s = ground (
  arith,
  claim_probes_none s.reg_order (claim_probes s.reg_order s.runners).0
      (claim_probes-NoneProbeable s.reg_order s.runners),
)

runner-adopt_each :
    (source : ModuleId) (ds : List Record) (s : Step) → (adopt_each source ds s).runner ≡ s.runner
unfolding adopt_each add_diagnostic
runner-adopt_each source [] s = refl
runner-adopt_each source (d ∷ ds) s = runner-adopt_each source ds _

-- Whatever a probe finds, it changes nothing of the module but the report.
settle_probe_report :
    (outcome : Probe) (r : Runner)
    → let q = (settle_probe outcome (start_step r)).runner in q ≡ record r { report = q.report }
unfolding settle_probe add_diagnostic
settle_probe_report (answered report) r =
    let e = runner-adopt_each r.id report.diagnostics (start_step (record r { report = report })) in
    e ∙ sym (ap (λ (q : Runner). record r { report = q.report }) e)
settle_probe_report panicked r = refl
settle_probe_report failed_probe r = refl
