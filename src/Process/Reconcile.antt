-- ===== src/Process/Reconcile.antt =====
-- The fold of one enumeration into the table of processes (reconcile of
-- internal/modules/process/lifecycle.go).
pub mod Accounts
pub mod Totals
pub mod Reuse
pub mod Exits
use my_own_agent.Prelude.{
  ℕ, ◌+◌, ◌-◌, String, Bool, true, false, not, ◌&&◌, ◌||◌, Option, none, some, List, [], ◌∷◌, ◌++◌,
  length, drop, leb, ltb, ◌==◌, str_eq, str_lt, sort_by, if◌then◌else◌, lookup, put, delete,
}
use my_own_agent.Process.Store.{
  InstanceKey, same_instance, Info, instance_key, cpu_nanos, Tracked, Observation, LifecycleChange,
  Live, Store, Limits, same_pid, note_exit, is_restart, exit_change, start_change, replaced_change,
  admit, utilization, observe,
}

-- The variables of reconcile; a pending entry is an index into `obs` with what stands there.
pub record Pass : Type 0 where
  pub store : Store
  pub obs : List Observation
  pub pending : List (ℕ × Observation)
  pub changes : List LifecycleChange
  pub invalid_names : ℕ

-- The case of an instance that is tracked already, with applyCPU.
unfoldable pub see_again : Limits → Info → Tracked → Pass → Pass
unfolding utilization
see_again c info t p = record p {
  store = record p.store {
    live =
        put same_pid info.pid
          (record t {
            cycle = p.store.cycle;
            last_cpu_nanos = cpu_nanos info;
            last_sample_at = c.now;
          })
          p.store.live;
  };
  obs =
      p.obs
      ++ record (observe c info) {
        entity_id = t.entity_id;
        cpu_utilization = utilization c (cpu_nanos info) t;
        has_state = true;
      }
        ∷ [];
}

-- The store without an instance whose PID has been reused.
unfoldable pub forget_reused : Limits → ℕ → Tracked → Store → Store
unfolding note_exit
forget_reused c pid t s =
    let noted = note_exit c t s in
    record noted {
      live = delete same_pid pid noted.live;
      exited = noted.exited + 1;
      replacements = noted.replacements + 1;
    }

-- The case of a PID that has been reused.
unfoldable pub replace : Limits → Info → Tracked → Pass → Pass
unfolding forget_reused admit is_restart exit_change
replace c info t p =
    let o = observe c info in
    let admitted = admit c o (forget_reused c info.pid t p.store) in
    record p {
      store = admitted.0;
      obs = p.obs ++ record o { has_state = admitted.1 } ∷ [];
      changes =
          p.changes
          ++ exit_change c t
            ∷ (if admitted.1
                then start_change o (is_restart c o.name admitted.0) ∷ replaced_change o ∷ []
                else []);
    }

-- The default case.
abbrev pub put_off : Limits → Info → Pass → Pass
put_off c info p = record p {
  obs = p.obs ++ observe c info ∷ [];
  pending = p.pending ++ (length p.obs, observe c info) ∷ [];
}

-- One round of the loop over the enumeration.
unfoldable pub scan_info : Limits → Info → Pass → Pass
unfolding see_again replace
scan_info c info p =
    let counted = record p {
      invalid_names = p.invalid_names + (if (c.sanitise info.name).1 then 1 else 0);
    } in
    elim (lookup same_pid info.pid p.store.live) [
      | none ↦ put_off c info counted
      | some t ↦
          if same_instance t.key (instance_key c.boot info)
          then see_again c info t counted
          else replace c info t counted
    ]

unfoldable pub scan_infos : Limits → List Info → Pass → Pass
unfolding scan_info
scan_infos c [] p = p
scan_infos c (info ∷ infos) p = scan_infos c infos (scan_info c info p)

-- o.state = t, for the observation at an index.
mark_tracked : ℕ → List Observation → List Observation
mark_tracked i [] = []
mark_tracked i (o ∷ obs) =
    let rest = mark_tracked (i - 1) obs in
    if i == 0 then record o { has_state = true } ∷ obs else o ∷ rest

-- One round of the loop over the pending processes.
unfoldable pub admit_one : Limits → ℕ × Observation → Pass → Pass
unfolding admit is_restart mark_tracked
admit_one c (i, o) p =
    let admitted = admit c o p.store in
    if admitted.1
    then record p {
      store = admitted.0;
      obs = mark_tracked i p.obs;
      changes = p.changes ++ start_change o (is_restart c o.name admitted.0) ∷ [];
    }
    else record p { store = admitted.0 }

unfoldable pub admit_each : Limits → List (ℕ × Observation) → Pass → Pass
unfolding admit_one
admit_each c [] p = p
admit_each c (q ∷ qs) p = admit_each c qs (admit_one c q p)

-- obs[pending[i]].PID < obs[pending[j]].PID
abbrev pub lower_pid : ℕ × Observation → ℕ × Observation → Bool
lower_pid (i, o) (j, u) = ltb o.pid u.pid

-- The entries of the map that were seen in the cycle.
unfoldable pub seen_entries : ℕ → Live → Live
seen_entries cycle [] = []
seen_entries cycle ((pid, t) ∷ live) =
    let rest = seen_entries cycle live in if t.cycle == cycle then (pid, t) ∷ rest else rest

-- The others.
unfoldable pub gone_entries : ℕ → Live → Live
gone_entries cycle [] = []
gone_entries cycle ((pid, t) ∷ live) =
    let rest = gone_entries cycle live in if t.cycle == cycle then rest else (pid, t) ∷ rest

-- What the loop over the map does for an entry that was not seen, but for the deletion.
unfoldable pub retire_one : Limits → Tracked → Pass → Pass
unfolding note_exit exit_change
retire_one c t p = record p {
  store = record (note_exit c t p.store) { exited = p.store.exited + 1 };
  changes = p.changes ++ exit_change c t ∷ [];
}

unfoldable pub retire_each : Limits → Live → Pass → Pass
unfolding retire_one
retire_each c [] p = p
retire_each c ((pid, t) ∷ live) p = retire_each c live (retire_one c t p)

-- That loop.
unfoldable pub retire_unseen : Limits → Pass → Pass
unfolding retire_each seen_entries gone_entries
retire_unseen c p =
    let live = p.store.live in
    let cycle = p.store.cycle in
    retire_each c (gone_entries cycle live)
      (record p { store = record p.store { live = seen_entries cycle live } })

abbrev max_recent_exits : ℕ
max_recent_exits = 4096

unfoldable keep_recent : Limits → List (String × ℕ) → List (String × ℕ)
keep_recent c [] = []
keep_recent c ((name, at) ∷ exits) =
    let rest = keep_recent c exits in
    if ltb c.exit_retention (c.now - at) then rest else (name, at) ∷ rest

abbrev older_exit : String × ℕ → String × ℕ → Bool
older_exit (m, s) (n, t) = if s == t then str_lt m n else ltb s t

-- pruneExits
unfoldable pub prune_exits : Limits → Store → Store
unfolding keep_recent
prune_exits c s =
    let recent = keep_recent c s.recent_exits in
    record s {
      recent_exits =
          if leb (length recent) max_recent_exits
          then recent
          else drop (length recent - max_recent_exits) (sort_by older_exit recent);
    }

abbrev pub start_pass : Store → Pass
start_pass s = record {
  store = record s { cycle = s.cycle + 1 };
  obs = [];
  pending = [];
  changes = [];
  invalid_names = 0;
}

-- reconcile
unfoldable pub reconcile : Limits → List Info → Store → Pass
unfolding scan_infos admit_each retire_unseen prune_exits sort_by
reconcile c infos s =
    let scanned = scan_infos c infos (start_pass s) in
    let admitted = admit_each c (sort_by lower_pid scanned.pending) scanned in
    let retired = retire_unseen c admitted in record retired { store = prune_exits c retired.store }
