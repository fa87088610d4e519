-- ===== src/Process/Tests.antt =====
-- The table of processes at small inputs.
use my_own_agent.Prelude.{ℕ, ◌≤◌, ◌≡◌, refl, true, false, some, List, [], ◌∷◌, arith}
use my_own_agent.Process.Store.{Info, Tracked, Store, Limits, new_store, new_tracked, observe}
use my_own_agent.Process.Reconcile.{scan_info, start_pass, reconcile}
use my_own_agent.Process.Reconcile.Accounts.{live_pid, info_pid, Sound}
use my_own_agent.Process.Reconcile.Totals.{reconcile-Sound}
use my_own_agent.Process.Reconcile.Exits.{live_pid-reconcile}

abbrev limits : Limits
limits = record {
  sanitise = λ name. (name, false);
  boot = "b";
  now = 100;
  num_cpu = 2;
  max_tracked = 1;
  exit_retention = 50;
}

abbrev info_at : ℕ → ℕ → Info
info_at pid start = record {
  pid = pid;
  ppid = 1;
  name = "sh";
  start_raw = start;
  has_start_raw = true;
  start_time = 0;
  has_start_time = false;
  cpu_user_nanos = some 5;
  cpu_system_nanos = some 6;
}

-- More processes than the table has room for.
abbrev two_infos : List Info
two_infos = info_at 7 1 ∷ info_at 4 1 ∷ []

new_store-Sound : Sound 1 new_store
new_store-Sound = record { few = omega arith; balanced = refl; single = λ x. omega arith }

two_infos_unique : (x : ℕ) → info_pid x two_infos ≤ 1
two_infos_unique x = ground arith

reconcile-Sound_example : Sound 1 (reconcile limits two_infos new_store).store
reconcile-Sound_example =
    reconcile-Sound limits two_infos new_store (omega arith) two_infos_unique new_store-Sound

-- A process that started at 1 has the PID.
abbrev older : Tracked
older = new_tracked limits 3 (observe limits (info_at 7 1))

abbrev one_live : Store
one_live = record new_store { live = (7, older) ∷ []; cycle = 3; started = 1 }

one_live-Sound : Sound 1 one_live
one_live-Sound = record { few = omega arith; balanced = refl; single = λ x. ground arith }

abbrev after_reuse : Store
after_reuse = (scan_info limits (info_at 7 2) (start_pass one_live)).store

live_pid-reconcile_example :
    live_pid 7 (reconcile limits (info_at 4 1 ∷ []) one_live).store.live ≡ 0
live_pid-reconcile_example = live_pid-reconcile limits (info_at 4 1 ∷ []) one_live 7 refl refl
