-- ===== src/Process/Selection/Tests.antt =====
-- Runs of the selection at concrete inputs.
use mathlib.Core.List.{Permᴰ}
use my_own_agent.Prelude.{ℕ, ◌+◌, ◌≤◌, ◌<◌, ◌≡◌, refl, none, some, [], ◌∷◌, length, count_by, arith}
use my_own_agent.Process.Selection.{
  FloatOrder, Candidate, Settings, natural_less, explicitly_included, select_processes,
}
use my_own_agent.Process.Selection.Order.{keys_of, natural_less-Strict, select_processes-Permᴰ}
use my_own_agent.Process.Selection.Included.{select_processes-keeps_named}

abbrev numbers : FloatOrder ℕ
numbers = record { nought = 0; less = natural_less }

-- One process is reported, and those of user 7 are named.
abbrev settings : Settings ℕ
settings = record {
  include_names = [];
  exclude_names = [];
  include_pids = [];
  exclude_pids = [];
  include_users = 7 ∷ [];
  exclude_users = [];
  include_states = [];
  exclude_states = [];
  min_cpu = 0;
  min_memory = 0;
  max_processes = 1;
}

abbrev busy : Candidate ℕ
busy = record { pid = 40; name = 98 ∷ []; state = 1; uid = some 1; cpu = some 90; rss_bytes = none }

abbrev named : Candidate ℕ
named = record { pid = 30; name = 97 ∷ []; state = 1; uid = some 7; cpu = none; rss_bytes = some 5 }

select_processes-Permᴰ_example :
    (keys_of numbers settings (select_processes numbers settings (busy ∷ named ∷ [])).0
      ≡ keys_of numbers settings (select_processes numbers settings (named ∷ busy ∷ [])).0)
    × ((select_processes numbers settings (busy ∷ named ∷ [])).1
        ≡ (select_processes numbers settings (named ∷ busy ∷ [])).1)
select_processes-Permᴰ_example =
    select_processes-Permᴰ numbers settings natural_less-Strict (Permᴰ.swap refl refl)

select_processes-keeps_named_example :
    (count_by
        (explicitly_included settings)
        (select_processes numbers settings (busy ∷ named ∷ [])).0
      ≡ count_by (explicitly_included settings) (busy ∷ named ∷ []))
    × (length (select_processes numbers settings (busy ∷ named ∷ [])).0
          + (select_processes numbers settings (busy ∷ named ∷ [])).1
        ≡ length (busy ∷ named ∷ []))
    × (0 < 1 → length (select_processes numbers settings (busy ∷ named ∷ [])).0 ≤ 1)
unfolding explicitly_included
select_processes-keeps_named_example =
    select_processes-keeps_named numbers settings (busy ∷ named ∷ []) (omega arith)
