-- ===== src/Process/Selection.antt =====
-- Which processes are reported (internal/modules/process/filter.go). A text is the list of its bytes, and
-- strings.ToLower that of ASCII; a value that is not known is none. Floating-point numbers are a type
-- `F`, with their order and zero as arguments.
pub mod Order
pub mod Included
pub mod Tests
use my_own_agent.Prelude.{
  ℕ, ◌+◌, ◌-◌, Bool, true, false, not, ◌&&◌, ◌||◌, Option, none, some, List, [], ◌∷◌, length, take,
  ltb, leb, ◌==◌, any, lex_lt, sort_by, if◌then◌else◌, lookup,
}
use my_own_agent.Logs.Severity.{has_prefix, to_lower}
use my_own_agent.Telemetry.{Text, text_eq}

-- What the code uses of floating-point numbers.
pub record FloatOrder (F : Type 0) : Type 0 where
  pub nought : F
  pub less : F → F → Bool

-- The fields of an observation that are read here.
pub record Candidate (F : Type 0) : Type 0 where
  pub pid : ℕ
  pub name : Text
  pub state : ℕ
  pub uid : Option ℕ
  pub cpu : Option F
  pub rss_bytes : Option ℕ

pub record PidRange : Type 0 where
  pub lo : ℕ
  pub hi : ℕ

-- (pidRange).contains
abbrev pub in_range : ℕ → PidRange → Bool
in_range p r = leb r.lo p && leb p r.hi

-- The fields of Settings that are read here.
pub record Settings (F : Type 0) : Type 0 where
  pub include_names : List Text
  pub exclude_names : List Text
  pub include_pids : List PidRange
  pub exclude_pids : List PidRange
  pub include_users : List ℕ
  pub exclude_users : List ℕ
  pub include_states : List (ℕ × Bool)
  pub exclude_states : List (ℕ × Bool)
  pub min_cpu : F
  pub min_memory : ℕ
  pub max_processes : ℕ

-- strings.Contains
abbrev contains_text : Text → Text → Bool
contains_text [] p = has_prefix p []
contains_text (c ∷ cs) p = has_prefix p (c ∷ cs) || contains_text cs p

-- matchesAny
unfoldable matches_any : Text → List Text → Bool
matches_any name patterns =
    let lower = to_lower name in
    any (λ p. not (length p == 0) && contains_text lower (to_lower p)) patterns

-- inRanges and inUsers
abbrev in_ranges : ℕ → List PidRange → Bool
in_ranges pid ranges = any (in_range pid) ranges

abbrev in_users : Option ℕ → List ℕ → Bool
in_users none users = false
in_users (some uid) users = any (λ u. u == uid) users

abbrev same_state : ℕ → ℕ → Bool
same_state a b = a == b

-- m[state]
abbrev in_states : ℕ → List (ℕ × Bool) → Bool
in_states state m = elim (lookup same_state state m) [ none ↦ false | some b ↦ b ]

abbrev pub is_set {ℓ} : {A : Type ℓ} → List A → Bool
is_set l = ltb 0 (length l)

-- The test of admit on memory, where its use is known.
abbrev below_memory : ℕ → Option ℕ → Bool
below_memory min none = false
below_memory min (some rss) = ltb 0 min && ltb rss min

-- criticalPID
abbrev critical_pid : ℕ → Bool
critical_pid p = leb p 4

module _ {F : Type 0} where
  -- acceptPID
  unfoldable pub accept_pid : Settings F → ℕ → Bool
  accept_pid s pid =
      if is_set s.exclude_pids && in_ranges pid s.exclude_pids
      then false
      else if is_set s.include_pids && not (in_ranges pid s.include_pids)
      then false
      else true

  -- explicitlyIncluded
  unfoldable pub explicitly_included : Settings F → Candidate F → Bool
  unfolding matches_any
  explicitly_included s o =
      if is_set s.include_names && matches_any o.name s.include_names
      then true
      else if is_set s.include_pids && in_ranges o.pid s.include_pids
      then true
      else if is_set s.include_users && in_users o.uid s.include_users
      then true
      else false

  -- The test of admit on the use of the processor, where it is known.
  abbrev pub below_cpu : FloatOrder F → F → Option F → Bool
  below_cpu f min none = false
  below_cpu f min (some cpu) = f.less f.nought min && f.less cpu min

  -- admit
  unfoldable pub admit_observation : FloatOrder F → Settings F → Candidate F → Bool
  unfolding matches_any
  admit_observation f s o =
      if matches_any o.name s.exclude_names
      then false
      else if is_set s.include_names && not (matches_any o.name s.include_names)
      then false
      else if is_set s.exclude_states && in_states o.state s.exclude_states
      then false
      else if is_set s.include_states && not (in_states o.state s.include_states)
      then false
      else if is_set s.exclude_users && in_users o.uid s.exclude_users
      then false
      else if is_set s.include_users && not (in_users o.uid s.include_users)
      then false
      else if below_cpu f s.min_cpu o.cpu
      then false
      else not (below_memory s.min_memory o.rss_bytes)

  -- selectionRank
  unfoldable pub selection_rank : Settings F → Candidate F → ℕ
  unfolding explicitly_included
  selection_rank s o = if explicitly_included s o then 0 else if critical_pid o.pid then 1 else 2

-- An order by the first components, and among equal ones by the second.
abbrev pub first_by : {A B : Type 0} → (A → A → Bool) → (B → B → Bool) → A × B → A × B → Bool
first_by less after (a, b) (c, d) = if less a c then true else if less c a then false else after b d

abbrev descending : {A : Type 0} → (A → A → Bool) → A → A → Bool
descending less a b = less b a

-- A value that is known ranks above one that is not, and a greater one above a smaller one.
abbrev pub known_first : {A : Type 0} → (A → A → Bool) → Option A → Option A → Bool
known_first less none o = false
known_first less (some a) none = true
known_first less (some a) (some b) = less b a

abbrev pub natural_less : ℕ → ℕ → Bool
natural_less a b = ltb a b

-- What the order of selectProcesses reads of a process: its rank, its use of the processor and of
-- memory, its name and its PID.
abbrev pub SelectionKey : Type 0 → Type 0
SelectionKey F = ℕ × (Option F × (Option ℕ × (Text × ℕ)))

-- The order of selectProcesses.
abbrev pub key_lt : {F : Type 0} → (F → F → Bool) → SelectionKey F → SelectionKey F → Bool
key_lt less = first_by natural_less (
    first_by (known_first less)
      (first_by (known_first natural_less) (first_by lex_lt natural_less)))

-- The cap on a sorted list: what is kept, and how many are dropped. A cap of 0 is none.
abbrev pub capped {ℓ} : {A : Type ℓ} → ℕ → List A → List A × ℕ
capped max l = if ltb 0 max && ltb max (length l) then (take max l, length l - max) else (l, 0)

module _ {F : Type 0} (f : FloatOrder F) (s : Settings F) where
  unfoldable pub key_of : Candidate F → SelectionKey F
  unfolding selection_rank
  key_of o = (selection_rank s o, (o.cpu, (o.rss_bytes, (o.name, o.pid))))

  unfoldable pub selected_before : Candidate F → Candidate F → Bool
  unfolding key_of
  selected_before a b = key_lt f.less (key_of a) (key_of b)

  -- selectProcesses
  unfoldable pub select_processes : List (Candidate F) → List (Candidate F) × ℕ
  unfolding sort_by selected_before
  select_processes l = capped s.max_processes (sort_by selected_before l)

-- The fields of a rollup that selectExecutables reads.
pub record Rollup (F : Type 0) : Type 0 where
  pub name : Text
  pub instances : ℕ
  pub cpu_utilization : F
  pub rss_bytes : ℕ

-- The order of selectExecutables.
abbrev rollup_lt : {F : Type 0} → (F → F → Bool) → Rollup F → Rollup F → Bool
rollup_lt less a b =
    first_by (descending natural_less)
      (first_by (descending less) (first_by (descending natural_less) lex_lt))
      (a.instances, (a.cpu_utilization, (a.rss_bytes, a.name)))
      (b.instances, (b.cpu_utilization, (b.rss_bytes, b.name)))

-- selectExecutables
unfoldable select_executables :
    {F : Type 0} → (F → F → Bool) → ℕ → List (Rollup F) → List (Rollup F) × ℕ
unfolding sort_by
select_executables less max l = capped max (sort_by (rollup_lt less) l)
