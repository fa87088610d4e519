-- ===== src/Process/Store.antt =====
-- The bounded table of tracked processes (internal/modules/process/lifecycle.go, with InstanceKey of
-- identity.go and Info of reader.go). A time is the number of its nanoseconds, the zero time 0; a U64
-- that is not known is none. A Go map is an association list with one entry for each key. The
-- sanitising of names (filter.go) is an argument, and the slab that backs the observations is left
-- out: an observation is a value.
use my_own_agent.Prelude.{
  ℕ, ◌+◌, ◌-◌, ◌*◌, ◌%◌, ◌^◌, String, Bool, true, false, not, ◌&&◌, ◌||◌, Option, none, some, List,
  [], length, leb, ltb, ◌==◌, str_eq, if◌then◌else◌, lookup, put,
}

abbrev pub same_pid : ℕ → ℕ → Bool
same_pid a b = a == b

pub record InstanceKey : Type 0 where
  pub boot : String
  pub pid : ℕ
  pub start : ℕ
  pub has_start : Bool

abbrev bool_eq : Bool → Bool → Bool
bool_eq true b = b
bool_eq false b = not b

-- (InstanceKey).SameInstance
unfoldable pub same_instance : InstanceKey → InstanceKey → Bool
same_instance k o =
    k.pid == o.pid && str_eq k.boot o.boot && bool_eq k.has_start o.has_start && k.start == o.start

-- The fields of Info that are read here.
pub record Info : Type 0 where
  pub pid : ℕ
  pub ppid : ℕ
  pub name : String
  pub start_raw : ℕ
  pub has_start_raw : Bool
  pub start_time : ℕ
  pub has_start_time : Bool
  pub cpu_user_nanos : Option ℕ
  pub cpu_system_nanos : Option ℕ

-- instanceKey
abbrev pub instance_key : String → Info → InstanceKey
instance_key boot info = record {
  boot = boot;
  pid = info.pid;
  start = info.start_raw;
  has_start = info.has_start_raw;
}

-- (Info).CPUNanos, a sum of uint64.
unfoldable pub cpu_nanos : Info → Option ℕ
cpu_nanos info = elim info.cpu_user_nanos [
  | none ↦ none
  | some user ↦ elim info.cpu_system_nanos [
    | none ↦ none
    | some system ↦ some ((user + system) % 2 ^ 64)
  ]
]

pub record Tracked : Type 0 where
  pub key : InstanceKey
  pub name : String
  pub last_cpu_nanos : Option ℕ
  pub last_sample_at : ℕ
  pub last_io_read : Option ℕ
  pub last_io_write : Option ℕ
  pub entity_id : String
  pub first_seen : ℕ
  pub cycle : ℕ

-- The fields of an observation that reconcile computes. A utilization is the fraction of its parts;
-- `has_state` is whether the store tracks the instance.
pub record Observation : Type 0 where
  pub pid : ℕ
  pub ppid : ℕ
  pub name : String
  pub key : InstanceKey
  pub start_time : ℕ
  pub has_start_time : Bool
  pub cpu_utilization : Option (ℕ × ℕ)
  pub entity_id : String
  pub cpu_cumulative : Option ℕ
  pub has_state : Bool

pub data ChangeKind : Type 0 where
  event_started event_exited event_replaced : ChangeKind

-- lifecycleChange; the lifetime is none where HasLifetime is false.
pub record LifecycleChange : Type 0 where
  pub kind : ChangeKind
  pub pid : ℕ
  pub name : String
  pub entity_id : String
  pub ppid : ℕ
  pub start_time : ℕ
  pub has_start : Bool
  pub lifetime : Option ℕ
  pub restart : Bool

abbrev pub Live : Type 0
Live = List (ℕ × Tracked)

pub record Store : Type 0 where
  pub live : Live
  pub recent_exits : List (String × ℕ)
  pub cycle : ℕ
  pub evicted_by_capacity : ℕ
  pub replacements : ℕ
  pub started : ℕ
  pub exited : ℕ

abbrev pub new_store : Store
new_store = record {
  live = [];
  recent_exits = [];
  cycle = 0;
  evicted_by_capacity = 0;
  replacements = 0;
  started = 0;
  exited = 0;
}

-- What reconcile is called with, but for the enumeration: `sanitise` is sanitiseName.
pub record Limits : Type 0 where
  pub sanitise : String → String × Bool
  pub boot : String
  pub now : ℕ
  pub num_cpu : ℕ
  pub max_tracked : ℕ
  pub exit_retention : ℕ

-- noteExit
unfoldable pub note_exit : Limits → Tracked → Store → Store
note_exit c t s =
    if c.exit_retention == 0
    then s
    else record s { recent_exits = put str_eq t.name c.now s.recent_exits }

-- isRestart
unfoldable pub is_restart : Limits → String → Store → Bool
is_restart c name s = elim (lookup str_eq name s.recent_exits) [
  | none ↦ false
  | some at ↦ not (c.exit_retention == 0) && leb (c.now - at) c.exit_retention
]

-- exitChange
unfoldable pub exit_change : Limits → Tracked → LifecycleChange
exit_change c t = record {
  kind = event_exited;
  pid = t.key.pid;
  name = t.name;
  entity_id = t.entity_id;
  ppid = 0;
  start_time = 0;
  has_start = false;
  lifetime =
      if t.first_seen == 0 || ltb c.now t.first_seen then none else some (c.now - t.first_seen);
  restart = false;
}

-- startChange
abbrev pub start_change : Observation → Bool → LifecycleChange
start_change o restart = record {
  kind = event_started;
  pid = o.pid;
  name = o.name;
  entity_id = o.entity_id;
  ppid = o.ppid;
  start_time = o.start_time;
  has_start = o.has_start_time;
  lifetime = none;
  restart = restart;
}

abbrev pub replaced_change : Observation → LifecycleChange
replaced_change o = record {
  kind = event_replaced;
  pid = o.pid;
  name = o.name;
  entity_id = "";
  ppid = 0;
  start_time = 0;
  has_start = false;
  lifetime = none;
  restart = false;
}

-- The entry that admit makes.
abbrev pub new_tracked : Limits → ℕ → Observation → Tracked
new_tracked c cycle o = record {
  key = o.key;
  name = o.name;
  last_cpu_nanos = o.cpu_cumulative;
  last_sample_at = c.now;
  last_io_read = none;
  last_io_write = none;
  entity_id = "";
  first_seen = c.now;
  cycle = cycle;
}

-- Whether the table has room for one more.
abbrev has_room : Limits → Store → Bool
has_room c s = c.max_tracked == 0 || ltb (length s.live) c.max_tracked

-- admit, and s.started++ of its callers; the result is whether the instance is tracked.
unfoldable pub admit : Limits → Observation → Store → Store × Bool
admit c o s =
    if has_room c s
    then (
      record s {
        live = put same_pid o.pid (new_tracked c s.cycle o) s.live;
        started = s.started + 1;
      },
      true,
    )
    else (record s { evicted_by_capacity = s.evicted_by_capacity + 1 }, false)

-- The ratio that applyCPU computes, none where it emits nothing.
unfoldable pub utilization : Limits → Option ℕ → Tracked → Option (ℕ × ℕ)
utilization c cur t = elim cur [
  | none ↦ none
  | some v ↦ elim t.last_cpu_nanos [
    | none ↦ none
    | some before ↦
        let used = v - before in
        let capacity = (c.now - t.last_sample_at) * c.num_cpu in
        if t.last_sample_at == 0
          || c.num_cpu == 0
          || leb c.now t.last_sample_at
          || ltb v before
          || capacity == 0
        then none
        else if ltb capacity used
        then some (1, 1)
        else some (used, capacity)
  ]
]

-- An observation of this cycle.
abbrev pub observe : Limits → Info → Observation
observe c info = record {
  pid = info.pid;
  ppid = info.ppid;
  name = (c.sanitise info.name).0;
  key = instance_key c.boot info;
  start_time = info.start_time;
  has_start_time = info.has_start_time;
  cpu_utilization = none;
  entity_id = "";
  cpu_cumulative = cpu_nanos info;
  has_state = false;
}

-- counterDelta: the new baseline, and the increase.
unfoldable counter_delta : Option ℕ → Option ℕ → Option ℕ × Option ℕ
counter_delta before none = (before, none)
counter_delta none (some v) = (some v, none)
counter_delta (some w) (some v) = (some v, if ltb v w then none else some (v - w))

-- applyIO for a tracked instance: the entry with its new baselines, and the two increases.
unfoldable apply_io : Option ℕ → Option ℕ → Tracked → Tracked × Option ℕ × Option ℕ
unfolding counter_delta
apply_io read write t =
    let (r, dr) = counter_delta t.last_io_read read in
    let (w, dw) = counter_delta t.last_io_write write in
    (record t { last_io_read = r; last_io_write = w }, dr, dw)
