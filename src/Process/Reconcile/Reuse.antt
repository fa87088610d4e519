-- ===== src/Process/Reconcile/Reuse.antt =====
-- A PID that is reused (internal/modules/process/lifecycle.go).
use my_own_agent.Prelude.{ℕ, ◌+◌, ◌%◌, ◌^◌, Option, none, some}
use my_own_agent.Process.Store.{Info, Tracked, Store, Limits}

-- The CPU time of a process, where both of its parts are known.
abbrev cpu_total : Option ℕ → Option ℕ → Option ℕ
cpu_total none system = none
cpu_total (some user) none = none
cpu_total (some user) (some system) = some ((user + system) % 2 ^ 64)

-- An entry with the identity, the name and the CPU time of the process enumerated, both first seen and
-- sampled now, with no baseline of I/O and no entity.
abbrev pub fresh_entry : Limits → ℕ → Info → Tracked
fresh_entry c cycle info = record {
  key = record {
    boot = c.boot;
    pid = info.pid;
    start = info.start_raw;
    has_start = info.has_start_raw;
  };
  name = (c.sanitise info.name).0;
  last_cpu_nanos = cpu_total info.cpu_user_nanos info.cpu_system_nanos;
  last_sample_at = c.now;
  last_io_read = none;
  last_io_write = none;
  entity_id = "";
  first_seen = c.now;
  cycle = cycle;
}
