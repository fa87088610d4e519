-- ===== src/Config.antt =====
-- The agent's configuration (internal/config/config.go). A duration, an int and the schema version
-- are their 64 bits as a number, a float is of type `F`, a map an association list, a module ID a
-- string, and any other text the list of its bytes.
pub mod Validation
pub mod Valid
pub mod Loading
pub mod Loaded
pub mod Headers
pub mod Tests
use my_own_agent.Prelude.{
  ℕ, ◌+◌, ◌*◌, ◌%◌, ◌^◌, String, Bool, true, false, not, Option, none, some, List, [], ◌∷◌, length,
  ltb, ◌==◌, str_eq, if◌then◌else◌, lookup, signed_lt,
}
use my_own_agent.Supervisor.Ids.{ModuleId}
use my_own_agent.Telemetry.{Text}
use my_own_agent.Statsd.{trim_space}

-- ModuleConfig
pub record ModuleConfig : Type 0 where
  pub enabled : Bool
  pub required : Bool
  pub settings : List (Text × Text)

-- RestartConfig
pub record RestartConfig (F : Type 0) : Type 0 where
  pub enabled : Bool
  pub initial_backoff : ℕ
  pub max_backoff : ℕ
  pub jitter_fraction : F
  pub max_restarts : ℕ
  pub window : ℕ

-- AgentConfig
pub record AgentConfig (F : Type 0) : Type 0 where
  pub shutdown_timeout : ℕ
  pub module_stop_timeout : ℕ
  pub module_start_timeout : ℕ
  pub health_interval : ℕ
  pub health_probe_timeout : ℕ
  pub restart : RestartConfig F
  pub diagnostics_retention : ℕ

-- NativeConfig
pub record NativeConfig (F : Type 0) : Type 0 where
  pub endpoint : Text
  pub headers : List (Text × Text)
  pub timeout : ℕ
  pub interval : ℕ
  pub max_batch : ℕ
  pub compression : Text
  pub trace_sample_rate : F

-- OTLPConfig
pub record OtlpConfig : Type 0 where
  pub endpoint : Text
  pub protocol : Text
  pub headers : List (Text × Text)
  pub timeout : ℕ
  pub interval : ℕ
  pub max_batch : ℕ

-- Config, with the two fields of ExportConfig.
pub record Config (F : Type 0) : Type 0 where
  pub revision : ℕ
  pub schema_version : ℕ
  pub agent : AgentConfig F
  pub native : NativeConfig F
  pub otlp : OtlpConfig
  pub modules : List (ModuleId × ModuleConfig)

abbrev pub second : ℕ
second = 1000000000

-- "gzip"
abbrev pub gzip : Text
gzip = 103 ∷ 122 ∷ 105 ∷ 112 ∷ []

-- "http/protobuf"
abbrev pub http_protobuf : Text
http_protobuf = 104 ∷ 116 ∷ 116 ∷ 112 ∷ 47 ∷ 112 ∷ 114 ∷ 111 ∷ 116 ∷ 111 ∷ 98 ∷ 117 ∷ 102 ∷ []

abbrev absent_module : ModuleConfig
absent_module = record { enabled = false; required = false; settings = [] }

-- (Config).ModuleFor, on the map of the modules.
abbrev pub module_for : List (ModuleId × ModuleConfig) → ModuleId → ModuleConfig
module_for modules id = elim (lookup str_eq id modules) [ none ↦ absent_module | some mc ↦ mc ]

-- Whether `strings.TrimSpace(s) == ""`.
unfoldable pub blank : Text → Bool
unfolding trim_space
blank s = length (trim_space s) == 0

-- A value that is not positive gives way to the default.
abbrev or_default : ℕ → ℕ → ℕ
or_default default v = if signed_lt 0 v then v else default

-- ApplyOTLPDefaults
unfoldable pub apply_otlp_defaults : OtlpConfig → OtlpConfig
unfolding blank
apply_otlp_defaults c = record c {
  protocol = if blank c.protocol then http_protobuf else c.protocol;
  timeout = or_default (10 * second) c.timeout;
  interval = or_default (10 * second) c.interval;
  max_batch = or_default 512 c.max_batch;
}

-- ApplyNativeDefaults
unfoldable pub apply_native_defaults : {F : Type 0} → NativeConfig F → NativeConfig F
unfolding blank
apply_native_defaults c = record c {
  timeout = or_default (10 * second) c.timeout;
  interval = or_default (5 * second) c.interval;
  max_batch = or_default 1000 c.max_batch;
  compression = if blank c.compression then gzip else c.compression;
}

-- Default; the two floats that it writes are arguments.
unfoldable pub default_config : {F : Type 0} → F → F → Config F
default_config jitter rate = record {
  revision = 0;
  schema_version = 1;
  agent = record {
    shutdown_timeout = 30 * second;
    module_stop_timeout = 10 * second;
    module_start_timeout = 30 * second;
    health_interval = 15 * second;
    health_probe_timeout = 5 * second;
    restart = record {
      enabled = true;
      initial_backoff = second;
      max_backoff = 300 * second;
      jitter_fraction = jitter;
      max_restarts = 5;
      window = 600 * second;
    };
    diagnostics_retention = 256;
  };
  native = record {
    endpoint = [];
    headers = [];
    timeout = 10 * second;
    interval = 5 * second;
    max_batch = 1000;
    compression = gzip;
    trace_sample_rate = rate;
  };
  otlp = record {
    endpoint = [];
    protocol = http_protobuf;
    headers = [];
    timeout = 10 * second;
    interval = 10 * second;
    max_batch = 512;
  };
  modules = [];
}
