-- ===== src/Config/Validation.antt =====
-- Validate (internal/config/validate.go). A problem is where it is found and what is wrong. The
-- headers are looked at in the order of the list, in which Go gives none. url.Parse and
-- net.SplitHostPort are arguments, and strings.ToLower is that of ASCII.
use my_own_agent.Prelude.{
  ℕ, ◌*◌, ◌%◌, ◌^◌, String, Bool, true, false, not, ◌&&◌, ◌||◌, Option, none, some, List, [], ◌∷◌,
  ◌++◌, ◌==◌, str_eq, str_lt, codes, sort_by, if◌then◌else◌, signed_lt,
}
use my_own_agent.Supervisor.Ids.{ModuleId}
use my_own_agent.Telemetry.{Text, text_eq}
use my_own_agent.Statsd.{trim_space}
use my_own_agent.Logs.Severity.{to_lower, has_prefix}
use my_own_agent.Config.{
  ModuleConfig, RestartConfig, AgentConfig, NativeConfig, OtlpConfig, Config, module_for, blank,
  apply_otlp_defaults, apply_native_defaults, gzip, http_protobuf,
}

pub data Reason : Type 0 where
  unsupported_version not_positive exceeds out_of_range window_too_short : Reason
  is_empty has_whitespace required_but_disabled unknown_value not_url loops_back malformed : Reason

-- Problem; the item is the module or the header that the path ends in, if any.
pub record Problem : Type 0 where
  pub field : String
  pub item : Text
  pub reason : Reason

abbrev pub problem : String → Reason → Problem
problem field reason = record { field = field; item = []; reason = reason }

-- The problems whose tests succeed, in the order of the calls of fail.
abbrev pub failures : List (Bool × Problem) → List Problem
failures [] = []
failures ((failed, p) ∷ checks) = let rest = failures checks in if failed then p ∷ rest else rest

-- What Validate takes from other packages, and its test on the jitter fraction.
pub record Parsers (F : Type 0) : Type 0 where
  pub in_unit : F → Bool
  pub url_host : Text → Option Text
  pub split_host_port : Text → Option (Text × Text)

-- The test of positive.
abbrev not_positive_of : String → ℕ → Bool × Problem
not_positive_of field d = (not (signed_lt 0 d), problem field not_positive)

-- "http://" and "https://"
abbrev is_http : Text → Bool
is_http ep =
    has_prefix (104 ∷ 116 ∷ 116 ∷ 112 ∷ 58 ∷ 47 ∷ 47 ∷ []) ep
    || has_prefix (104 ∷ 116 ∷ 116 ∷ 112 ∷ 115 ∷ 58 ∷ 47 ∷ 47 ∷ []) ep

unfoldable pub bad_endpoint : Text → Bool
unfolding trim_space blank
bad_endpoint endpoint = not (blank endpoint) && not (is_http (trim_space endpoint))

-- The loop over the headers of an exporter.
abbrev header_checks : String → List (Text × Text) → List (Bool × Problem)
header_checks field [] = []
header_checks field ((k, v) ∷ headers) =
    (blank k, problem field is_empty)
    ∷ (blank v, record { field = field; item = k; reason = is_empty })
    ∷ header_checks field headers

-- "none"
abbrev no_compression : Text
no_compression = 110 ∷ 111 ∷ 110 ∷ 101 ∷ []

-- "http/json"
abbrev http_json : Text
http_json = 104 ∷ 116 ∷ 116 ∷ 112 ∷ 47 ∷ 106 ∷ 115 ∷ 111 ∷ 110 ∷ []

unfoldable pub unknown_of : Text → Text → Text → Bool
unfolding trim_space
unknown_of one other s =
    let t = to_lower (trim_space s) in not (text_eq t one) && not (text_eq t other)

-- The part of Validate on the OTLP exporter.
unfoldable pub otlp_checks : OtlpConfig → List (Bool × Problem)
unfolding unknown_of bad_endpoint blank
otlp_checks c =
    (unknown_of http_protobuf http_json c.protocol, problem "export.otlp.protocol" unknown_value)
    ∷ not_positive_of "export.otlp.timeout" c.timeout
    ∷ not_positive_of "export.otlp.interval" c.interval
    ∷ not_positive_of "export.otlp.max_batch" c.max_batch
    ∷ (bad_endpoint c.endpoint, problem "export.otlp.endpoint" not_url)
    ∷ header_checks "export.otlp.headers" c.headers

-- The part of Validate on one module.
unfoldable pub module_checks : ModuleId × ModuleConfig → List (Bool × Problem)
unfolding trim_space
module_checks (id, mc) =
    if str_eq id ""
    then (true, problem "modules" is_empty) ∷ []
    else (
      not (text_eq (trim_space (codes id)) (codes id)),
      record { field = "modules"; item = codes id; reason = has_whitespace },
    )
      ∷ (
        mc.required && not mc.enabled,
        record { field = "modules"; item = codes id; reason = required_but_disabled },
      )
      ∷ setting_checks mc.settings
  where
    setting_checks : List (Text × Text) → List (Bool × Problem)
    setting_checks [] = []
    setting_checks ((k, v) ∷ settings) =
        (text_eq k [], record { field = "modules"; item = codes id; reason = is_empty })
        ∷ setting_checks settings

-- The loop over the sorted modules.
abbrev pub modules_checks : List (ModuleId × ModuleConfig) → List (Bool × Problem)
modules_checks [] = []
modules_checks (m ∷ ms) = module_checks m ++ modules_checks ms

-- sort.Strings on the keys.
abbrev pub by_id : ModuleId × ModuleConfig → ModuleId × ModuleConfig → Bool
by_id (i, _) (j, _) = str_lt i j

-- The part of Validate on the native exporter.
unfoldable pub native_checks : {F : Type 0} → NativeConfig F → List (Bool × Problem)
unfolding unknown_of bad_endpoint blank
native_checks c =
    (
      unknown_of gzip no_compression c.compression,
      problem "export.native.compression" unknown_value,
    )
    ∷ not_positive_of "export.native.timeout" c.timeout
    ∷ not_positive_of "export.native.interval" c.interval
    ∷ not_positive_of "export.native.max_batch" c.max_batch
    ∷ (bad_endpoint c.endpoint, problem "export.native.endpoint" not_url)
    ∷ header_checks "export.native.headers" c.headers

-- "listen"
abbrev listen_key : Text
listen_key = 108 ∷ 105 ∷ 115 ∷ 116 ∷ 101 ∷ 110 ∷ []

-- The value of the setting `listen`, empty where it is not set.
abbrev listen_of : List (Text × Text) → Text
listen_of [] = []
listen_of ((k, v) ∷ settings) =
    let rest = listen_of settings in if text_eq k listen_key then v else rest

-- The defaults, which Validate fills into its copy.
unfoldable pub with_defaults : {F : Type 0} → Config F → Config F
unfolding apply_otlp_defaults apply_native_defaults
with_defaults c = record c {
  otlp = apply_otlp_defaults c.otlp;
  native = apply_native_defaults c.native;
}

module _ {F : Type 0} (parsers : Parsers F) where
  -- canonicalHostPort
  unfoldable pub canonical_host_port : Text → Text
  unfolding trim_space
  canonical_host_port s =
      let t = trim_space s in
      elim (parsers.split_host_port t) [
        | none ↦ to_lower t
        | some (host, port) ↦ to_lower (canonical host) ++ (58 ∷ port)
      ]
    where
      -- "127.0.0.1"
      loopback : Text
      loopback = 49 ∷ 50 ∷ 55 ∷ 46 ∷ 48 ∷ 46 ∷ 48 ∷ 46 ∷ 49 ∷ []

      -- "localhost" and "::1"
      is_loopback : Text → Bool
      is_loopback h =
          text_eq h loopback
          || text_eq h (108 ∷ 111 ∷ 99 ∷ 97 ∷ 108 ∷ 104 ∷ 111 ∷ 115 ∷ 116 ∷ [])
          || text_eq h (58 ∷ 58 ∷ 49 ∷ [])

      canonical : Text → Text
      canonical host = if is_loopback (to_lower host) then loopback else host

  -- otlpLoopbackCollision
  unfoldable pub loopback_collision : Text → Text → Bool
  unfolding canonical_host_port trim_space
  loopback_collision listen endpoint = elim (parsers.url_host (trim_space endpoint)) [
    | none ↦ false
    | some [] ↦ false
    | some (c ∷ host) ↦ text_eq (canonical_host_port listen) (canonical_host_port (c ∷ host))
  ]

  -- The part of Validate on the restarts, where they are enabled.
  unfoldable pub restart_checks : RestartConfig F → List (Bool × Problem)
  restart_checks r =
      not_positive_of "agent.restart.initial_backoff" r.initial_backoff
      ∷ not_positive_of "agent.restart.max_backoff" r.max_backoff
      ∷ not_positive_of "agent.restart.window" r.window
      ∷ (signed_lt r.max_backoff r.initial_backoff, problem "agent.restart.initial_backoff" exceeds)
      ∷ not_positive_of "agent.restart.max_restarts" r.max_restarts
      ∷ (
        not (parsers.in_unit r.jitter_fraction),
        problem "agent.restart.jitter_fraction" out_of_range,
      )
      ∷ (
        signed_lt 0 r.max_restarts
            && signed_lt 0 r.window
            && signed_lt r.window (r.max_restarts * r.initial_backoff % 2 ^ 64),
        problem "agent.restart.window" window_too_short,
      )
      ∷ []

  -- The part of Validate on the agent.
  unfoldable pub agent_checks : AgentConfig F → List (Bool × Problem)
  unfolding restart_checks
  agent_checks a =
      not_positive_of "agent.shutdown_timeout" a.shutdown_timeout
      ∷ not_positive_of "agent.module_stop_timeout" a.module_stop_timeout
      ∷ not_positive_of "agent.module_start_timeout" a.module_start_timeout
      ∷ not_positive_of "agent.health_interval" a.health_interval
      ∷ not_positive_of "agent.health_probe_timeout" a.health_probe_timeout
      ∷ (
        signed_lt a.shutdown_timeout a.module_stop_timeout,
        problem "agent.module_stop_timeout" exceeds,
      )
      ∷ (
        signed_lt a.health_interval a.health_probe_timeout,
        problem "agent.health_probe_timeout" exceeds,
      )
      ∷ not_positive_of "agent.diagnostics_retention" a.diagnostics_retention
      ∷ (if a.restart.enabled then restart_checks a.restart else [])

  -- The last part of Validate: an exporter that sends to the agent itself.
  unfoldable pub collision_checks : Config F → List (Bool × Problem)
  unfolding loopback_collision blank trim_space
  collision_checks c =
      let listen = listen_of (module_for c.modules "otel-engine").settings in
      if blank listen
      then []
      else (
        not (blank c.otlp.endpoint) && loopback_collision (trim_space listen) c.otlp.endpoint,
        problem "export.otlp.endpoint" loops_back,
      )
        ∷ (
          not (blank c.native.endpoint) && loopback_collision (trim_space listen) c.native.endpoint,
          problem "export.native.endpoint" loops_back,
        )
        ∷ []

  -- The part of Validate on the exporters.
  unfoldable pub export_checks : Config F → List (Bool × Problem)
  unfolding otlp_checks native_checks collision_checks
  export_checks c = otlp_checks c.otlp ++ (native_checks c.native ++ collision_checks c)

  -- What Validate asks once the defaults are filled in.
  unfoldable pub config_checks : Config F → List (Bool × Problem)
  unfolding agent_checks module_checks export_checks
  config_checks c =
      (not (c.schema_version == 1), problem "schema_version" unsupported_version)
      ∷ (agent_checks c.agent ++ (modules_checks (sort_by by_id c.modules) ++ export_checks c))

  -- Validate; the configuration is valid where there are no problems.
  unfoldable pub validate : Config F → List Problem
  unfolding with_defaults config_checks
  validate c = failures (config_checks (with_defaults c))
