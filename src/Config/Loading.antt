-- ===== src/Config/Loading.antt =====
-- The loader (internal/config/load.go). os.LookupEnv, time.ParseDuration and strconv.ParseBool are
-- arguments, and so is what the decoder of JSON makes of a file, over the defaults.
use my_own_agent.Prelude.{
  ℕ, ◌+◌, ◌-◌, ◌%◌, ◌^◌, String, Bool, Option, none, some, List, [], ◌∷◌, ◌++◌, ◌==◌, str_eq, codes,
  sort_by, if◌then◌else◌, Result, ok, err, put,
}
use my_own_agent.Supervisor.Ids.{ModuleId}
use my_own_agent.Telemetry.{Text, text_eq, cut, comma, equals}
use my_own_agent.Statsd.{trim_space, split}
use my_own_agent.Logs.Severity.{between}
use my_own_agent.Config.{ModuleConfig, AgentConfig, Config, blank, module_for, default_config}
use my_own_agent.Config.Validation.{Problem, malformed, Parsers, by_id, with_defaults, validate}

-- What the loader takes from other packages and from its environment.
pub record Sources (F : Type 0) : Type 0 where
  pub parsers : Parsers F
  pub env : Text → Option Text
  pub parse_duration : Text → Option ℕ
  pub parse_bool : Text → Option Bool

-- One part of a list of headers, between two commas, put into the map.
unfoldable pub add_header : Text → List (Text × Text) → Result Text (List (Text × Text))
unfolding cut trim_space blank
add_header raw out =
    let part = trim_space raw in
    if blank raw then ok out else elim (cut equals part) [
      | none ↦ err part
      | some (k, v) ↦
          if blank k
          then err part
          else if blank v
          then err part
          else ok (put text_eq (trim_space k) (trim_space v) out)
    ]

-- The loop over the parts.
unfoldable pub add_headers : List Text → List (Text × Text) → Result Text (List (Text × Text))
unfolding add_header
add_headers [] out = ok out
add_headers (part ∷ parts) out = elim (add_header part out) [
  | ok out' ↦ add_headers parts out'
  | err e ↦ err e
]

-- parseHeaderList
unfoldable pub parse_header_list : Text → Result Text (List (Text × Text))
unfolding add_headers trim_space blank
parse_header_list raw = if blank raw then ok [] else add_headers (split comma (trim_space raw)) []

-- strings.ToUpper(strings.ReplaceAll(id, "-", "_"))
abbrev upper : Text → Text
upper [] = []
upper (c ∷ cs) = (if c == 45 then 95 else if between 97 122 c then c - 32 else c) ∷ upper cs

-- The variable that toggles a module.
abbrev pub toggle_key : ModuleId → Text
toggle_key id = codes "OBSAGENT_MODULE_" ++ (upper (codes id) ++ codes "_ENABLED")

abbrev bad_variable : Text → Problem
bad_variable key = record { field = "environment"; item = key; reason = malformed }

-- The configuration and the problems while applyEnv runs.
pub record Overlay (F : Type 0) : Type 0 where
  pub config : Config F
  pub problems : List Problem

-- What follows the reading of a variable's value.
abbrev pub assigned :
    {F A : Type 0} → Text → (A → Config F → Config F) → Overlay F → Option A → Overlay F
assigned key assign o none = record o { problems = o.problems ++ bad_variable key ∷ [] }
assigned key assign o (some v) = record o { config = assign v o.config }

-- What follows the look-up of a variable.
abbrev pub overridden :
    {F A : Type 0}
    → Text
    → (Text → Option A)
    → (A → Config F → Config F)
    → Overlay F
    → Option Text
    → Overlay F
overridden key read assign o none = o
overridden key read assign o (some raw) = assigned key assign o (read raw)

-- A refused configuration.
pub data LoadError : Type 0 where
  undecodable : LoadError
  invalid : List Problem → LoadError

-- The configuration with the next revision, where neither applyEnv nor Validate has a problem.
abbrev pub stamp_revision :
    {F : Type 0} → ℕ → Config F → List Problem → List Problem → ℕ × Result LoadError (Config F)
stamp_revision revision c (p ∷ ps) found = (revision, err (invalid (p ∷ ps)))
stamp_revision revision c [] (p ∷ ps) = (revision, err (invalid (p ∷ ps)))
stamp_revision revision c [] [] =
    let next = (revision + 1) % 2 ^ 64 in (next, ok (record c { revision = next }))

module _ {F : Type 0} (sources : Sources F) where
  -- A variable, if it is set: its value is applied, or reported where it cannot be read.
  abbrev pub override :
      {A : Type 0} → Text → (Text → Option A) → (A → Config F → Config F) → Overlay F → Overlay F
  override key read assign o = overridden key read assign o (sources.env key)

  -- setDuration
  abbrev set_duration : String → (ℕ → AgentConfig F → AgentConfig F) → Overlay F → Overlay F
  set_duration name assign =
      override (codes name) sources.parse_duration (λ d c. record c { agent = assign d c.agent })

  -- The variables of the agent.
  unfoldable pub override_agent : Overlay F → Overlay F
  override_agent o =
      override (codes "OBSAGENT_RESTART_ENABLED") sources.parse_bool
        (λ b c. record c { agent = restart_enabled b c.agent })
        (set_duration "OBSAGENT_HEALTH_PROBE_TIMEOUT" (λ d a. record a { health_probe_timeout = d })
          (set_duration "OBSAGENT_HEALTH_INTERVAL" (λ d a. record a { health_interval = d })
            (set_duration "OBSAGENT_MODULE_START_TIMEOUT"
              (λ d a. record a { module_start_timeout = d })
              (set_duration "OBSAGENT_MODULE_STOP_TIMEOUT"
                (λ d a. record a { module_stop_timeout = d })
                (set_duration "OBSAGENT_SHUTDOWN_TIMEOUT" (λ d a. record a { shutdown_timeout = d })
                  o)))))
    where
      restart_enabled : Bool → AgentConfig F → AgentConfig F
      restart_enabled b a = record a { restart = record a.restart { enabled = b } }

  -- cfg.Modules[id].Enabled = b
  abbrev pub toggle :
      ModuleId → Bool → List (ModuleId × ModuleConfig) → List (ModuleId × ModuleConfig)
  toggle id b modules = put str_eq id (record (module_for modules id) { enabled = b }) modules

  -- The loop over the modules.
  unfoldable pub toggle_each : List (ModuleId × ModuleConfig) → Overlay F → Overlay F
  toggle_each [] o = o
  toggle_each ((id, mc) ∷ ms) o = toggle_each ms (
      override (toggle_key id) sources.parse_bool
        (λ b c. record c { modules = toggle id b c.modules }) o)

  -- What the map is after parseHeaderList of the value.
  abbrev read_headers : Text → Option (List (Text × Text))
  read_headers raw = elim (parse_header_list raw) [ ok headers ↦ some headers | err e ↦ none ]

  abbrev read_endpoint : Text → Option Text
  read_endpoint raw = some (trim_space raw)

  -- The variables of the exporters.
  unfoldable pub override_export : Overlay F → Overlay F
  unfolding parse_header_list trim_space
  override_export o =
      override (codes "OBSAGENT_EXPORT_HEADERS") read_headers
        (λ headers c. record c { native = record c.native { headers = headers } })
        (override (codes "OBSAGENT_EXPORT_ENDPOINT") read_endpoint
          (λ endpoint c. record c { native = record c.native { endpoint = endpoint } })
          (override (codes "OBSAGENT_OTLP_HEADERS") read_headers
            (λ headers c. record c { otlp = record c.otlp { headers = headers } })
            (override (codes "OBSAGENT_OTLP_ENDPOINT") read_endpoint
              (λ endpoint c. record c { otlp = record c.otlp { endpoint = endpoint } }) o)))

  -- applyEnv, with the problems beside the configuration.
  unfoldable pub apply_env : Config F → Overlay F
  unfolding override_agent toggle_each override_export with_defaults
  apply_env c =
      let o = override_export (
        toggle_each (sort_by by_id c.modules)
          (override_agent (record { config = c; problems = [] }))) in
      record o { config = with_defaults o.config }

  -- The end of LoadBytes and of LoadFile: the revision of the loader, and the configuration that
  -- carries it.
  unfoldable pub finish_load : ℕ → Overlay F → ℕ × Result LoadError (Config F)
  unfolding validate
  finish_load revision o =
      stamp_revision revision o.config o.problems (validate sources.parsers o.config)

  -- LoadBytes, and LoadFile of a path, from what the decoder makes of the bytes.
  unfoldable pub load : ℕ → Option (Config F) → ℕ × Result LoadError (Config F)
  unfolding apply_env finish_load with_defaults
  load revision none = (revision, err undecodable)
  load revision (some c) = finish_load revision (apply_env (with_defaults c))

  -- LoadFile without a path.
  unfoldable pub load_default : ℕ → F → F → ℕ × Result LoadError (Config F)
  unfolding apply_env finish_load default_config
  load_default revision jitter rate = finish_load revision (apply_env (default_config jitter rate))
