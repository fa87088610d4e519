-- ===== src/Config/Tests.antt =====
-- Runs of the configuration at concrete inputs.
use my_own_agent.Prelude.{
  ℕ, ◌^◌, ◌≡◌, refl, true, false, none, some, List, [], ◌∷◌, ltb, str_lt, sort_by, if◌then◌else◌,
  arith, ok,
}
use my_own_agent.Telemetry.{Attr, text_eq, render}
use my_own_agent.Statsd.{trim_space}
use my_own_agent.Config.{Config, default_config, blank, apply_otlp_defaults, apply_native_defaults}
use my_own_agent.Config.Validation.{
  Parsers, validate, with_defaults, config_checks, agent_checks, restart_checks, module_checks,
  export_checks, otlp_checks, native_checks, collision_checks, unknown_of, bad_endpoint,
}
use my_own_agent.Config.Loading.{Sources, load, toggle_key, parse_header_list}
use my_own_agent.Config.Loaded.{Outcome, load-Outcome}
use my_own_agent.Config.Headers.{put_all, parse_header_list-render}

-- Fractions in hundredths, and parsers that read nothing.
abbrev parsers : Parsers ℕ
parsers = record { in_unit = λ f. ltb f 100; url_host = λ _. none; split_host_port = λ _. none }

unfoldable logs_only : Config ℕ
unfolding default_config
logs_only = record (default_config 20 100) {
  modules =
      ("logs", record { enabled = true; required = true; settings = [] })
      ∷ ("host", record { enabled = false; required = false; settings = [] })
      ∷ [];
}

logs_only_valid : validate parsers logs_only ≡ []
unfolding logs_only validate with_defaults config_checks agent_checks restart_checks module_checks
    export_checks otlp_checks native_checks collision_checks unknown_of bad_endpoint blank
    trim_space apply_otlp_defaults apply_native_defaults default_config sort_by str_lt
logs_only_valid = refl

-- The environment enables the module `host`.
abbrev sources : Sources ℕ
sources = record {
  parsers = parsers;
  env = λ key. if text_eq key (toggle_key "host") then some (49 ∷ []) else none;
  parse_duration = λ _. none;
  parse_bool = λ raw. if text_eq raw (49 ∷ []) then some true else none;
}

load-Outcome_example : Outcome sources 6 logs_only (load sources 6 (some logs_only))
load-Outcome_example = load-Outcome sources 6 logs_only

abbrev headers : List Attr
headers =
    record { key = 97 ∷ []; value = 98 ∷ 32 ∷ 99 ∷ [] }
    ∷ record { key = 100 ∷ []; value = 61 ∷ [] }
    ∷ []

parse_header_list-render_example : parse_header_list (render headers) ≡ ok (put_all headers [])
parse_header_list-render_example = parse_header_list-render headers (
  record {
    key_trimmed = (refl, refl);
    value_trimmed = (refl, refl);
    key_some = ground arith;
    value_some = ground arith;
    key_plain = refl;
    value_plain = refl;
  },
  (
    record {
      key_trimmed = (refl, refl);
      value_trimmed = (refl, refl);
      key_some = ground arith;
      value_some = ground arith;
      key_plain = refl;
      value_plain = refl;
    },
    tt,
  ),
)

-- A budget of four restarts, each 2 ^ 62 nanoseconds after the failure before, passes for one that
-- fits into a window of one nanosecond.
unfoldable overflowing : Config ℕ
unfolding logs_only default_config
overflowing = record logs_only {
  agent = record logs_only.agent {
    restart = record logs_only.agent.restart {
      initial_backoff = 2 ^ 62;
      max_backoff = 2 ^ 62;
      max_restarts = 4;
      window = 1;
    };
  };
}

overflowing_valid : validate parsers overflowing ≡ []
unfolding overflowing logs_only validate with_defaults config_checks agent_checks restart_checks
    module_checks export_checks otlp_checks native_checks collision_checks unknown_of bad_endpoint
    blank trim_space apply_otlp_defaults apply_native_defaults default_config sort_by str_lt
overflowing_valid = refl
