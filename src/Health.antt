-- ===== src/Health.antt =====
-- The health model and its aggregation (internal/health/health.go).
pub mod Worst
use my_own_agent.Prelude.{
  ℕ, String, Bool, false, true, not, ◌&&◌, Option, none, some, List, [], ◌∷◌, ltb, ◌==◌, str_eq,
  str_lt, sort_by, if◌then◌else◌,
}
use my_own_agent.Diagnostics.{Record}

-- Status, an int: `invalid` is every number but those of the four constants.
pub data Status : Type 0 where
  unknown healthy degraded unhealthy : Status
  invalid : ℕ → Status

-- (Status).severity
unfoldable pub severity : Status → ℕ
severity healthy = 0
severity unknown = 1
severity degraded = 2
severity unhealthy = 3
severity (invalid n) = 3

-- WorseOf
unfoldable pub worse_of : Status → Status → Status
unfolding severity
worse_of a b = if ltb (severity a) (severity b) then b else a

pub record Report : Type 0 where
  pub status : Status
  pub message : String
  pub diagnostics : List Record

-- OK, DegradedReport and UnhealthyReport.
abbrev pub ok_report : String → Report
ok_report message = record { status = healthy; message = message; diagnostics = [] }

abbrev pub degraded_report : String → List Record → Report
degraded_report message diags = record { status = degraded; message = message; diagnostics = diags }

abbrev pub unhealthy_report : String → List Record → Report
unhealthy_report message diags = record {
  status = unhealthy;
  message = message;
  diagnostics = diags;
}

pub record ComponentHealth : Type 0 where
  pub id : String
  pub required : Bool
  pub report : Report

pub record Aggregate : Type 0 where
  pub status : Status
  pub components : List ComponentHealth

-- `s == Unhealthy`
abbrev pub is_unhealthy : Status → Bool
is_unhealthy unhealthy = true
is_unhealthy _ = false

-- The status that a component contributes: that of an optional one is capped.
unfoldable pub contributes : ComponentHealth → Status
contributes c = if not c.required && is_unhealthy c.report.status then degraded else c.report.status

-- The loop of AggregateOf.
unfoldable pub aggregate_loop : Status → List ComponentHealth → Status
unfolding worse_of contributes
aggregate_loop status [] = status
aggregate_loop status (c ∷ cs) = aggregate_loop (worse_of status (contributes c)) cs

abbrev pub id_lt : ComponentHealth → ComponentHealth → Bool
id_lt a b = str_lt a.id b.id

-- The status that AggregateOf gives to the sorted components.
unfoldable pub aggregate_status : List ComponentHealth → Status
unfolding aggregate_loop
aggregate_status [] = unknown
aggregate_status (c ∷ cs) = aggregate_loop healthy (c ∷ cs)

-- AggregateOf
unfoldable pub aggregate_of : List ComponentHealth → Aggregate
unfolding aggregate_status sort_by
aggregate_of components =
    let sorted = sort_by id_lt components in
    record { status = aggregate_status sorted; components = sorted }

-- (Aggregate).Component
find_component : String → List ComponentHealth → Option ComponentHealth
find_component id [] = none
find_component id (c ∷ cs) = if str_eq c.id id then some c else find_component id cs
