-- ===== src/Tests.antt =====
-- The theorems on diagnostics and health at small inputs.
use my_own_agent.Prelude.{◌≡◌, ◌≢◌, ◌||◌, String, true, false, [], ◌∷◌, leb, any, arith, eq_iff}
use my_own_agent.Diagnostics.{Record, warn}
use my_own_agent.Health.{ComponentHealth, ok_report, unhealthy_report, severity, aggregate_of}
use my_own_agent.Health.Worst.{at_least, base, leb-aggregate_of}

abbrev disk_full : Record
disk_full = record {
  code = "disk";
  severity = warn;
  source = "forged";
  message = "the disk is full";
  remediation = "";
  attrs = [];
  timestamp = 0;
}

host_logs : ◌≢◌ {A = String} "host" "logs"
host_logs = ground (arith, eq_iff "host" "logs")

abbrev host : ComponentHealth
host = record { id = "host"; required = true; report = ok_report "" }

abbrev logs : ComponentHealth
logs = record { id = "logs"; required = false; report = unhealthy_report "no file" [] }

leb-aggregate_of_example :
    leb 2 (severity (aggregate_of (logs ∷ host ∷ [])).status)
    ≡ (leb 2 (base (logs ∷ host ∷ [])) || any (at_least 2) (logs ∷ host ∷ []))
leb-aggregate_of_example = leb-aggregate_of 2 (logs ∷ host ∷ [])
