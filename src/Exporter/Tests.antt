-- ===== src/Exporter/Tests.antt =====
-- The exporter at small inputs.
use my_own_agent.Prelude.{ℕ, ◌+◌, ◌≡◌, refl, true, false, List, [], ◌∷◌}
use my_own_agent.Telemetry.{Text}
use my_own_agent.Telemetry.Instruments.{LogRecord}
use my_own_agent.Exporter.{signal_metrics, Config, no_response, Post, post}
use my_own_agent.Exporter.Circuit.{Call, behind, judged, Agrees, behind-Agrees}
use my_own_agent.Exporter.Accounts.{
  LogCall, log, export, logged, sent, emitted, Balanced, logged-Balanced,
}

abbrev config : Config
config = record { has_endpoint = true; max_batch = 1; spools = true; circuit_open_for = 30 }

abbrev failing : ℕ → Post
failing now = record {
  now = now;
  later = now + 1;
  compressed = 5;
  has_url = true;
  done = λ k. false;
  reply = λ k. no_response;
}

abbrev call_at : ℕ → Call
call_at now = record { signal = signal_metrics; body = 1 ∷ []; at = failing now }

-- Six posts: the fifth opens the circuit, and the last one meets it open.
abbrev six_calls : List Call
six_calls = call_at 15 ∷ call_at 14 ∷ call_at 13 ∷ call_at 12 ∷ call_at 11 ∷ call_at 10 ∷ []

six_open : (behind config six_calls).open_until ≡ 45
unfolding post
six_open = refl

behind-Agrees_example : Agrees (behind config six_calls) (judged config six_calls)
behind-Agrees_example = behind-Agrees config six_calls

abbrev line : LogRecord
line = record { timestamp = 1; severity = 0; body = 104 ∷ []; attrs = [] }

abbrev encode_none : List LogRecord → Text
encode_none batch = 1 ∷ []

-- Three logs come in, of which the queue holds two and the batch one.
abbrev log_calls : List LogCall
log_calls = export (failing 10) ∷ log line ∷ log line ∷ log line ∷ []

logged-Balanced_example :
    Balanced 1
      (emitted config encode_none log_calls)
      (sent config encode_none log_calls)
      (logged config encode_none log_calls)
logged-Balanced_example = logged-Balanced config encode_none log_calls
