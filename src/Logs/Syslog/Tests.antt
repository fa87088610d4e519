-- ===== src/Logs/Syslog/Tests.antt =====
-- Syslog messages and timestamps at small inputs.
use my_own_agent.Prelude.{◌≡◌, refl, true, false, none, some, List, [], ◌∷◌, any}
use my_own_agent.Logs.Severity.{Bytes}
use my_own_agent.Logs.Timestamps.{is_clock_time}
use my_own_agent.Logs.Syslog.{Clock, atoi, process_number}
use my_own_agent.Logs.Syslog.Framing.{read_connection}
use my_own_agent.Logs.Syslog.Framing.Reading.{send}
use my_own_agent.Logs.Syslog.Framing.Lines.{
  Sent, sized, line, void, frames_of, texts, ill_sent, read_connection-send,
}
use my_own_agent.Logs.Syslog.Wire.{Wire}
use my_own_agent.Logs.Syslog.RoundTrip.{received}

abbrev clock : Clock
clock = record { rfc3339 = λ s. some 1; stamp = λ s. none }

-- <34>1 T h su 12 - [a b="]"][c] hi
abbrev wire : Wire
wire = record {
  priority = 51 ∷ 52 ∷ [];
  time = 84 ∷ [];
  hostname = 104 ∷ [];
  app_name = 115 ∷ 117 ∷ [];
  procid = 49 ∷ 50 ∷ [];
  msgid = 45 ∷ [];
  elements =
      record { name = 97 ∷ []; params = record { name = 98 ∷ []; value = 93 ∷ [] } ∷ [] }
      ∷ record { name = 99 ∷ []; params = [] }
      ∷ [];
  marked = true;
  body = 104 ∷ 105 ∷ [];
}

process_12 : (received clock wire 34).pid ≡ 12
unfolding process_number
process_12 = refl

-- [14:26:25]
abbrev bare_clock : Bytes
bare_clock = 91 ∷ 49 ∷ 52 ∷ 58 ∷ 50 ∷ 54 ∷ 58 ∷ 50 ∷ 53 ∷ 93 ∷ []

bare_clock_time : is_clock_time (49 ∷ 52 ∷ 58 ∷ 50 ∷ 54 ∷ 58 ∷ 50 ∷ 53 ∷ 93 ∷ []) ≡ true
unfolding is_clock_time
bare_clock_time = refl

-- "2 hi", "<1>" with a carriage return, and an empty line, on one connection.
abbrev three_sent : List Sent
three_sent = sized (50 ∷ []) (104 ∷ 105 ∷ []) ∷ line (60 ∷ 49 ∷ []) 62 1 ∷ void 0 ∷ []

three_sent_well : any ill_sent three_sent ≡ false
unfolding atoi
three_sent_well = refl

read_connection-send_example : read_connection (send (frames_of three_sent)) ≡ texts three_sent
read_connection-send_example = read_connection-send three_sent three_sent_well
