-- ===== src/Logs/Syslog/Queue/Tests.antt =====
-- A run of the queue at concrete messages.
use my_own_agent.Prelude.{refl, none, List, [], ◌∷◌, arith}
use my_own_agent.Logs.Syslog.{Clock}
use my_own_agent.Logs.Syslog.Queue.Recent.{
  Operation, arrives, reads, History, run, IsRecent, run-IsRecent,
}

abbrev clock : Clock
clock = record { rfc3339 = λ _. none; stamp = λ _. none }

abbrev fresh : History
fresh = record { listener = record { queue = []; dropped = 0 }; given = []; handed_on = [] }

-- Two messages, of which one is read.
abbrev traffic : List Operation
traffic = arrives none (104 ∷ 105 ∷ []) ∷ arrives none (120 ∷ 13 ∷ 10 ∷ []) ∷ reads 1 ∷ []

run-IsRecent_example : IsRecent (run clock traffic fresh)
run-IsRecent_example =
    run-IsRecent clock traffic fresh
      (record { earlier = []; parts = refl; bounded = omega arith; counted = refl })
