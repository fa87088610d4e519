-- ===== src/Logs/Tests.antt =====
-- The aggregation of lines at small inputs.
use my_own_agent.Prelude.{ℕ, ◌≡◌, refl, true, false, List, [], ◌∷◌, ◌++◌}
use my_own_agent.Logs.Multiline.{LogRecord, Line, new_file, flush_file, add_all}
use my_own_agent.Logs.Multiline.Lossless.{text_of, text_of_lines, add_all-flush_file}
use my_own_agent.Logs.Multiline.Bounds.{Bounded, add_all-Bounded}
use my_own_agent.Logs.Multiline.Batch.{Settings, Files, multiline_off}

abbrev logged : List ℕ → LogRecord
logged body = record { body = body; is_file = true; file = "app.log"; origin = "" }

-- A start of a record after the detection window, so that aggregation is decided on, and a record of
-- two lines.
abbrev trace : List Line
trace =
    record { now = 30000000000; starts = true; pattern = ""; rec = logged (65 ∷ []) }
    ∷ record { now = 30000000001; starts = true; pattern = ""; rec = logged (66 ∷ []) }
    ∷ record { now = 30000000002; starts = false; pattern = ""; rec = logged (67 ∷ []) }
    ∷ []

add_all-flush_file_example :
    let done = add_all trace (new_file 0) in
    text_of (done.1 ++ (flush_file done.0).1) ≡ text_of_lines trace
add_all-flush_file_example = add_all-flush_file 0 trace

add_all-Bounded_example : Bounded (add_all trace (new_file 0)).0
add_all-Bounded_example = add_all-Bounded 0 trace

-- The record of two lines is held back.
two_lines : (add_all trace (new_file 0)).0.buf ≡ 66 ∷ 10 ∷ 67 ∷ []
unfolding add_all
two_lines = refl

abbrev switched_off : Settings
switched_off = record { multiline = multiline_off; pattern = ""; timeout = 0 }

abbrev one_file : Files
one_file = ("app.log", (add_all trace (new_file 0)).0) ∷ []
