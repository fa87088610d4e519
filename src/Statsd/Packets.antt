-- ===== src/Statsd/Packets.antt =====
-- What a packet does to the telemetry (applyPacket of internal/modules/statsd/statsd.go).
use my_own_agent.Prelude.{
  ◌≡◌, refl, ◌∙◌, Bool, true, false, ◌==◌, Option, none, some, List, [], ◌∷◌, length, if_cases,
  arith,
}
use my_own_agent.Telemetry.{Text}
use my_own_agent.Telemetry.Instruments.{Telemetry}
use my_own_agent.Telemetry.Bounds.{Bounded, add-Bounded, set-Bounded, observe-Bounded}
use my_own_agent.Statsd.{
  Numbers, trim_space, split, Kind, counts, gauges, measures, Sample, read_line, apply_sample,
  apply_line, apply_lines, apply_packet,
}

module _ {F : Type 0} (n : Numbers F) where
  apply_sample-Bounded : (s : Sample F) (t : Telemetry F) → Bounded t → Bounded (apply_sample n s t)
  unfolding apply_sample
  apply_sample-Bounded s t b = go s.kind
    where
      go : (k : Kind) → Bounded (apply_sample n (record s { kind = k }) t)
      go counts = add-Bounded s.name (n.to_int s.value) s.attrs t b
      go gauges = set-Bounded s.name s.value s.attrs t b
      go measures = observe-Bounded n.floats s.name s.value s.attrs t b

  apply_line-Bounded : (line : Text) (t : Telemetry F) → Bounded t → Bounded (apply_line n line t).0
  unfolding apply_line
  apply_line-Bounded line t b = go (read_line n line)
    where
      go :
          (o : Option (Sample F))
          → Bounded
              (elim o as (λ _. Telemetry F × Bool) [
                | none ↦ (t, false)
                | some s ↦ (apply_sample n s t, true)
              ]).0
      go none = b
      go (some s) = apply_sample-Bounded s t b

  apply_lines-Bounded :
      (lines : List Text) (t : Telemetry F) (ok : Bool)
      → Bounded t
      → Bounded (apply_lines n lines t ok).0
  unfolding apply_lines
  apply_lines-Bounded [] t ok b = b
  apply_lines-Bounded (line ∷ lines) t ok b =
      if_cases (λ (r : Telemetry F × Bool). Bounded r.0) (length (trim_space line) == 0)
        (λ _. apply_lines-Bounded lines t ok b)
        (λ _. apply_lines-Bounded lines _ _ (apply_line-Bounded (trim_space line) t b))

  -- The telemetry keeps its bounds whatever packet comes in.
  apply_packet-Bounded :
      (packet : Text) (t : Telemetry F) → Bounded t → Bounded (apply_packet n packet t).0
  unfolding apply_packet
  apply_packet-Bounded packet t b = apply_lines-Bounded (split 10 packet) t false b

  apply_line-refused :
      (line : Text) (t : Telemetry F)
      → (apply_line n line t).1 ≡ false
      → (apply_line n line t).0 ≡ t
  unfolding apply_line
  apply_line-refused line t = go (read_line n line)
    where
      R : Option (Sample F) → Telemetry F × Bool
      R o = elim o [ none ↦ (t, false) | some s ↦ (apply_sample n s t, true) ]

      go : (o : Option (Sample F)) → (R o).1 ≡ false → (R o).0 ≡ t
      go none h = refl
      go (some s) h = absurd (ground arith)

  -- A packet with a line that has been applied is not refused.
  apply_lines-true : (lines : List Text) (t : Telemetry F) → (apply_lines n lines t true).1 ≡ true
  unfolding apply_lines
  apply_lines-true [] t = refl
  apply_lines-true (line ∷ lines) t =
      if_cases (λ (r : Telemetry F × Bool). r.1 ≡ true) (length (trim_space line) == 0)
        (λ _. apply_lines-true lines t) (λ _. apply_lines-true lines _)

  apply_lines-refused :
      (lines : List Text) (t : Telemetry F)
      → (apply_lines n lines t false).1 ≡ false
      → (apply_lines n lines t false).0 ≡ t
  unfolding apply_lines
  apply_lines-refused [] t = λ _. refl
  apply_lines-refused (line ∷ lines) t =
      if_cases (λ (r : Telemetry F × Bool). r.1 ≡ false → r.0 ≡ t) (length (trim_space line) == 0)
        (λ _. apply_lines-refused lines t)
        (λ _.
          go (apply_line n (trim_space line) t).1 (apply_line-refused (trim_space line) t)
            (apply_lines-refused lines))
    where
      after : Telemetry F
      after = (apply_line n (trim_space line) t).0

      go :
          (b : Bool)
          → (b ≡ false → after ≡ t)
          → ((u : Telemetry F)
              → (apply_lines n lines u false).1 ≡ false
              → (apply_lines n lines u false).0 ≡ u)
          → (apply_lines n lines after b).1 ≡ false
          → (apply_lines n lines after b).0 ≡ t
      go true same rest h = absurd (ground (arith, h, apply_lines-true lines after))
      go false same rest h = rest after h ∙ same refl

  -- A packet that is refused leaves the telemetry as it was.
  pub apply_packet-refused :
      (packet : Text) (t : Telemetry F)
      → (apply_packet n packet t).1 ≡ false
      → (apply_packet n packet t).0 ≡ t
  unfolding apply_packet
  apply_packet-refused packet t h = apply_lines-refused (split 10 packet) t h
