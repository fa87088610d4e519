-- ===== src/Exporter/Circuit.antt =====
-- The circuit breaker against the history of posts (noteSuccess, tripCircuit and post of
-- internal/platform/native/exporter.go).
use my_own_agent.Prelude.{
  ℕ, ◌+◌, ◌%◌, ◌≡◌, refl, List, [], ◌∷◌, Option, none, some, not, ◌||◌, length, subst, if_related,
  ltb, ◌==◌, if◌then◌else◌, arith,
}
use my_own_agent.Telemetry.{Text}
use my_own_agent.Exporter.{
  Signal, Config, Effect, Exporter, new_exporter, circuit_open, trip_circuit, attempts, max_retries,
  max_body, Post, post, Verdict, delivered, gave_up, cancelled, settle,
}

-- A call of post.
pub record Call : Type 0 where
  pub signal : Signal
  pub body : Text
  pub at : Post

-- The exporter behind a history of calls, the last one first.
abbrev pub behind : Config → List Call → Exporter
behind c [] = new_exporter
behind c (call ∷ past) = (post c call.signal call.body call.at (behind c past)).0

-- What comes of a call, where it is attempted: there is something to send and somewhere to send it,
-- the circuit is closed, and the body is not too large.
abbrev pub outcome : Config → ℕ → Call → Option Verdict
outcome c closes call =
    if length call.body == 0 || not c.has_endpoint
    then none
    else if ltb call.at.now closes
    then none
    else if ltb max_body call.at.compressed || not call.at.has_url
    then none
    else some (attempts max_retries call.at.done call.at.reply 0)

-- What the history says of the breaker: how many calls have been given up since the last delivery,
-- and when the circuit closes. Every fifth call given up opens it, and a delivery closes it.
pub record Judgement : Type 0 where
  pub streak : ℕ
  pub closes : ℕ

abbrev judge : Config → ℕ → Option Verdict → Judgement → Judgement
judge c later none j = j
judge c later (some delivered) j = record { streak = 0; closes = 0 }
judge c later (some gave_up) j = record {
  streak = j.streak + 1;
  closes = if (j.streak + 1) % 5 == 0 then later + c.circuit_open_for else j.closes;
}
judge c later (some cancelled) j = j

abbrev pub judged : Config → List Call → Judgement
judged c [] = record { streak = 0; closes = 0 }
judged c (call ∷ past) =
    let before = judged c past in judge c call.at.later (outcome c before.closes call) before

-- The breaker of an exporter stands as the history says.
pub record Agrees (e : Exporter) (j : Judgement) : Type 0 where
  pub failures : e.failures ≡ j.streak % 5
  pub open_until : e.open_until ≡ j.closes

settle-Agrees :
    (c : Config) (signal : Signal) (body : Text) (later : ℕ) (v : Verdict) (e : Exporter)
    (j : Judgement)
    → Agrees e j
    → Agrees (settle c signal body later v e).0 (judge c later (some v) j)
unfolding settle trip_circuit
settle-Agrees c signal body later delivered e j a = record { failures = refl; open_until = refl }
settle-Agrees c signal body later cancelled e j a = record {
  failures = a.failures;
  open_until = a.open_until;
}
settle-Agrees c signal body later gave_up e j a = record {
  failures = ground (arith, a.failures);
  open_until = ground (arith, a.failures, a.open_until);
}

post-Agrees :
    (c : Config) (call : Call) (e : Exporter) (j : Judgement)
    → Agrees e j
    → Agrees
        (post c call.signal call.body call.at e).0
        (judge c call.at.later (outcome c e.open_until call) j)
unfolding post
post-Agrees c call e j a = if_related Holds (length call.body == 0 || not c.has_endpoint) a (
    if_related Holds (circuit_open call.at.now e) a (
      if_related Holds (ltb max_body call.at.compressed || not call.at.has_url)
        (record { failures = a.failures; open_until = a.open_until })
        (settle-Agrees c call.signal call.body call.at.later _ e j a)))
  where
    Holds : Exporter × List Effect → Option Verdict → Type 0
    Holds r o = Agrees r.0 (judge c call.at.later o j)

-- Behind any history of posts, the circuit is open until the time that the history says: as long as
-- configured from the last of five posts given up with no delivery between them, unless one has been
-- delivered since. Posts that meet an open circuit do not count.
pub behind-Agrees : (c : Config) (past : List Call) → Agrees (behind c past) (judged c past)
behind-Agrees c [] = record { failures = refl; open_until = refl }
behind-Agrees c (call ∷ past) =
    let a = behind-Agrees c past in
    subst
      (λ (closes : ℕ).
        Agrees (behind c (call ∷ past))
          (judge c call.at.later (outcome c closes call) (judged c past)))
      a.open_until (post-Agrees c call (behind c past) (judged c past) a)
