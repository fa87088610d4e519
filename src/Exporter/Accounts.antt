-- ===== src/Exporter/Accounts.antt =====
-- Every log that the exporter takes in is accounted for (EmitLog and exportLogs of
-- internal/platform/native/exporter.go).
use my_own_agent.Prelude.{
  ℕ, zero, suc, ◌+◌, ◌-◌, ◌*◌, ◌%◌, ◌^◌, ◌≤◌, ◌≡◌, refl, true, List, [], ◌∷◌, ◌==◌, not, ◌||◌, ltb,
  length, length-append, take, leb, if_cases, arith,
}
use my_own_agent.Telemetry.{Text}
use my_own_agent.Telemetry.Instruments.{LogRecord}
use my_own_agent.Exporter.{
  Signal, signal_logs, Config, Effect, Exporter, new_exporter, emit_log, circuit_open, trip_circuit,
  Verdict, delivered, gave_up, cancelled, settle, attempts, max_retries, max_body, Post, post,
  take_logs, export_logs,
}

-- A change that leaves the queue of logs and its count alone.
record Keeps (e after : Exporter) : Type 0 where
  logs : after.logs ≡ e.logs
  dropped : after.dropped_logs ≡ e.dropped_logs

settle-Keeps :
    (c : Config) (signal : Signal) (body : Text) (later : ℕ) (v : Verdict) (e : Exporter)
    → Keeps e (settle c signal body later v e).0
unfolding settle trip_circuit
settle-Keeps c signal body later delivered e = record { logs = refl; dropped = refl }
settle-Keeps c signal body later cancelled e = record { logs = refl; dropped = refl }
settle-Keeps c signal body later gave_up e =
    if_cases (λ (r : Exporter × List Effect). Keeps e r.0) (leb 5 (e.failures + 1))
      (λ _. record { logs = refl; dropped = refl }) (λ _. record { logs = refl; dropped = refl })

post-Keeps :
    (c : Config) (signal : Signal) (body : Text) (p : Post) (e : Exporter)
    → Keeps e (post c signal body p e).0
unfolding post
post-Keeps c signal body p e =
    if_cases P (length body == 0 || not c.has_endpoint)
      (λ _. record { logs = refl; dropped = refl })
      λ _.
        if_cases P (circuit_open p.now e) (λ _. record { logs = refl; dropped = refl })
          λ _.
            if_cases P (ltb max_body p.compressed || not p.has_url)
              (λ _. record { logs = refl; dropped = refl })
              (λ _. settle-Keeps c signal body p.later (attempts max_retries p.done p.reply 0) e)
  where
    P : Exporter × List Effect → Type 0
    P r = Keeps e r.0

-- A call that has to do with logs.
pub data LogCall : Type 0 where
  log : LogRecord → LogCall
  export : Post → LogCall

module _ (c : Config) (encode : List LogRecord → Text) where
  -- The exporter behind a history of calls, the last one first.
  abbrev pub logged : List LogCall → Exporter
  logged [] = new_exporter
  logged (log rec ∷ past) = (emit_log c rec (logged past)).0
  logged (export p ∷ past) = (export_logs c encode p (logged past)).0

  -- How many logs were put into batches, and how many came in.
  abbrev pub sent : List LogCall → ℕ
  sent [] = 0
  sent (log rec ∷ past) = sent past
  sent (export p ∷ past) = sent past + length (take_logs c (logged past)).0

  abbrev pub emitted : List LogCall → ℕ
  emitted [] = 0
  emitted (log rec ∷ past) = emitted past + 1
  emitted (export p ∷ past) = emitted past

-- The accounts of an exporter that has taken `came` logs in and put `went` of them into batches: the
-- others are held or counted as dropped, in 64 bits, and the queue is within its bound.
pub record Balanced (max came went : ℕ) (e : Exporter) : Type 0 where
  pub balance : (went + length e.logs + e.dropped_logs) % 2 ^ 64 ≡ came % 2 ^ 64
  pub bound : length e.logs ≤ max * 2

length-take : {A : Type 0} (n : ℕ) (xs : List A) → length (take n xs) + (length xs - n) ≡ length xs
length-take zero xs = omega arith
length-take (suc n) [] = omega arith
length-take (suc n) (x ∷ xs) = omega (arith, length-take n xs)

emit_log-Balanced :
    (c : Config) (rec : LogRecord) (came went : ℕ) (e : Exporter)
    → Balanced c.max_batch came went e
    → Balanced c.max_batch (came + 1) went (emit_log c rec e).0
unfolding emit_log
emit_log-Balanced c rec came went e b =
    if_cases (Balanced c.max_batch (came + 1) went) (leb (c.max_batch * 2) (length e.logs))
      (λ _. record { balance = omega (arith, b.balance); bound = b.bound })
      (λ h. record {
        balance = omega (arith, b.balance, length-append e.logs (rec ∷ []));
        bound = ground (arith, h, length-append e.logs (rec ∷ []));
      })

Keeps-Balanced :
    (max came went : ℕ) (e after : Exporter)
    → Keeps e after
    → Balanced max came went e
    → Balanced max came went after
Keeps-Balanced max came went e after k b = record {
  balance = ground (arith, k.logs, k.dropped, b.balance);
  bound = ground (arith, k.logs, b.bound);
}

take_logs-Balanced :
    (c : Config) (came went : ℕ) (e : Exporter)
    → Balanced c.max_batch came went e
    → Balanced c.max_batch came (went + length (take_logs c e).0) (take_logs c e).1
unfolding take_logs
take_logs-Balanced c came went e b = record {
  balance = omega (arith, b.balance, length-take c.max_batch e.logs);
  bound = omega arith;
}

export_logs-Balanced :
    (c : Config) (encode : List LogRecord → Text) (p : Post) (came went : ℕ) (e : Exporter)
    → Balanced c.max_batch came went e
    → Balanced c.max_batch came (went + length (take_logs c e).0) (export_logs c encode p e).0
unfolding export_logs
export_logs-Balanced c encode p came went e b =
    if_cases
      (λ (r : Exporter × List Effect).
        Balanced c.max_batch came (went + length (take_logs c e).0) r.0)
      (length e.logs == 0) (λ h. none_taken h)
      (λ _.
        Keeps-Balanced c.max_batch came _ (take_logs c e).1 _
          (post-Keeps c signal_logs (encode (take_logs c e).0) p (take_logs c e).1)
          (take_logs-Balanced c came went e b))
  where
    none_taken :
        length e.logs == 0 ≡ true → Balanced c.max_batch came (went + length (take_logs c e).0) e
    none_taken h = record {
      balance = ground (arith, h, b.balance, length-take c.max_batch e.logs);
      bound = b.bound;
    }

-- Behind any history of logs that come in and of exports, each log has been put into a batch, is
-- held, or is counted as dropped, in 64 bits, and the queue holds two batches at most.
pub logged-Balanced :
    (c : Config) (encode : List LogRecord → Text) (past : List LogCall)
    → Balanced c.max_batch (emitted c encode past) (sent c encode past) (logged c encode past)
logged-Balanced c encode [] = record { balance = refl; bound = omega arith }
logged-Balanced c encode (log rec ∷ past) =
    emit_log-Balanced c rec _ _ (logged c encode past) (logged-Balanced c encode past)
logged-Balanced c encode (export p ∷ past) =
    export_logs-Balanced c encode p _ _ (logged c encode past) (logged-Balanced c encode past)
