-- ===== src/Logs/Syslog/Queue/Recent.antt =====
-- What the queue of the syslog listener holds (internal/modules/logs/source_syslog.go).
use my_own_agent.Prelude.{
  ℕ, zero, suc, ◌+◌, ◌%◌, ◌^◌, ◌≤◌, ◌≡◌, refl, sym, ap, subst, ◌∙◌, Option, none, some, List, [],
  ◌∷◌, ◌++◌, length, length-append, take, drop, length-drop, leb, ltb, if◌then◌else◌, if_cases,
  arith,
}
use mathlib.Core.List.{append-nil, append_assoc}
use my_own_agent.Logs.Severity.{Bytes}
use my_own_agent.Logs.Syslog.{Clock}
use my_own_agent.Logs.Syslog.Queue.{
  SyslogRecord, Listener, max_syslog_queue, read_message, queue_record, enqueue, read_batch,
}

-- A message arrives, or a cycle of the collector reads.
pub data Operation : Type 0 where
  arrives : Option Bytes → Bytes → Operation
  reads : ℕ → Operation

-- The listener with all the records that it has been given, and those that reads have handed on.
pub record History : Type 0 where
  pub listener : Listener
  pub given : List SyslogRecord
  pub handed_on : List SyslogRecord

abbrev given_by : Option SyslogRecord → List SyslogRecord
given_by none = []
given_by (some rec) = rec ∷ []

abbrev pub step : Clock → Operation → History → History
step clock (arrives peer raw) h = record h {
  listener = enqueue clock peer raw h.listener;
  given = h.given ++ given_by (read_message clock peer raw);
}
step clock (reads max) h =
    let (l, batch) = read_batch max h.listener in
    record h { listener = l; handed_on = h.handed_on ++ batch }

abbrev pub run : Clock → List Operation → History → History
run clock [] h = h
run clock (op ∷ ops) h = run clock ops (step clock op h)

-- The queue holds the latest of the records given, at most 8192 of them, and the earlier ones are as many
-- as have been handed on and dropped.
pub record IsRecent (h : History) : Type 0 where
  pub earlier : List SyslogRecord
  pub parts : h.given ≡ earlier ++ h.listener.queue
  pub bounded : length h.listener.queue ≤ 8192
  pub counted : length earlier % 2 ^ 64 ≡ (length h.handed_on + h.listener.dropped) % 2 ^ 64

take-drop : {A : Type 0} (n : ℕ) (l : List A) → take n l ++ drop n l ≡ l
take-drop zero l = refl
take-drop (suc n) [] = refl
take-drop (suc n) (x ∷ l) = ap (λ t. x ∷ t) (take-drop n l)

length-take-drop :
    {A : Type 0} (n : ℕ) (l : List A) → length (take n l) + length (drop n l) ≡ length l
length-take-drop n l = sym (length-append (take n l) (drop n l)) ∙ ap length (take-drop n l)

-- The first records of the queue join the earlier ones.
shifted :
    (n : ℕ) (given earlier queue : List SyslogRecord)
    → given ≡ earlier ++ queue
    → given ≡ (earlier ++ take n queue) ++ drop n queue
shifted n given earlier queue h =
    h
    ∙ ap (λ l. earlier ++ l) (sym (take-drop n queue))
    ∙ sym (append_assoc earlier (take n queue) (drop n queue))

queue_record-IsRecent :
    (rec : SyslogRecord) (h : History)
    → IsRecent h
    → IsRecent (record h { listener = queue_record rec h.listener; given = h.given ++ rec ∷ [] })
unfolding queue_record
queue_record-IsRecent rec h r =
    if_cases (λ (l : Listener). IsRecent (record h { listener = l; given = h.given ++ rec ∷ [] }))
      (leb max_syslog_queue (length queue))
      (λ full. record {
        earlier = r.earlier ++ take 1 queue;
        parts =
            ap (λ l. l ++ rec ∷ []) (shifted 1 h.given r.earlier queue r.parts)
            ∙ append_assoc (r.earlier ++ take 1 queue) (drop 1 queue) (rec ∷ []);
        bounded =
            ground (arith, r.bounded, length-drop 1 queue, length-append (drop 1 queue) (rec ∷ []));
        counted = ground (
          arith,
          r.counted,
          length-drop 1 queue,
          length-take-drop 1 queue,
          length-append r.earlier (take 1 queue),
        );
      })
      (λ room. record {
        earlier = r.earlier;
        parts = ap (λ l. l ++ rec ∷ []) r.parts ∙ append_assoc r.earlier queue (rec ∷ []);
        bounded = ground (arith, r.bounded, length-append queue (rec ∷ []));
        counted = r.counted;
      })
  where
    queue : List SyslogRecord
    queue = h.listener.queue

read_batch-IsRecent :
    (n : ℕ) (h : History)
    → IsRecent h
    → IsRecent (record h {
      listener = record h.listener { queue = drop n h.listener.queue };
      handed_on = h.handed_on ++ take n h.listener.queue;
    })
read_batch-IsRecent n h r = record {
  earlier = r.earlier ++ take n queue;
  parts = shifted n h.given r.earlier queue r.parts;
  bounded = omega (arith, r.bounded, length-drop n queue);
  counted = ground (
    arith,
    r.counted,
    length-append r.earlier (take n queue),
    length-append h.handed_on (take n queue),
  );
}
  where
    queue : List SyslogRecord
    queue = h.listener.queue

enqueue-IsRecent :
    (o : Option SyslogRecord) (h : History) (next : Listener)
    → next ≡ elim o [ none ↦ h.listener | some rec ↦ queue_record rec h.listener ]
    → IsRecent h
    → IsRecent (record h { listener = next; given = h.given ++ given_by o })
enqueue-IsRecent none h next e r = record {
  earlier = r.earlier;
  parts = append-nil h.given ∙ r.parts ∙ ap (λ (l : Listener). r.earlier ++ l.queue) (sym e);
  bounded = ground (arith, r.bounded, e);
  counted = ground (arith, r.counted, e);
}
enqueue-IsRecent (some rec) h next e r =
    subst (λ (l : Listener). IsRecent (record h { listener = l; given = h.given ++ rec ∷ [] }))
      (sym e) (queue_record-IsRecent rec h r)

step-IsRecent :
    (clock : Clock) (op : Operation) (h : History) → IsRecent h → IsRecent (step clock op h)
unfolding enqueue read_batch
step-IsRecent clock (arrives peer raw) h r =
    enqueue-IsRecent (read_message clock peer raw) h _ refl r
step-IsRecent clock (reads max) h r =
    read_batch-IsRecent (if ltb max (length h.listener.queue) then max else length h.listener.queue)
      h r

-- Along all messages and reads, the queue holds the latest of the records that messages have become,
-- in their order and 8192 of them at most; and the earlier ones are, up to multiples of 2 ^ 64, as many as
-- the reads have handed on and the counter of dropped records says together.
pub run-IsRecent :
    (clock : Clock) (ops : List Operation) (h : History) → IsRecent h → IsRecent (run clock ops h)
run-IsRecent clock [] h r = r
run-IsRecent clock (op ∷ ops) h r =
    run-IsRecent clock ops (step clock op h) (step-IsRecent clock op h r)
