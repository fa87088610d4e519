-- ===== src/Process/Reconcile/Accounts.antt =====
-- The table of processes stays within its bound, and its counters account for it
-- (internal/modules/process/lifecycle.go).
use my_own_agent.Prelude.{
  ℕ, ◌+◌, ◌≡◌, ◌≢◌, ◌≤◌, ◌<◌, refl, none, some, List, [], ◌∷◌, ◌++◌, length, ◌==◌, if◌then◌else◌,
  lookup, put, delete, length-put, length-delete, arith, count_by,
}
use my_own_agent.Process.Store.{
  Info, Tracked, Observation, Live, Store, Limits, same_pid, new_tracked, cpu_nanos, admit, observe,
}
use my_own_agent.Process.Reconcile.{Pass, see_again, forget_reused, replace, put_off}

-- How many entries a PID has.
abbrev pub live_pid : ℕ → Live → ℕ
live_pid x m = count_by (λ (e : ℕ × Tracked). e.0 == x) m

pub none_of_live_pid : (x : ℕ) (m : Live) → live_pid x m ≡ 0 → lookup same_pid x m ≡ none
none_of_live_pid x [] h = refl
none_of_live_pid x ((j, w) ∷ m) h = ground (arith, none_of_live_pid x m)

live_pid_of_none : (x : ℕ) (m : Live) → lookup same_pid x m ≡ none → live_pid x m ≡ 0
live_pid_of_none x [] h = refl
live_pid_of_none x ((j, w) ∷ m) h = ground (arith, live_pid_of_none x m)

live_pid-put_new :
    (x i : ℕ) (v : Tracked) (m : Live)
    → lookup same_pid i m ≡ none
    → live_pid x (put same_pid i v m) ≡ live_pid x m + (if i == x then 1 else 0)
live_pid-put_new x i v [] h = ground arith
live_pid-put_new x i v ((j, w) ∷ m) h = ground (arith, live_pid-put_new x i v m)

live_pid-put_old :
    (x i : ℕ) (v w : Tracked) (m : Live)
    → lookup same_pid i m ≡ some w
    → live_pid x (put same_pid i v m) ≡ live_pid x m
live_pid-put_old x i v w [] h = cc
live_pid-put_old x i v w ((j, u) ∷ m) h = ground (arith, live_pid-put_old x i v w m)

live_pid-delete :
    (x i : ℕ) (w : Tracked) (m : Live)
    → lookup same_pid i m ≡ some w
    → live_pid x (delete same_pid i m) + (if i == x then 1 else 0) ≡ live_pid x m
live_pid-delete x i w [] h = cc
live_pid-delete x i w ((j, u) ∷ m) h = ground (arith, live_pid-delete x i w m)

-- How many of the pending processes, and of the enumerated ones, have a PID.
abbrev pub pending_pid : ℕ → List (ℕ × Observation) → ℕ
pending_pid x qs = count_by (λ (q : ℕ × Observation). q.1.pid == x) qs

abbrev pub info_pid : ℕ → List Info → ℕ
info_pid x infos = count_by (λ (info : Info). info.pid == x) infos

-- The table is within its bound, has one entry for each PID, and holds the processes that were
-- started and have not exited.
pub record Sound (max : ℕ) (s : Store) : Type 0 where
  pub few : length s.live ≤ max
  pub balanced : length s.live + s.exited ≡ s.started
  pub single : (x : ℕ) → live_pid x s.live ≤ 1

-- The PID has an entry.
abbrev pub Known : ℕ → Store → Type 0
Known pid s = (t : Tracked) × (lookup same_pid pid s.live ≡ some t)

pub admit-Sound :
    (c : Limits) (o : Observation) (s : Store)
    → 0 < c.max_tracked
    → lookup same_pid o.pid s.live ≡ none
    → Sound c.max_tracked s
    → Sound c.max_tracked (admit c o s).0
unfolding admit
admit-Sound c o s pos h b =
    let t = new_tracked c s.cycle o in
    record {
      few = ground (arith, b.few, length-put same_pid o.pid t s.live);
      balanced = ground (arith, b.balanced, length-put same_pid o.pid t s.live);
      single = λ x.
          ground (
            arith,
            b.single x,
            live_pid-put_new x o.pid t s.live h,
            live_pid_of_none o.pid s.live h,
          );
    }

pub live-admit :
    (c : Limits) (o : Observation) (s : Store) (x : ℕ)
    → o.pid ≢ x
    → lookup same_pid o.pid s.live ≡ none
    → live_pid x (admit c o s).0.live ≡ live_pid x s.live
unfolding admit
live-admit c o s x h n = ground (arith, live_pid-put_new x o.pid (new_tracked c s.cycle o) s.live n)

forget_reused-Sound :
    (c : Limits) (pid : ℕ) (t : Tracked) (s : Store)
    → lookup same_pid pid s.live ≡ some t
    → Sound c.max_tracked s
    → Sound c.max_tracked (forget_reused c pid t s)
unfolding forget_reused
forget_reused-Sound c pid t s h b = record {
  few = ground (arith, b.few, length-delete same_pid pid s.live t h);
  balanced = ground (arith, b.balanced, length-delete same_pid pid s.live t h);
  single = λ x. ground (arith, b.single x, live_pid-delete x pid t s.live h);
}

pub live-forget_reused :
    (c : Limits) (pid : ℕ) (t : Tracked) (s : Store) (x : ℕ)
    → lookup same_pid pid s.live ≡ some t
    → live_pid x (forget_reused c pid t s).live + (if pid == x then 1 else 0) ≡ live_pid x s.live
unfolding forget_reused
live-forget_reused c pid t s x h = ground (arith, live_pid-delete x pid t s.live h)

-- What the loop over the enumeration keeps, with `rest` still to come.
pub record Scanning (max : ℕ) (rest : List Info) (p : Pass) : Type 0 where
  pub sound : Sound max p.store
  pub distinct : (x : ℕ) → pending_pid x p.pending + info_pid x rest ≤ 1
  pub absent : (x : ℕ) → 1 ≤ pending_pid x p.pending → live_pid x p.store.live ≡ 0

pub pending_pid-snoc :
    (x : ℕ) (qs : List (ℕ × Observation)) (q : ℕ × Observation)
    → pending_pid x (qs ++ q ∷ []) ≡ pending_pid x qs + (if q.1.pid == x then 1 else 0)
pending_pid-snoc x [] q = ground arith
pending_pid-snoc x (r ∷ qs) q = ground (arith, pending_pid-snoc x qs q)

pub see_again-Scanning :
    (c : Limits) (info : Info) (rest : List Info) (t : Tracked) (p : Pass)
    → lookup same_pid info.pid p.store.live ≡ some t
    → Scanning c.max_tracked (info ∷ rest) p
    → Scanning c.max_tracked rest (see_again c info t p)
unfolding see_again
see_again-Scanning c info rest t p h b =
    let u = record t {
      cycle = p.store.cycle;
      last_cpu_nanos = cpu_nanos info;
      last_sample_at = c.now;
    } in
    record {
      sound = record {
        few = ground (arith, b.sound.few, length-put same_pid info.pid u p.store.live);
        balanced = ground (arith, b.sound.balanced, length-put same_pid info.pid u p.store.live);
        single =
            λ x. omega (arith, b.sound.single x, live_pid-put_old x info.pid u t p.store.live h);
      };
      distinct = λ x. omega (arith, b.distinct x);
      absent = λ x k. omega (arith, b.absent x k, live_pid-put_old x info.pid u t p.store.live h);
    }

pub replace-Scanning :
    (c : Limits) (info : Info) (rest : List Info) (t : Tracked) (p : Pass)
    → 0 < c.max_tracked
    → lookup same_pid info.pid p.store.live ≡ some t
    → Scanning c.max_tracked (info ∷ rest) p
    → Scanning c.max_tracked rest (replace c info t p)
unfolding replace
replace-Scanning c info rest t p pos h b =
    let s = forget_reused c info.pid t p.store in
    let gone : lookup same_pid info.pid s.live ≡ none = none_of_live_pid info.pid s.live (
      ground
        (arith, b.sound.single info.pid, live-forget_reused c info.pid t p.store info.pid h)) in
    record {
      sound =
          admit-Sound c (observe c info) s pos gone
            (forget_reused-Sound c info.pid t p.store h b.sound);
      distinct = λ x. omega (arith, b.distinct x);
      absent = λ x k. ground (
        arith,
        b.absent x k,
        b.distinct x,
        live-forget_reused c info.pid t p.store x h,
        live-admit c (observe c info) s x,
        gone,
      );
    }

pub put_off-Scanning :
    (c : Limits) (info : Info) (rest : List Info) (p : Pass)
    → lookup same_pid info.pid p.store.live ≡ none
    → Scanning c.max_tracked (info ∷ rest) p
    → Scanning c.max_tracked rest (put_off c info p)
put_off-Scanning c info rest p h b =
    let q : ℕ × Observation = (length p.obs, observe c info) in
    record {
      sound = b.sound;
      distinct = λ x. ground (arith, b.distinct x, pending_pid-snoc x p.pending q);
      absent = λ x k. ground (
        arith,
        b.absent x,
        pending_pid-snoc x p.pending q,
        live_pid_of_none info.pid p.store.live h,
      );
    }
