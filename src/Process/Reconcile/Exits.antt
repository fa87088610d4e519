-- ===== src/Process/Reconcile/Exits.antt =====
-- No exited process is carried on (internal/modules/process/lifecycle.go).
use my_own_agent.Prelude.{
  ℕ, ◌+◌, ◌≡◌, ◌≢◌, length, refl, ap, ◌∙◌, Bool, true, false, ◌&&◌, Option, none, some, List, [],
  ◌∷◌, ◌==◌, if◌then◌else◌, lookup, put, delete, arith, count_by, count_by-sort_by, sort_by,
}
use my_own_agent.Process.Store.{
  same_instance, Info, instance_key, Tracked, Observation, Live, Store, Limits, same_pid,
  new_tracked, note_exit, admit, observe,
}
use my_own_agent.Process.Reconcile.{
  Pass, put_off, see_again, forget_reused, replace, scan_info, scan_infos, admit_one, admit_each,
  seen_entries, retire_unseen, prune_exits, reconcile, start_pass, lower_pid, gone_entries,
}
use my_own_agent.Process.Reconcile.Accounts.{live_pid, pending_pid, info_pid, pending_pid-snoc}
use my_own_agent.Process.Reconcile.Totals.{store-admit_one, retire_each-Retired}

-- How many entries of a PID were seen in a cycle.
abbrev pub seen_pid : ℕ → ℕ → Live → ℕ
seen_pid cycle x m = count_by (λ (e : ℕ × Tracked). e.0 == x && e.1.cycle == cycle) m

seen_pid-put :
    (cycle x i : ℕ) (v : Tracked) (m : Live)
    → i ≢ x
    → seen_pid cycle x (put same_pid i v m) ≡ seen_pid cycle x m
seen_pid-put cycle x i v [] h = ground arith
seen_pid-put cycle x i v ((j, w) ∷ m) h = ground (arith, seen_pid-put cycle x i v m)

seen_pid-delete :
    (cycle x i : ℕ) (m : Live) → i ≢ x → seen_pid cycle x (delete same_pid i m) ≡ seen_pid cycle x m
seen_pid-delete cycle x i [] h = refl
seen_pid-delete cycle x i ((j, w) ∷ m) h = ground (arith, seen_pid-delete cycle x i m)

live_pid-seen_entries :
    (cycle x : ℕ) (m : Live) → live_pid x (seen_entries cycle m) ≡ seen_pid cycle x m
unfolding seen_entries
live_pid-seen_entries cycle x [] = refl
live_pid-seen_entries cycle x ((j, w) ∷ m) = ground (arith, live_pid-seen_entries cycle x m)

-- Nothing of the PID is pending, and none of its entries was seen in this cycle.
record Unseen (cycle x : ℕ) (p : Pass) : Type 0 where
  same_cycle : p.store.cycle ≡ cycle
  not_pending : pending_pid x p.pending ≡ 0
  not_seen : seen_pid cycle x p.store.live ≡ 0

-- A step on another PID keeps that.
record Keeps (cycle x : ℕ) (s s' : Store) : Type 0 where
  cycle_kept : s'.cycle ≡ s.cycle
  seen_kept : seen_pid cycle x s'.live ≡ seen_pid cycle x s.live

forget_reused-Keeps :
    (cycle x : ℕ) (c : Limits) (pid : ℕ) (t : Tracked) (s : Store)
    → pid ≢ x
    → Keeps cycle x s (forget_reused c pid t s)
unfolding forget_reused note_exit
forget_reused-Keeps cycle x c pid t s h = ground (arith, seen_pid-delete cycle x pid s.live)

admit-Keeps :
    (cycle x : ℕ) (c : Limits) (o : Observation) (s : Store)
    → o.pid ≢ x
    → Keeps cycle x s (admit c o s).0
unfolding admit
admit-Keeps cycle x c o s h =
    ground (arith, seen_pid-put cycle x o.pid (new_tracked c s.cycle o) s.live)

replace-Unseen :
    (cycle x : ℕ) (c : Limits) (info : Info) (t : Tracked) (p : Pass)
    → info.pid ≢ x
    → Unseen cycle x p
    → Unseen cycle x (replace c info t p)
unfolding replace
replace-Unseen cycle x c info t p h u =
    let s = forget_reused c info.pid t p.store in
    ground (
      arith,
      u.same_cycle,
      u.not_pending,
      u.not_seen,
      forget_reused-Keeps cycle x c info.pid t p.store h,
      admit-Keeps cycle x c (observe c info) s h,
    )

see_again-Unseen :
    (cycle x : ℕ) (c : Limits) (info : Info) (t : Tracked) (p : Pass)
    → info.pid ≢ x
    → Unseen cycle x p
    → Unseen cycle x (see_again c info t p)
unfolding see_again
see_again-Unseen cycle x c info t p h u = record {
  same_cycle = u.same_cycle;
  not_pending = u.not_pending;
  not_seen = seen_pid-put cycle x info.pid _ p.store.live h ∙ u.not_seen;
}

put_off-Unseen :
    (cycle x : ℕ) (c : Limits) (info : Info) (p : Pass)
    → info.pid ≢ x
    → Unseen cycle x p
    → Unseen cycle x (put_off c info p)
put_off-Unseen cycle x c info p h u = record {
  same_cycle = u.same_cycle;
  not_pending =
      ground (arith, u.not_pending, pending_pid-snoc x p.pending (length p.obs, observe c info));
  not_seen = u.not_seen;
}

scan_info-Unseen :
    (cycle x : ℕ) (c : Limits) (info : Info) (p : Pass)
    → info.pid ≢ x
    → Unseen cycle x p
    → Unseen cycle x (scan_info c info p)
unfolding scan_info
scan_info-Unseen cycle x c info p h u = go (lookup same_pid info.pid p.store.live)
  where
    counted : Pass
    counted = record p {
      invalid_names = p.invalid_names + (if (c.sanitise info.name).1 then 1 else 0);
    }

    kept : Unseen cycle x counted
    kept = record { same_cycle = u.same_cycle; not_pending = u.not_pending; not_seen = u.not_seen }

    step : Option Tracked → Pass
    step o = elim o [
      | none ↦ put_off c info counted
      | some t ↦
          if same_instance t.key (instance_key c.boot info)
          then see_again c info t counted
          else replace c info t counted
    ]

    found :
        (t : Tracked) (b : Bool)
        → Unseen cycle x (if b then see_again c info t counted else replace c info t counted)
    found t true = see_again-Unseen cycle x c info t counted h kept
    found t false = replace-Unseen cycle x c info t counted h kept

    go : (o : Option Tracked) → Unseen cycle x (step o)
    go none = put_off-Unseen cycle x c info counted h kept
    go (some t) = found t (same_instance t.key (instance_key c.boot info))

scan_infos-Unseen :
    (cycle x : ℕ) (c : Limits) (infos : List Info) (p : Pass)
    → info_pid x infos ≡ 0
    → Unseen cycle x p
    → Unseen cycle x (scan_infos c infos p)
unfolding scan_infos
scan_infos-Unseen cycle x c [] p h u = u
scan_infos-Unseen cycle x c (info ∷ infos) p h u =
    scan_infos-Unseen cycle x c infos (scan_info c info p) (ground arith)
      (scan_info-Unseen cycle x c info p (λ e. ground (arith, h, e)) u)

admit_each-Keeps :
    (cycle x : ℕ) (c : Limits) (qs : List (ℕ × Observation)) (p : Pass)
    → pending_pid x qs ≡ 0
    → Keeps cycle x p.store (admit_each c qs p).store
unfolding admit_each
admit_each-Keeps cycle x c [] p h = record { cycle_kept = refl; seen_kept = refl }
admit_each-Keeps cycle x c ((i, o) ∷ qs) p h =
    let rest = admit_each-Keeps cycle x c qs (admit_one c (i, o) p) (ground arith) in
    let one = admit-Keeps cycle x c o p.store (λ e. ground (arith, h, e)) in
    let same = store-admit_one c (i, o) p in
    record {
      cycle_kept = rest.cycle_kept ∙ ap (λ (s : Store). s.cycle) same ∙ one.cycle_kept;
      seen_kept = rest.seen_kept ∙ ap (λ (s : Store). seen_pid cycle x s.live) same ∙ one.seen_kept;
    }

-- A PID that is not enumerated has no entry behind the cycle, so no exited process is carried on. None
-- of its entries has the stamp of the coming cycle before.
pub live_pid-reconcile :
    (c : Limits) (infos : List Info) (s : Store) (x : ℕ)
    → seen_pid (s.cycle + 1) x s.live ≡ 0
    → info_pid x infos ≡ 0
    → live_pid x (reconcile c infos s).store.live ≡ 0
unfolding reconcile prune_exits retire_unseen
live_pid-reconcile c infos s x past h =
    let cycle = s.cycle + 1 in
    let scanned = scan_infos c infos (start_pass s) in
    let u =
      scan_infos-Unseen cycle x c infos (start_pass s) h
        (record { same_cycle = refl; not_pending = refl; not_seen = past }) in
    let sorted = sort_by lower_pid scanned.pending in
    let none_pending : pending_pid x sorted ≡ 0 =
      count_by-sort_by (λ (q : ℕ × Observation). q.1.pid == x) lower_pid scanned.pending
      ∙ u.not_pending in
    let k = admit_each-Keeps cycle x c sorted scanned none_pending in
    let admitted = admit_each c sorted scanned in
    let r =
      retire_each-Retired c (gone_entries admitted.store.cycle admitted.store.live)
        (record admitted {
          store = record admitted.store {
            live = seen_entries admitted.store.cycle admitted.store.live;
          };
        }) in
    ap (live_pid x) r.live
    ∙ live_pid-seen_entries admitted.store.cycle x admitted.store.live
    ∙ ap (λ (k : ℕ). seen_pid k x admitted.store.live) (k.cycle_kept ∙ u.same_cycle)
    ∙ k.seen_kept
    ∙ u.not_seen
