-- ===== src/Process/Reconcile/Totals.antt =====
-- The bound and the accounts of the table of processes over a whole cycle
-- (internal/modules/process/lifecycle.go).
use my_own_agent.Prelude.{
  ℕ, ◌+◌, ◌≡◌, ◌≤◌, ◌<◌, refl, sym, ap, subst, ap-if, if_same, ◌∙◌, Bool, true, false, Option, none,
  some, List, [], ◌∷◌, length, ◌==◌, sort_by, if◌then◌else◌, lookup, arith, count_by-sort_by,
}
use my_own_agent.Process.Store.{
  same_instance, Info, instance_key, Tracked, Observation, Live, Store, Limits, same_pid, note_exit,
  admit,
}
use my_own_agent.Process.Reconcile.{
  Pass, see_again, replace, put_off, scan_info, scan_infos, admit_one, admit_each, lower_pid,
  seen_entries, gone_entries, retire_one, retire_each, retire_unseen, prune_exits, start_pass,
  reconcile,
}
use my_own_agent.Process.Reconcile.Accounts.{
  pending_pid, info_pid, live_pid, none_of_live_pid, Sound, Scanning, admit-Sound, live-admit,
  see_again-Scanning, replace-Scanning, put_off-Scanning,
}

scan_info-Scanning :
    (c : Limits) (info : Info) (rest : List Info) (p : Pass)
    → 0 < c.max_tracked
    → Scanning c.max_tracked (info ∷ rest) p
    → Scanning c.max_tracked rest (scan_info c info p)
unfolding scan_info
scan_info-Scanning c info rest p pos b = go (lookup same_pid info.pid p.store.live) refl
  where
    counted : Pass
    counted = record p {
      invalid_names = p.invalid_names + (if (c.sanitise info.name).1 then 1 else 0);
    }

    kept : Scanning c.max_tracked (info ∷ rest) counted
    kept = record { sound = b.sound; distinct = b.distinct; absent = b.absent }

    step : Option Tracked → Pass
    step o = elim o [
      | none ↦ put_off c info counted
      | some t ↦
          if same_instance t.key (instance_key c.boot info)
          then see_again c info t counted
          else replace c info t counted
    ]

    found :
        (t : Tracked) (b : Bool)
        → lookup same_pid info.pid p.store.live ≡ some t
        → Scanning c.max_tracked rest
            (if b then see_again c info t counted else replace c info t counted)
    found t true h = see_again-Scanning c info rest t counted h kept
    found t false h = replace-Scanning c info rest t counted pos h kept

    go :
        (o : Option Tracked)
        → lookup same_pid info.pid p.store.live ≡ o
        → Scanning c.max_tracked rest (step o)
    go none h = put_off-Scanning c info rest counted h kept
    go (some t) h = found t (same_instance t.key (instance_key c.boot info)) h

scan_infos-Scanning :
    (c : Limits) (infos : List Info) (p : Pass)
    → 0 < c.max_tracked
    → Scanning c.max_tracked infos p
    → Scanning c.max_tracked [] (scan_infos c infos p)
unfolding scan_infos
scan_infos-Scanning c [] p pos b = b
scan_infos-Scanning c (info ∷ infos) p pos b =
    scan_infos-Scanning c infos (scan_info c info p) pos (scan_info-Scanning c info infos p pos b)

-- What the loop over the pending processes keeps, with `qs` still to come.
record Admitting (max : ℕ) (qs : List (ℕ × Observation)) (s : Store) : Type 0 where
  sound : Sound max s
  distinct : (x : ℕ) → pending_pid x qs ≤ 1
  absent : (x : ℕ) → 1 ≤ pending_pid x qs → live_pid x s.live ≡ 0

pub store-admit_one :
    (c : Limits) (q : ℕ × Observation) (p : Pass)
    → (admit_one c q p).store ≡ (admit c q.1 p.store).0
unfolding admit_one
store-admit_one c (i, o) p =
    ap-if (λ (t : Pass). t.store) (admit c o p.store).1 refl refl
    ∙ if_same (admit c o p.store).1 (admit c o p.store).0

admit-Admitting :
    (c : Limits) (q : ℕ × Observation) (qs : List (ℕ × Observation)) (s : Store)
    → 0 < c.max_tracked
    → Admitting c.max_tracked (q ∷ qs) s
    → Admitting c.max_tracked qs (admit c q.1 s).0
admit-Admitting c (i, o) qs s pos b =
    let free : lookup same_pid o.pid s.live ≡ none =
      none_of_live_pid o.pid s.live (ground (arith, b.absent o.pid)) in
    record {
      sound = admit-Sound c o s pos free b.sound;
      distinct = λ x. ground (arith, b.distinct x);
      absent = λ x k. ground (arith, b.absent x, b.distinct x, live-admit c o s x, free);
    }

admit_each-Sound :
    (c : Limits) (qs : List (ℕ × Observation)) (p : Pass)
    → 0 < c.max_tracked
    → Admitting c.max_tracked qs p.store
    → Sound c.max_tracked (admit_each c qs p).store
unfolding admit_each
admit_each-Sound c [] p pos b = b.sound
admit_each-Sound c (q ∷ qs) p pos b = admit_each-Sound c qs (admit_one c q p) pos (
    subst (Admitting c.max_tracked qs) (sym (store-admit_one c q p))
      (admit-Admitting c q qs p.store pos b))

length_split :
    (cycle : ℕ) (live : Live)
    → length (seen_entries cycle live) + length (gone_entries cycle live) ≡ length live
unfolding seen_entries gone_entries
length_split cycle [] = refl
length_split cycle ((pid, t) ∷ live) = ground (arith, length_split cycle live)

seen_pid : (cycle x : ℕ) (live : Live) → live_pid x (seen_entries cycle live) ≤ live_pid x live
unfolding seen_entries
seen_pid cycle x [] = omega arith
seen_pid cycle x ((pid, t) ∷ live) = ground (arith, seen_pid cycle x live)

-- The loop over the entries that are gone counts them as exited, and nothing else.
pub record Retired (gone : Live) (s s' : Store) : Type 0 where
  pub live : s'.live ≡ s.live
  pub started : s'.started ≡ s.started
  pub exited : s'.exited ≡ s.exited + length gone

retire_one-Retired :
    (c : Limits) (pid : ℕ) (t : Tracked) (p : Pass)
    → Retired ((pid, t) ∷ []) p.store (retire_one c t p).store
unfolding retire_one note_exit
retire_one-Retired c pid t p = ground arith

pub retire_each-Retired :
    (c : Limits) (gone : Live) (p : Pass) → Retired gone p.store (retire_each c gone p).store
unfolding retire_each
retire_each-Retired c [] p = record { live = refl; started = refl; exited = omega arith }
retire_each-Retired c ((pid, t) ∷ gone) p =
    let one = retire_one-Retired c pid t p in
    let rest = retire_each-Retired c gone (retire_one c t p) in
    record {
      live = rest.live ∙ one.live;
      started = rest.started ∙ one.started;
      exited = omega (arith, rest.exited, one.exited);
    }

retire_unseen-Sound :
    (c : Limits) (max : ℕ) (p : Pass) → Sound max p.store → Sound max (retire_unseen c p).store
unfolding retire_unseen
retire_unseen-Sound c max p b =
    let live = p.store.live in
    let cycle = p.store.cycle in
    let r =
      retire_each-Retired c (gone_entries cycle live)
        (record p { store = record p.store { live = seen_entries cycle live } }) in
    record {
      few = omega (arith, b.few, length_split cycle live, ap (length {A = ℕ × Tracked}) r.live);
      balanced = omega (
        arith,
        b.balanced,
        length_split cycle live,
        ap (length {A = ℕ × Tracked}) r.live,
        r.started,
        r.exited,
      );
      single = λ x. omega (arith, b.single x, seen_pid cycle x live, ap (live_pid x) r.live);
    }

-- The table may track at most `max_tracked` processes, and does so before the cycle; no PID is
-- enumerated twice. Then behind the cycle it still does, with one entry for each PID, and its
-- counters account for it: it holds as many as were started and have not exited.
pub reconcile-Sound :
    (c : Limits) (infos : List Info) (s : Store)
    → 0 < c.max_tracked
    → ((x : ℕ) → info_pid x infos ≤ 1)
    → Sound c.max_tracked s
    → Sound c.max_tracked (reconcile c infos s).store
unfolding reconcile prune_exits
reconcile-Sound c infos s pos unique b =
    let scanned = scan_infos c infos (start_pass s) in
    let kept = scan_infos-Scanning c infos (start_pass s) pos (record {
      sound = record { few = b.few; balanced = b.balanced; single = b.single };
      distinct = λ x. omega (arith, unique x);
      absent = λ x k. absurd (omega arith);
    }) in
    let same = λ (x : ℕ).
      count_by-sort_by (λ (q : ℕ × Observation). q.1.pid == x) lower_pid scanned.pending in
    let admitted = admit_each-Sound c (sort_by lower_pid scanned.pending) scanned pos (record {
      sound = kept.sound;
      distinct = λ x. omega (arith, kept.distinct x, same x);
      absent = λ x k. kept.absent x (omega (arith, same x));
    }) in
    let retired = retire_unseen-Sound c c.max_tracked _ admitted in
    record { few = retired.few; balanced = retired.balanced; single = retired.single }
