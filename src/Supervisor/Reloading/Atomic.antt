-- ===== src/Supervisor/Reloading/Atomic.antt =====
-- The calls of the modules in the phases of Reload (internal/supervisor/reload.go).
use my_own_agent.Prelude.{
  ℕ, ◌≡◌, refl, sym, ap, subst, ◌∙◌, Option, none, some, List, [], ◌∷◌, ◌++◌, Result, ok, err,
}
use mathlib.Core.List.{append-nil, append_assoc}
use my_own_agent.Config.{ModuleConfig}
use my_own_agent.Diagnostics.{Record}
use my_own_agent.Supervisor.Graph.{ModuleId}
use my_own_agent.Supervisor.Runner.{Error}
use my_own_agent.Supervisor.Reloading.Transaction.{
  ModuleCall, prepare_config, commit_config, rollback_config, ModuleAnswers, Reloader, ReloadError,
  refused, called, recorded, event_emitted, noted, record_config_rejected, roll_back_each,
  roll_back_all, prepare_all, commit_all,
}

abbrev pub prepares : (ModuleId → ModuleConfig) → List ModuleId → List ModuleCall
prepares fragment [] = []
prepares fragment (id ∷ ids) = prepare_config id (fragment id) ∷ prepares fragment ids

abbrev pub commits : List ModuleId → List ModuleCall
commits [] = []
commits (id ∷ ids) = commit_config id ∷ commits ids

abbrev rollbacks : List ModuleId → List ModuleCall
rollbacks [] = []
rollbacks (id ∷ ids) = rollback_config id ∷ rollbacks ids

-- All of the modules accept their fragments.
abbrev pub Agreed : ModuleAnswers → (ModuleId → ModuleConfig) → List ModuleId → Type 0
Agreed m fragment [] = Unit
Agreed m fragment (id ∷ ids) = (m.prepared id (fragment id) ≡ none) × Agreed m fragment ids

module _ {F : Type 0} where
  -- All but what is written while a reload goes on: diagnostics, events, the counter and the calls.
  abbrev pub core : Reloader F → Reloader F
  core a = record a {
    supervisor = record a.supervisor {
      diags = record { max = 0; records = []; dropped = 0 };
      events = [];
    };
    config_rollbacks = 0;
    calls = [];
  }

  -- What a run of calls leaves: the calls are `more`, and the rest is as before.
  pub record Calls (a : Reloader F) (more : List ModuleCall) (b : Reloader F) : Type 0 where
    pub core_same : core b ≡ core a
    pub calls_more : b.calls ≡ a.calls ++ more

  pub Calls_trans :
      (a b c : Reloader F) (xs ys : List ModuleCall)
      → Calls a xs b
      → Calls b ys c
      → Calls a (xs ++ ys) c
  Calls_trans a b c xs ys h k = record {
    core_same = k.core_same ∙ h.core_same;
    calls_more = k.calls_more ∙ ap (λ l. l ++ ys) h.calls_more ∙ append_assoc a.calls xs ys;
  }

  pub Calls_same : (a b : Reloader F) → core b ≡ core a → b.calls ≡ a.calls → Calls a [] b
  Calls_same a b h k = record { core_same = h; calls_more = k ∙ sym (append-nil a.calls) }

  noted-Calls :
      (now : ℕ) (rec : Record) (o : Option Error) (call : ModuleCall) (a : Reloader F)
      → Calls a (call ∷ []) (noted now rec o (called call a))
  unfolding noted recorded
  noted-Calls now rec none call a = record { core_same = refl; calls_more = refl }
  noted-Calls now rec (some e) call a = record { core_same = refl; calls_more = refl }

  pub record_config_rejected-Calls :
      (now : ℕ) (a : Reloader F) → Calls a [] (record_config_rejected now a)
  unfolding record_config_rejected recorded
  record_config_rejected-Calls now a = Calls_same a _ refl refl

  roll_back_each-Calls :
      (m : ModuleAnswers) (now : ℕ) (ids : List ModuleId) (a : Reloader F)
      → Calls a (rollbacks ids) (roll_back_each m now ids a)
  unfolding roll_back_each
  roll_back_each-Calls m now [] a = Calls_same a a refl refl
  roll_back_each-Calls m now (id ∷ ids) a =
      Calls_trans a _ _ (rollback_config id ∷ []) (rollbacks ids)
        (noted-Calls now _ (m.rolled_back id) (rollback_config id) a)
        (roll_back_each-Calls m now ids _)

  pub commit_all-Calls :
      (m : ModuleAnswers) (now : ℕ) (ids : List ModuleId) (a : Reloader F)
      → Calls a (commits ids) (commit_all m now ids a)
  unfolding commit_all
  commit_all-Calls m now [] a = Calls_same a a refl refl
  commit_all-Calls m now (id ∷ ids) a =
      Calls_trans a _ _ (commit_config id ∷ []) (commits ids)
        (noted-Calls now _ (m.committed id) (commit_config id) a) (commit_all-Calls m now ids _)

  roll_back_all-Calls :
      (m : ModuleAnswers) (now : ℕ) (e : Error) (ids : List ModuleId) (a : Reloader F)
      → Calls a (rollbacks ids) (roll_back_all m now e ids a)
  unfolding roll_back_all recorded event_emitted
  roll_back_all-Calls m now e ids a =
      let c = roll_back_each-Calls m now ids a in
      record { core_same = c.core_same; calls_more = c.calls_more }

  module _ (m : ModuleAnswers) (fragment : ModuleId → ModuleConfig) where
    -- Every module of the list has been asked, and has accepted.
    pub record AllPrepared (ids : List ModuleId) (a b : Reloader F) : Type 0 where
      pub agreed : Agreed m fragment ids
      pub calls : Calls a (prepares fragment ids) b

    -- A module of the list has refused: those ahead of it had accepted and have been rolled back, after
    -- those in `done`; those behind it have not been asked.
    pub record OneRefused (done ids : List ModuleId) (a b : Reloader F) (e : ReloadError)
        : Type 0 where
      pub before : List ModuleId
      pub id : ModuleId
      pub after : List ModuleId
      pub reason : Error
      pub parts : ids ≡ before ++ id ∷ after
      pub agreed : Agreed m fragment before
      pub answer : m.prepared id (fragment id) ≡ some reason
      pub reported : e ≡ refused id reason
      pub calls : Calls a (prepares fragment (before ++ id ∷ []) ++ rollbacks (done ++ before)) b

    abbrev pub Prepared :
        List ModuleId
        → List ModuleId
        → Reloader F
        → Reloader F × Result ReloadError (List ModuleId)
        → Type 0
    Prepared done ids a (b, ok ds) = AllPrepared ids a b × (ds ≡ done ++ ids)
    Prepared done ids a (b, err e) = OneRefused done ids a b e

    asked :
        (id : ModuleId) (a : Reloader F)
        → Calls a (prepares fragment (id ∷ [])) (called (prepare_config id (fragment id)) a)
    asked id a = record { core_same = refl; calls_more = refl }

    widen :
        (id : ModuleId) (done ids : List ModuleId) (a : Reloader F)
        → m.prepared id (fragment id) ≡ none
        → (r : Reloader F × Result ReloadError (List ModuleId))
        → Prepared (done ++ id ∷ []) ids (called (prepare_config id (fragment id)) a) r
        → Prepared done (id ∷ ids) a r
    widen id done ids a h (b, ok ds) (p, same) = (
      record {
        agreed = (h, p.agreed);
        calls =
            Calls_trans a _ b (prepares fragment (id ∷ [])) (prepares fragment ids) (asked id a)
              p.calls;
      },
      same ∙ append_assoc done (id ∷ []) ids,
    )
    widen id done ids a h (b, err e) p = record {
      before = id ∷ p.before;
      id = p.id;
      after = p.after;
      reason = p.reason;
      parts = ap (λ l. id ∷ l) p.parts;
      agreed = (h, p.agreed);
      answer = p.answer;
      reported = p.reported;
      calls =
          subst
            (λ l.
              Calls a
                (prepare_config id (fragment id)
                  ∷ (prepares fragment (p.before ++ p.id ∷ []) ++ rollbacks l))
                b)
            (append_assoc done (id ∷ []) p.before)
            (Calls_trans a _ b (prepares fragment (id ∷ [])) _ (asked id a) p.calls);
    }

    pub prepare_all-Prepared :
        (now : ℕ) (ids done : List ModuleId) (a : Reloader F)
        → Prepared done ids a (prepare_all m now fragment ids done a)
    unfolding prepare_all
    prepare_all-Prepared now [] done a =
        (record { agreed = tt; calls = Calls_same a a refl refl }, sym (append-nil done))
    prepare_all-Prepared now (id ∷ ids) done a =
        go (m.prepared id (fragment id)) refl (prepare_all-Prepared now ids (done ++ id ∷ []) next)
      where
        next : Reloader F
        next = called (prepare_config id (fragment id)) a

        rest : Reloader F × Result ReloadError (List ModuleId)
        rest = prepare_all m now fragment ids (done ++ id ∷ []) next

        step : Option Error → Reloader F × Result ReloadError (List ModuleId)
        step none = rest
        step (some e) = (roll_back_all m now e done next, err (refused id e))

        go :
            (o : Option Error)
            → m.prepared id (fragment id) ≡ o
            → Prepared (done ++ id ∷ []) ids next rest
            → Prepared done (id ∷ ids) a (step o)
        go none h p = widen id done ids a h rest p
        go (some e) h p = record {
          before = [];
          id = id;
          after = ids;
          reason = e;
          parts = refl;
          agreed = tt;
          answer = h;
          reported = refl;
          calls =
              subst
                (λ l.
                  Calls a (prepare_config id (fragment id) ∷ rollbacks l)
                    (roll_back_all m now e done next))
                (sym (append-nil done))
                (Calls_trans a next _ (prepares fragment (id ∷ [])) (rollbacks done) (asked id a)
                  (roll_back_all-Calls m now e done next));
        }
