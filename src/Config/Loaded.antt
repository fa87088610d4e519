-- ===== src/Config/Loaded.antt =====
-- What the loader hands on (internal/config/load.go).
use my_own_agent.Prelude.{
  ℕ, ◌+◌, ◌%◌, ◌^◌, ◌≡◌, refl, ap, ◌∙◌, Bool, true, false, Option, none, some, List, [], ◌∷◌,
  str_eq, sort_by, any, any-sort_by, arith, eq_iff, Result, ok, err, lookup, put, lookup-put,
}
use my_own_agent.Supervisor.Ids.{ModuleId}
use my_own_agent.Telemetry.{Text}
use my_own_agent.Config.{ModuleConfig, Config, module_for}
use my_own_agent.Config.Validation.{Problem, by_id, with_defaults, validate}
use my_own_agent.Config.Loading.{
  Sources, assigned, stamp_revision, overridden, Overlay, LoadError, override, toggle, toggle_key,
  override_agent, toggle_each, override_export, apply_env, finish_load, load,
}

abbrev Modules : Type 0
Modules = List (ModuleId × ModuleConfig)

-- Whether a module is configured, and all of its fragment but `enabled`.
abbrev shape : ModuleId → Modules → Option (Bool × List (Text × Text))
shape id ms = elim (lookup str_eq id ms) [ none ↦ none | some mc ↦ some (mc.required, mc.settings) ]

abbrev absent_in : Modules → ModuleId × ModuleConfig → Bool
absent_in ms (id, _) = elim (shape id ms) [ none ↦ true | some _ ↦ false ]

any_same : {A : Type 0} (p q : A → Bool) (l : List A) → ((x : A) → p x ≡ q x) → any p l ≡ any q l
any_same p q [] h = refl
any_same p q (x ∷ l) h = ground (arith, h x, any_same p q l h)

shape-cons :
    (id j : ModuleId) (mc : ModuleConfig) (ms : Modules)
    → absent_in ms (id, mc) ≡ false
    → (e : ModuleId × ModuleConfig) → absent_in (e ∷ ms) (id, mc) ≡ false
shape-cons id j mc ms h e = ground arith

absent_in-cons :
    (e : ModuleId × ModuleConfig) (ms l : Modules)
    → any (absent_in ms) l ≡ false
    → any (absent_in (e ∷ ms)) l ≡ false
absent_in-cons e ms [] h = refl
absent_in-cons e ms ((id, mc) ∷ l) h = ground (arith, shape-cons id id mc ms, absent_in-cons e ms l)

str_eq_refl : (s : ModuleId) → str_eq s s ≡ true
str_eq_refl s = ground (arith, eq_iff s s)

str_eq→≡ : (s t : ModuleId) → str_eq s t ≡ true → s ≡ t
str_eq→≡ s t h = ground (arith, eq_iff s t)

all_present : (ms : Modules) → any (absent_in ms) ms ≡ false
all_present [] = refl
all_present ((id, mc) ∷ ms) =
    ground (arith, str_eq_refl id, absent_in-cons (id, mc) ms ms (all_present ms))

shape-toggle :
    (j : ModuleId) (b : Bool) (ms : Modules) (mc : ModuleConfig)
    → absent_in ms (j, mc) ≡ false
    → (id : ModuleId)
    → shape id (put str_eq j (record (module_for ms j) { enabled = b }) ms) ≡ shape id ms
shape-toggle j b ms mc h id = ground (
  arith,
  lookup-put str_eq str_eq→≡ str_eq_refl id j (record (module_for ms j) { enabled = b }) ms,
  str_eq→≡ j id,
)

module _ {F : Type 0} (sources : Sources F) where
  override-shape :
      (id : ModuleId) {A : Type 0} (key : Text) (read : Text → Option A)
      → (assign : A → Config F → Config F) (o : Overlay F)
      → ((v : A) → shape id (assign v o.config).modules ≡ shape id o.config.modules)
      → (found : Option Text)
      → shape id (overridden key read assign o found).config.modules ≡ shape id o.config.modules
  override-shape id key read assign o h none = refl
  override-shape id {A} key read assign o h (some raw) = settle (read raw)
    where
      settle :
          (v : Option A)
          → shape id (assigned key assign o v).config.modules ≡ shape id o.config.modules
      settle none = refl
      settle (some v) = h v

  override_agent-modules :
      (o : Overlay F) → (override_agent sources o).config.modules ≡ o.config.modules
  unfolding override_agent
  override_agent-modules o = ground arith

  override_export-modules :
      (o : Overlay F) → (override_export sources o).config.modules ≡ o.config.modules
  unfolding override_export
  override_export-modules o = ground arith

  toggle_each-shape :
      (ms : Modules) (o : Overlay F)
      → any (absent_in o.config.modules) ms ≡ false
      → (id : ModuleId)
      → shape id (toggle_each sources ms o).config.modules ≡ shape id o.config.modules
  unfolding toggle_each
  toggle_each-shape [] o h id = refl
  toggle_each-shape ((j, mc) ∷ ms) o h id =
      toggle_each-shape ms o1
        (any_same (absent_in o1.config.modules) (absent_in o.config.modules) ms
            (λ m. ap (λ s. elim s [ none ↦ true | some _ ↦ false ]) (same m.0))
          ∙ ground arith)
        id
      ∙ same id
    where
      o1 : Overlay F
      o1 =
          override sources (toggle_key j) sources.parse_bool
            (λ b c. record c { modules = toggle sources j b c.modules }) o

      same : (id : ModuleId) → shape id o1.config.modules ≡ shape id o.config.modules
      same id =
          override-shape id (toggle_key j) sources.parse_bool
            (λ b c. record c { modules = toggle sources j b c.modules }) o
            (λ b. shape-toggle j b o.config.modules mc (ground arith) id)
            (sources.env (toggle_key j))

  -- The environment configures no module that the file does not, and of those it changes nothing
  -- but whether they are enabled.
  pub apply_env-shape :
      (c : Config F) (id : ModuleId)
      → shape id (apply_env sources c).config.modules ≡ shape id c.modules
  unfolding apply_env with_defaults
  apply_env-shape c id =
      ap (shape id) (override_export-modules _)
      ∙ toggle_each-shape (sort_by by_id c.modules) (override_agent sources start)
          (ap (λ ms. any (absent_in ms) (sort_by by_id c.modules)) (override_agent-modules start)
            ∙ any-sort_by (absent_in c.modules) by_id c.modules
            ∙ all_present c.modules)
          id
      ∙ ap (shape id) (override_agent-modules start)
    where
      start : Overlay F
      start = record { config = c; problems = [] }

-- What a load gives: a configuration that Validate accepts, under a new revision of the loader, or
-- an error, which uses up no revision.
abbrev pub Outcome :
    {F : Type 0} → Sources F → ℕ → Config F → ℕ × Result LoadError (Config F) → Type 0
Outcome sources revision decoded (next, err e) = next ≡ revision
Outcome sources revision decoded (next, ok c) =
    (next ≡ (revision + 1) % 2 ^ 64)
    × (c.revision ≡ next)
    × (validate sources.parsers c ≡ [])
    × ((id : ModuleId) → shape id c.modules ≡ shape id decoded.modules)

finish_load-Outcome :
    {F : Type 0} (sources : Sources F) (revision : ℕ) (decoded : Config F) (o : Overlay F)
    → ((id : ModuleId) → shape id o.config.modules ≡ shape id decoded.modules)
    → Outcome sources revision decoded (finish_load sources revision o)
unfolding finish_load
finish_load-Outcome {F} sources revision decoded o h =
    go o.problems (validate sources.parsers o.config) refl
  where
    go :
        (problems found : List Problem)
        → validate sources.parsers o.config ≡ found
        → Outcome sources revision decoded (stamp_revision revision o.config problems found)
    go (p ∷ ps) found e = refl
    go [] (p ∷ ps) e = refl
    go [] [] e = (refl, refl, e, h)

-- A load either gives a configuration without problems, under the next revision, with the modules of
-- the file and all of their fragments but whether they are enabled, or it fails and leaves the
-- revision as it was.
pub load-Outcome :
    {F : Type 0} (sources : Sources F) (revision : ℕ) (decoded : Config F)
    → Outcome sources revision decoded (load sources revision (some decoded))
unfolding load with_defaults
load-Outcome sources revision decoded =
    finish_load-Outcome sources revision decoded (apply_env sources (with_defaults decoded))
      (apply_env-shape sources (with_defaults decoded))
