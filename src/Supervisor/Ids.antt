-- ===== src/Supervisor/Ids.antt =====
-- The IDs of modules, and Go maps from them (internal/module/module.go).
use my_own_agent.Prelude.{String, Bool, false, ◌||◌, List, [], ◌∷◌, str_eq, if◌then◌else◌}

-- type ID string
abbrev pub ModuleId : Type 0
ModuleId = String

-- Whether a list, or a map to `true`, has the ID.
abbrev pub contains : ModuleId → List ModuleId → Bool
contains x [] = false
contains x (y ∷ ys) = str_eq y x || contains x ys

-- m[k] = v
abbrev pub update {ℓ} : {A : Type ℓ} → (ModuleId → A) → ModuleId → A → ModuleId → A
update f k v j = if str_eq k j then v else f j
