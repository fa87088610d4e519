-- ===== src/Exporter/Inventory/Tests.antt =====
-- Runs of the inventory at concrete inputs.
use my_own_agent.Prelude.{ℕ, ◌+◌, ◌<◌, ◌⊎◌, ◌≡◌, refl, true, List, [], ◌∷◌, codes, sort_by, arith}
use my_own_agent.Telemetry.{Text}
use my_own_agent.Telemetry.Instruments.{Event}
use my_own_agent.Exporter.Inventory.{
  Inventory, kind_key, inventory_key, same_event, action_of, announce_entity, apply_action,
  fold_events, fold_inventory, inventory_events, send_inventory, export_inventory,
}
use my_own_agent.Exporter.Inventory.Bounds.{IsBounded, fold_inventory-IsBounded}
use my_own_agent.Exporter.Inventory.Quiet.{hour, export_inventory-unsent}

abbrev empty_inventory : Inventory
empty_inventory = record {
  table = [];
  nodes = 0;
  edges = 0;
  seq = 0;
  dropped_inventory = 0;
  skipped_inventory = 0;
  last_inventory = 5;
}

-- A container, announced with a status.
abbrev container : Text → ℕ → Text → Event
container name timestamp status = record {
  name = name;
  severity = 0;
  timestamp = timestamp;
  attrs =
      record { key = codes "entity.kind"; value = codes "container" }
      ∷ record { key = codes "container_id"; value = codes "c1" }
      ∷ record { key = codes "status"; value = status }
      ∷ [];
}

abbrev started_and_stopped : List Event
started_and_stopped =
    container (codes "discovery.entity.discovered") 1 (codes "up")
    ∷ container (codes "discovery.entity.changed") 2 (codes "down")
    ∷ []

fold_inventory-IsBounded_example : IsBounded (fold_inventory started_and_stopped empty_inventory).0
fold_inventory-IsBounded_example =
    fold_inventory-IsBounded started_and_stopped empty_inventory
      (record { total = refl; size = omega arith; nodes_within = refl; edges_within = refl })

export_inventory-unsent_example :
    ((inventory_events (export_inventory (λ _. 123 ∷ []) 6 [] empty_inventory).0
        ≡ inventory_events empty_inventory)
      × (0 < empty_inventory.last_inventory)
      × (6 < empty_inventory.last_inventory + hour))
    ⊎ (◌≡◌ {A = Text} (123 ∷ []) [])
unfolding export_inventory send_inventory fold_inventory fold_events
export_inventory-unsent_example = export_inventory-unsent (λ _. 123 ∷ []) 6 [] empty_inventory refl

-- Folding the same events again leaves the same inventory, and still reports a change.
refolded :
    (inventory_events
        (fold_inventory started_and_stopped
          (fold_inventory started_and_stopped empty_inventory).0).0
      ≡ inventory_events (fold_inventory started_and_stopped empty_inventory).0)
    × ((fold_inventory started_and_stopped (fold_inventory started_and_stopped empty_inventory).0).1
        ≡ true)
unfolding fold_inventory fold_events apply_action action_of inventory_key kind_key announce_entity
    same_event inventory_events sort_by codes
refolded = (refl, refl)
