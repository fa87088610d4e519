-- ===== src/Exporter/Inventory/Bounds.antt =====
-- The bounds on the inventory (internal/platform/native/inventory.go).
use my_own_agent.Prelude.{
  ◌+◌, ◌-◌, ◌%◌, ◌^◌, ◌≤◌, ◌≡◌, refl, Bool, true, false, ◌&&◌, ◌||◌, Option, none, some, List, [],
  ◌∷◌, length, ltb, leb, arith, lookup, put, length-put, length-delete,
}
use my_own_agent.Telemetry.{Text, text_eq}
use my_own_agent.Telemetry.Instruments.{Event}
use my_own_agent.Exporter.Inventory.{
  EntityRecord, Inventory, Action, ignores, removes, announces, action_of, remove_entity,
  add_entity, announce_entity, apply_action, fold_events, fold_inventory,
}

-- Both tallies, as integers, lie between the negative of the other's bound and their own bound, add
-- up to the number of entries, and so bound it. (An entity whose ID reads as the key of a relation is
-- counted as a node and may be removed as an edge, so that a tally can go below zero.)
pub record IsBounded (i : Inventory) : Type 0 where
  pub total : (i.nodes + i.edges) % 2 ^ 64 ≡ length i.table
  pub size : length i.table ≤ 12288
  pub nodes_within : leb i.nodes 4096 || leb (2 ^ 64 - 8192) i.nodes && ltb i.nodes (2 ^ 64) ≡ true
  pub edges_within : leb i.edges 8192 || leb (2 ^ 64 - 4096) i.edges && ltb i.edges (2 ^ 64) ≡ true

remove_entity-IsBounded :
    (key : Text) (relation : Bool) (o : Option EntityRecord) (i : Inventory)
    → lookup text_eq key i.table ≡ o
    → IsBounded i
    → IsBounded (remove_entity key relation o i).0
remove_entity-IsBounded key relation none i h b = b
remove_entity-IsBounded key true (some rec) i h b =
    ground (arith, length-delete text_eq key i.table rec h)
remove_entity-IsBounded key false (some rec) i h b =
    ground (arith, length-delete text_eq key i.table rec h)

put_new :
    (key : Text) (rec : EntityRecord) (table : List (Text × EntityRecord))
    → lookup text_eq key table ≡ none
    → length (put text_eq key rec table) ≡ length table + 1
put_new key rec table h = ground (arith, length-put text_eq key rec table)

put_known :
    (key : Text) (old rec : EntityRecord) (table : List (Text × EntityRecord))
    → lookup text_eq key table ≡ some old
    → length (put text_eq key rec table) ≡ length table
put_known key old rec table h = ground (arith, length-put text_eq key rec table)

add_entity-IsBounded :
    (key : Text) (relation : Bool) (ev : Event) (i : Inventory)
    → lookup text_eq key i.table ≡ none
    → IsBounded i
    → IsBounded (add_entity key relation ev i).0
add_entity-IsBounded key true ev i h b =
    ground (arith, put_new key (record { ev = ev; seq = (i.seq + 1) % 2 ^ 64 }) i.table h)
add_entity-IsBounded key false ev i h b =
    ground (arith, put_new key (record { ev = ev; seq = (i.seq + 1) % 2 ^ 64 }) i.table h)

announce_entity-IsBounded :
    (key : Text) (relation : Bool) (ev : Event) (o : Option EntityRecord) (i : Inventory)
    → lookup text_eq key i.table ≡ o
    → IsBounded i
    → IsBounded (announce_entity key relation ev o i).0
unfolding announce_entity
announce_entity-IsBounded key relation ev none i h b = add_entity-IsBounded key relation ev i h b
announce_entity-IsBounded key relation ev (some rec) i h b =
    ground (arith, put_known key rec (record rec { ev = ev }) i.table h)

apply_action-IsBounded :
    (action : Action) (ev : Event) (i : Inventory)
    → IsBounded i
    → IsBounded (apply_action action ev i).0
unfolding apply_action
apply_action-IsBounded ignores ev i b = b
apply_action-IsBounded (removes key relation) ev i b =
    remove_entity-IsBounded key relation (lookup text_eq key i.table) i refl b
apply_action-IsBounded (announces key relation) ev i b =
    announce_entity-IsBounded key relation ev (lookup text_eq key i.table) i refl b

fold_events-IsBounded :
    (evs : List Event) (i : Inventory) (changed : Bool)
    → IsBounded i
    → IsBounded (fold_events evs i changed).0
unfolding fold_events
fold_events-IsBounded [] i changed b = b
fold_events-IsBounded (ev ∷ evs) i changed b =
    fold_events-IsBounded evs _ _ (apply_action-IsBounded (action_of ev) ev i b)

-- Whatever the events, the inventory keeps at most 4096 entities and 8192 relations by its tallies,
-- and the tallies add up to the number of its entries, of which there are 12288 at most.
pub fold_inventory-IsBounded :
    (evs : List Event) (i : Inventory) → IsBounded i → IsBounded (fold_inventory evs i).0
unfolding fold_inventory
fold_inventory-IsBounded evs i b = fold_events-IsBounded evs i false b
