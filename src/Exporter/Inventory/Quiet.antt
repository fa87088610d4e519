-- ===== src/Exporter/Inventory/Quiet.antt =====
-- What the flag of foldInventory says (internal/platform/native/inventory.go), and when exportInventory
-- sends nothing (internal/platform/native/exporter.go).
use my_own_agent.Prelude.{
  ℕ, ◌+◌, ◌≡◌, ◌<◌, ◌*◌, ◌⊎◌, inl, inr, subst, refl, ap, ◌∙◌, sort_by, Bool, true, false, Option,
  none, some, List, [], ◌∷◌, arith, lookup,
}
use my_own_agent.Telemetry.{Text, text_eq}
use my_own_agent.Telemetry.Instruments.{Event}
use my_own_agent.Exporter.Inventory.{
  EntityRecord, Inventory, Action, ignores, removes, announces, action_of, remove_entity,
  announce_entity, apply_action, fold_events, fold_inventory, by_seq, records_of, events_of,
  no_text, send_inventory, inventory_events, export_inventory,
}

-- What a step that changes nothing keeps: the entries, and when the inventory was last sent.
abbrev Same : Inventory → Inventory → Type 0
Same i j = (j.table ≡ i.table) × (j.last_inventory ≡ i.last_inventory)

announce_entity-Same :
    (key : Text) (relation : Bool) (ev : Event) (o : Option EntityRecord) (i : Inventory)
    → (announce_entity key relation ev o i).1 ≡ false
    → Same i (announce_entity key relation ev o i).0
unfolding announce_entity
announce_entity-Same key true ev none i h = ground arith
announce_entity-Same key false ev none i h = ground arith
announce_entity-Same key relation ev (some rec) i h = ground arith

remove_entity-Same :
    (key : Text) (relation : Bool) (o : Option EntityRecord) (i : Inventory)
    → (remove_entity key relation o i).1 ≡ false
    → Same i (remove_entity key relation o i).0
remove_entity-Same key relation none i h = (refl, refl)
remove_entity-Same key relation (some rec) i h = absurd (ground arith)

apply_action-Same :
    (action : Action) (ev : Event) (i : Inventory)
    → (apply_action action ev i).1 ≡ false
    → Same i (apply_action action ev i).0
unfolding apply_action
apply_action-Same ignores ev i h = (refl, refl)
apply_action-Same (removes key relation) ev i h =
    remove_entity-Same key relation (lookup text_eq key i.table) i h
apply_action-Same (announces key relation) ev i h =
    announce_entity-Same key relation ev (lookup text_eq key i.table) i h

fold_events-true : (evs : List Event) (i : Inventory) → (fold_events evs i true).1 ≡ true
unfolding fold_events
fold_events-true [] i = refl
fold_events-true (ev ∷ evs) i = fold_events-true evs (apply_action (action_of ev) ev i).0

fold_events-Same :
    (evs : List Event) (i : Inventory)
    → (fold_events evs i false).1 ≡ false
    → Same i (fold_events evs i false).0
unfolding fold_events
fold_events-Same [] i h = (refl, refl)
fold_events-Same (ev ∷ evs) i h =
    go (apply_action (action_of ev) ev i).1 refl h (λ k. fold_events-Same evs next k)
  where
    next : Inventory
    next = (apply_action (action_of ev) ev i).0

    go :
        (b : Bool)
        → (apply_action (action_of ev) ev i).1 ≡ b
        → (fold_events evs next b).1 ≡ false
        → ((fold_events evs next false).1 ≡ false → Same next (fold_events evs next false).0)
        → Same i (fold_events evs next b).0
    go true e k later = absurd (ground (arith, fold_events-true evs next))
    go false e k later =
        let step : Same i next = apply_action-Same (action_of ev) ev i e in
        let rest : Same next (fold_events evs next false).0 = later k in
        (rest.0 ∙ step.0, rest.1 ∙ step.1)

-- An hour, in nanoseconds.
abbrev pub hour : ℕ
hour = 60 * 60 * 1000000000

empty_of_no_text : (s : Text) → no_text s ≡ true → s ≡ []
empty_of_no_text [] h = refl
empty_of_no_text (c ∷ s) h = absurd (ground arith)

-- What was not sent had not changed and was not due, or has no payload.
send_inventory-unsent :
    (encode : List Event → Text) (now : ℕ) (folded : Inventory) (changed : Bool)
    → (send_inventory encode now (folded, changed)).1 ≡ none
    → ((changed ≡ false) × (0 < folded.last_inventory) × (now < folded.last_inventory + hour))
      ⊎ (no_text (encode (inventory_events folded)) ≡ true)
unfolding send_inventory
send_inventory-unsent encode now folded changed h = ground arith

send_inventory-table :
    (encode : List Event → Text) (now : ℕ) (folded : Inventory × Bool)
    → (send_inventory encode now folded).0.table ≡ folded.0.table
unfolding send_inventory
send_inventory-table encode now folded = ground arith

-- When exportInventory posts nothing, then either the inventory is the one there was before the events
-- and has been sent less than an hour ago, or there is nothing to post: the encoder gives an empty
-- payload for the inventory.
pub export_inventory-unsent :
    (encode : List Event → Text) (now : ℕ) (evs : List Event) (i : Inventory)
    → (export_inventory encode now evs i).1 ≡ none
    → ((inventory_events (export_inventory encode now evs i).0 ≡ inventory_events i)
        × (0 < i.last_inventory)
        × (now < i.last_inventory + hour))
      ⊎ (encode (inventory_events (export_inventory encode now evs i).0) ≡ [])
unfolding export_inventory fold_inventory inventory_events
export_inventory-unsent encode now evs i h =
    elim (send_inventory-unsent encode now folded.0 folded.1 h) [
      | inl (unchanged, sent, recent) ↦
          let same : Same i folded.0 = fold_events-Same evs i unchanged in
          inl (
            ap sorted_events (table ∙ same.0),
            subst (λ (t : ℕ). 0 < t) same.1 sent,
            subst (λ (t : ℕ). now < t + hour) same.1 recent,
          )
      | inr nothing ↦ inr (
          ap (λ t. encode (sorted_events t)) table
          ∙ empty_of_no_text (encode (inventory_events folded.0)) nothing)
    ]
  where
    folded : Inventory × Bool
    folded = fold_events evs i false

    sorted_events : List (Text × EntityRecord) → List Event
    sorted_events t = events_of (sort_by by_seq (records_of t))

    table : (send_inventory encode now folded).0.table ≡ folded.0.table
    table = send_inventory-table encode now folded
