-- ===== src/Exporter/Inventory.antt =====
-- The inventory that the exporter keeps and sends (internal/platform/native/inventory.go, and
-- exportInventory of internal/platform/native/exporter.go). An int is its 64 bits as a number, a map an
-- association list; the encoder of the payload is an argument.
pub mod Bounds
pub mod Quiet
pub mod Tests
use my_own_agent.Prelude.{
  ℕ, ◌+◌, ◌-◌, ◌%◌, ◌^◌, Bool, true, false, not, ◌&&◌, ◌||◌, Option, none, some, List, [], ◌∷◌,
  ◌++◌, length, ltb, leb, ◌==◌, codes, sort_by, if◌then◌else◌, signed_lt, lookup, put, delete,
}
use my_own_agent.Logs.Severity.{has_prefix}
use my_own_agent.Telemetry.{Text, text_eq, Attr}
use my_own_agent.Telemetry.Instruments.{Event}

-- entityRecord
pub record EntityRecord : Type 0 where
  pub ev : Event
  pub seq : ℕ

-- The fields of Exporter that hold the inventory.
pub record Inventory : Type 0 where
  pub table : List (Text × EntityRecord)
  pub nodes : ℕ
  pub edges : ℕ
  pub seq : ℕ
  pub dropped_inventory : ℕ
  pub skipped_inventory : ℕ
  pub last_inventory : ℕ

abbrev max_inventory_entities : ℕ
max_inventory_entities = 4096

abbrev max_inventory_relations : ℕ
max_inventory_relations = 8192

-- attrs[key], where a later attribute of the same key has replaced an earlier one.
abbrev last_value : Text → List Attr → Option Text
last_value key [] = none
last_value key (a ∷ attrs) = elim (last_value key attrs) [
  | some v ↦ some v
  | none ↦ if text_eq a.key key then some a.value else none
]

abbrev value_of : Text → List Attr → Text
value_of key attrs = elim (last_value key attrs) [ none ↦ [] | some v ↦ v ]

-- a + "|" + b
abbrev piped : Text → Text → Text
piped a b = a ++ 124 ∷ b

abbrev pub no_text : Text → Bool
no_text s = length s == 0

-- The keys of the kinds of entity that have no ID of their own.
unfoldable pub kind_key : List Attr → Text
kind_key attrs =
    let get = λ (key : Text). value_of key attrs in
    let kind = get (codes "entity.kind") in
    let name =
      if no_text (get (codes "name")) then get (codes "display_name") else get (codes "name") in
    if text_eq kind (codes "container")
    then piped kind (get (codes "container_id"))
    else if text_eq kind (codes "filesystem")
    then piped kind (get (codes "mountpoint"))
    else if text_eq kind (codes "network_interface")
    then piped kind (get (codes "interface"))
    else if text_eq kind (codes "network_endpoint")
    then piped kind
        (piped (get (codes "protocol")) (piped (get (codes "address")) (get (codes "port"))))
    else if text_eq kind (codes "host")
        || text_eq kind (codes "runtime")
        || text_eq kind (codes "cloud_instance")
    then kind
    else if text_eq kind (codes "kubernetes_pod")
    then piped kind (
        if no_text (get (codes "pod_uid"))
        then get (codes "namespace") ++ 47 ∷ get (codes "pod")
        else get (codes "pod_uid"))
    else if text_eq kind (codes "process")
    then piped kind (piped (get (codes "name")) (get (codes "pid")))
    else if no_text kind
    then []
    else if no_text name
    then []
    else piped kind name

-- inventoryKey
unfoldable pub inventory_key : Event → Text
unfolding kind_key
inventory_key ev =
    let get = λ (key : Text). value_of key ev.attrs in
    if not (no_text (get (codes "relation"))) && not (no_text (get (codes "from.entity.id")))
    then piped (get (codes "relation"))
        (piped (get (codes "from.entity.id")) (get (codes "to.entity.id")))
    else if not (no_text (get (codes "entity.target.id")))
    then get (codes "entity.target.id")
    else kind_key ev.attrs

-- Whether the first attribute with the key has the value.
abbrev agrees : Attr → List Attr → Bool
agrees a [] = false
agrees a (other ∷ others) =
    let rest = agrees a others in
    if text_eq a.key other.key then text_eq a.value other.value else rest

abbrev all_agree : List Attr → List Attr → Bool
all_agree [] others = true
all_agree (a ∷ attrs) others = agrees a others && all_agree attrs others

-- sameEvent
unfoldable pub same_event : Event → Event → Bool
same_event a b =
    text_eq a.name b.name
    && a.severity == b.severity
    && length a.attrs == length b.attrs
    && all_agree a.attrs b.attrs

-- What an event asks of the table; the test is whether it is about a relation.
pub data Action : Type 0 where
  ignores : Action
  removes announces : Text → Bool → Action

-- The tests of the loop of foldInventory.
unfoldable pub action_of : Event → Action
unfolding inventory_key
action_of ev =
    let is_entity = has_prefix (codes "discovery.entity.") ev.name in
    let is_relation = has_prefix (codes "discovery.relationship.") ev.name in
    let plain = inventory_key ev in
    let key = if is_relation then piped (codes "rel") plain else plain in
    if not is_entity && not is_relation
    then ignores
    else if no_text plain
    then ignores
    else if text_eq ev.name (codes "discovery.entity.removed")
        || text_eq ev.name (codes "discovery.relationship.removed")
    then removes key is_relation
    else if text_eq ev.name (codes "discovery.entity.discovered")
        || text_eq ev.name (codes "discovery.entity.changed")
        || text_eq ev.name (codes "discovery.relationship.discovered")
    then announces key is_relation
    else ignores

-- atInventoryCap
abbrev pub at_inventory_cap : Bool → Inventory → Bool
at_inventory_cap true i = not (signed_lt i.edges max_inventory_relations)
at_inventory_cap false i = not (signed_lt i.nodes max_inventory_entities)

-- countInventory; -1 is 2 ^ 64 - 1.
abbrev pub count_inventory : Bool → ℕ → Inventory → Inventory
count_inventory true delta i = record i { edges = (i.edges + delta) % 2 ^ 64 }
count_inventory false delta i = record i { nodes = (i.nodes + delta) % 2 ^ 64 }

-- A removal, by what the table has under the key; the second component is whether anything changed.
abbrev pub remove_entity : Text → Bool → Option EntityRecord → Inventory → Inventory × Bool
remove_entity key relation none i = (i, false)
remove_entity key relation (some rec) i =
    (count_inventory relation (2 ^ 64 - 1) (record i { table = delete text_eq key i.table }), true)

-- An announcement of something that is not in the table.
abbrev pub add_entity : Text → Bool → Event → Inventory → Inventory × Bool
add_entity key relation ev i =
    if at_inventory_cap relation i
    then (record i { dropped_inventory = (i.dropped_inventory + 1) % 2 ^ 64 }, false)
    else (
      count_inventory relation 1 (record i {
        seq = (i.seq + 1) % 2 ^ 64;
        table = put text_eq key (record { ev = ev; seq = (i.seq + 1) % 2 ^ 64 }) i.table;
      }),
      true,
    )

-- An announcement.
unfoldable pub announce_entity :
    Text → Bool → Event → Option EntityRecord → Inventory → Inventory × Bool
unfolding same_event
announce_entity key relation ev none i = add_entity key relation ev i
announce_entity key relation ev (some rec) i =
    if same_event rec.ev ev
    then (i, false)
    else (record i { table = put text_eq key (record rec { ev = ev }) i.table }, true)

unfoldable pub apply_action : Action → Event → Inventory → Inventory × Bool
unfolding announce_entity
apply_action ignores ev i = (i, false)
apply_action (removes key relation) ev i = remove_entity key relation (lookup text_eq key i.table) i
apply_action (announces key relation) ev i =
    announce_entity key relation ev (lookup text_eq key i.table) i

-- The loop of foldInventory.
unfoldable pub fold_events : List Event → Inventory → Bool → Inventory × Bool
unfolding apply_action action_of
fold_events [] i changed = (i, changed)
fold_events (ev ∷ evs) i changed =
    let (next, now) = apply_action (action_of ev) ev i in fold_events evs next (changed || now)

abbrev by_seq : EntityRecord → EntityRecord → Bool
by_seq a b = signed_lt a.seq b.seq

records_of : List (Text × EntityRecord) → List EntityRecord
records_of [] = []
records_of ((key, rec) ∷ table) = rec ∷ records_of table

events_of : List EntityRecord → List Event
events_of [] = []
events_of (rec ∷ recs) = rec.ev ∷ events_of recs

-- What foldInventory returns beside its flag.
unfoldable pub inventory_events : Inventory → List Event
unfolding events_of records_of sort_by
inventory_events i = events_of (sort_by by_seq (records_of i.table))

-- foldInventory
unfoldable pub fold_inventory : List Event → Inventory → Inventory × Bool
unfolding fold_events
fold_inventory evs i = fold_events evs i false

-- inventoryResendDue
abbrev pub inventory_resend_due : ℕ → Inventory → Bool
inventory_resend_due now i = i.last_inventory == 0 || leb (3600000000000 + i.last_inventory) now

-- What follows foldInventory in exportInventory, with the body that it posts, if it posts one.
unfoldable pub send_inventory : (List Event → Text) → ℕ → Inventory × Bool → Inventory × Option Text
unfolding inventory_events
send_inventory encode now (folded, changed) =
    let body = encode (inventory_events folded) in
    if not changed && not (inventory_resend_due now folded)
    then (record folded { skipped_inventory = (folded.skipped_inventory + 1) % 2 ^ 64 }, none)
    else if no_text body
    then (folded, none)
    else (record folded { last_inventory = now }, some body)

-- exportInventory
unfoldable pub export_inventory :
    (List Event → Text) → ℕ → List Event → Inventory → Inventory × Option Text
unfolding fold_inventory send_inventory
export_inventory encode now evs i = send_inventory encode now (fold_inventory evs i)
