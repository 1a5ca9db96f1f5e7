-- ===== src/Names.antt =====
-- The mirror of Home Assistant's names: ha-lua/internal/ha/names.go. Here are the registries and their lookups.
pub mod Lookups
pub mod Refresh
mod Tests
use ha_lua.Base.{
  Bool, true, false, not, ◌&&◌, List, [], ◌∷◌, Option, none, some, Text, is_empty, Map, lookup,
  insert, if◌then◌else◌,
}

-- `namedEntity`
pub record NamedEntity : Type 0 where
  pub name : Text
  pub device_id : Text
  pub area_id : Text

-- `namedDevice`
pub record NamedDevice : Type 0 where
  pub name : Text
  pub area_id : Text
  pub parent_id : Text

-- The maps of `Names`.
pub record Names : Type 0 where
  pub entities : Map NamedEntity
  pub devices : Map NamedDevice
  pub areas : Map Text

-- `NewNames`
unfoldable pub new_names : Names
new_names = record { entities = []; devices = []; areas = [] }

-- An element of each list as it is decoded from JSON.
pub record ListedEntity : Type 0 where
  pub entity_id : Text
  pub device_id : Text
  pub area_id : Text
  pub name : Text

pub record ListedDevice : Type 0 where
  pub id : Text
  pub name : Text
  pub name_by_user : Text
  pub area_id : Text
  pub parent_id : Text

pub record ListedArea : Type 0 where
  pub area_id : Text
  pub name : Text

unfoldable pub collect_entities : List ListedEntity → Map NamedEntity → Map NamedEntity
collect_entities [] entities = entities
collect_entities (e ∷ es) entities = collect_entities es (
    insert e.entity_id (record { name = e.name; device_id = e.device_id; area_id = e.area_id })
      entities)

unfoldable pub collect_devices : List ListedDevice → Map NamedDevice → Map NamedDevice
collect_devices [] devices = devices
collect_devices (d ∷ ds) devices =
    (let name = if is_empty d.name_by_user then d.name else d.name_by_user in
      collect_devices ds (
        insert d.id (record { name = name; area_id = d.area_id; parent_id = d.parent_id }) devices))

unfoldable pub collect_areas : List ListedArea → Map Text → Map Text
collect_areas [] areas = areas
collect_areas (a ∷ rest) areas = collect_areas rest (insert a.area_id a.name areas)

-- A reply that does not decode is `none`; then the error is returned, and the mirror stays.
unfoldable pub apply_entities : Option (List ListedEntity) → Names → Names × Bool
apply_entities none n = (n, false)
apply_entities (some es) n = (record n { entities = collect_entities es [] }, true)

unfoldable pub apply_devices : Option (List ListedDevice) → Names → Names × Bool
apply_devices none n = (n, false)
apply_devices (some ds) n = (record n { devices = collect_devices ds [] }, true)

unfoldable pub apply_areas : Option (List ListedArea) → Names → Names × Bool
apply_areas none n = (n, false)
apply_areas (some rest) n = (record n { areas = collect_areas rest [] }, true)

-- The lookups: `none` is a false `ok`, beside which the source returns an empty name. A nil mirror is the empty one.
unfoldable pub entity_name : Text → Names → Option Text
entity_name id n = elim (lookup id n.entities) [ none ↦ none | some e ↦ some e.name ]

unfoldable pub device_name : Text → Names → Option Text
device_name key n = elim (lookup key n.devices) [
  | some d ↦ some d.name
  | none ↦ elim (lookup key n.entities) [
    | none ↦ none
    | some e ↦ elim (lookup e.device_id n.devices) [ none ↦ none | some d ↦ some d.name ]
  ]
]

-- The area id of a device that may be missing, which reads as the zero value.
unfoldable pub area_of : Option NamedDevice → Text
area_of none = []
area_of (some d) = d.area_id

unfoldable pub device_area : Text → Names → Option Text
device_area id n = elim (lookup id n.devices) [
  | none ↦ none
  | some d ↦
      lookup
        (if is_empty d.area_id && not (is_empty d.parent_id)
          then area_of (lookup d.parent_id n.devices)
          else d.area_id)
        n.areas
]

unfoldable pub area_name : Text → Names → Option Text
area_name key n = elim (lookup key n.areas) [
  | some name ↦ some name
  | none ↦ elim (lookup key n.entities) [
    | some e ↦ if is_empty e.area_id then device_area e.device_id n else lookup e.area_id n.areas
    | none ↦ device_area key n
  ]
]
