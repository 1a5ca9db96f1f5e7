-- ===== src/Names/Lookups.antt =====
-- What the lookups answer from the lists that the server sent.
use ha_lua.Base.{
  ◌≡◌, refl, false, List, [], ◌∷◌, Option, none, some, Text, text_eq, is_empty, Map, lookup, insert,
  lookup-insert, lookup-nil, if◌then◌else◌, arith,
}
use ha_lua.Names.{
  NamedEntity, NamedDevice, Names, ListedEntity, ListedDevice, ListedArea, collect_entities,
  collect_devices, collect_areas, apply_entities, apply_devices, apply_areas, entity_name,
  device_name, area_name,
}

-- The last element of a list with a key, under a reading.
unfoldable pub last_with {ℓ κ} :
    {A : Type ℓ} {B : Type κ} → (A → Text) → (A → B) → Text → List A → Option B
last_with key read k [] = none
last_with key read k (a ∷ rest) =
    let later = last_with key read k rest in
    elim later [ some b ↦ some b | none ↦ if text_eq (key a) k then some (read a) else none ]

abbrev or_else {ℓ} : {B : Type ℓ} → Option B → Option B → Option B
or_else (some b) o = some b
or_else none o = o

-- The name that a user gave a device, or its own.
unfoldable pub shown_name : ListedDevice → Text
shown_name d = if is_empty d.name_by_user then d.name else d.name_by_user

lookup-collect_entities :
    (k : Text) (es : List ListedEntity) (m : Map NamedEntity)
    → lookup k (collect_entities es m)
      ≡ or_else
          (last_with ListedEntity.entity_id
            (λ e. record { name = e.name; device_id = e.device_id; area_id = e.area_id })
            k
            es)
          (lookup k m)
unfolding collect_entities last_with
lookup-collect_entities k [] m = refl
lookup-collect_entities k (e ∷ es) m =
    let named : NamedEntity = record {
      name = e.name;
      device_id = e.device_id;
      area_id = e.area_id;
    } in
    ground (
      arith,
      lookup-collect_entities k es (insert e.entity_id named m),
      lookup-insert e.entity_id k named m,
    )

lookup-collect_devices :
    (k : Text) (ds : List ListedDevice) (m : Map NamedDevice)
    → lookup k (collect_devices ds m)
      ≡ or_else
          (last_with ListedDevice.id
            (λ d. record { name = shown_name d; area_id = d.area_id; parent_id = d.parent_id })
            k
            ds)
          (lookup k m)
unfolding collect_devices last_with shown_name
lookup-collect_devices k [] m = refl
lookup-collect_devices k (d ∷ ds) m =
    let named : NamedDevice = record {
      name = if is_empty d.name_by_user then d.name else d.name_by_user;
      area_id = d.area_id;
      parent_id = d.parent_id;
    } in
    ground (arith, lookup-collect_devices k ds (insert d.id named m), lookup-insert d.id k named m)

lookup-collect_areas :
    (k : Text) (rest : List ListedArea) (m : Map Text)
    → lookup k (collect_areas rest m)
      ≡ or_else (last_with ListedArea.area_id ListedArea.name k rest) (lookup k m)
unfolding collect_areas last_with
lookup-collect_areas k [] m = refl
lookup-collect_areas k (a ∷ rest) m = ground (
  arith,
  lookup-collect_areas k rest (insert a.area_id a.name m),
  lookup-insert a.area_id k a.name m,
)

last_with-some {ℓ κ τ} :
    {A : Type ℓ} {B : Type κ} {C : Type τ} (key : A → Text) (read : A → B) (field : B → C)
    (k : Text) (l : List A)
    → last_with key (λ a. field (read a)) k l
      ≡ elim (last_with key read k l) [ none ↦ none | some b ↦ some (field b) ]
unfolding last_with
last_with-some key read field k [] = refl
last_with-some key read field k (a ∷ rest) = ground (arith, last_with-some key read field k rest)

-- The mirror after the three registries were fetched.
unfoldable pub refreshed : List ListedEntity → List ListedDevice → List ListedArea → Names → Names
refreshed es ds rest n =
    (apply_areas (some rest) (apply_devices (some ds) (apply_entities (some es) n).0).0).0

-- After the three registries are fetched, whatever the mirror held before: an entity has the name of its last listing and
-- one that is not listed has none; a listed device has the name that the user gave it, or else its own; a listed
-- area has its name; and an entity that is no area id has, by its last listing, its own area where it has one.
pub names-refreshed :
    (es : List ListedEntity) (ds : List ListedDevice) (rest : List ListedArea) (n : Names)
    (k : Text)
    → let m = refreshed es ds rest n in
      (entity_name k m ≡ last_with ListedEntity.entity_id ListedEntity.name k es)
      × ((x : Text) → last_with ListedDevice.id shown_name k ds ≡ some x → device_name k m ≡ some x)
      × ((x : Text)
          → last_with ListedArea.area_id ListedArea.name k rest ≡ some x
          → area_name k m ≡ some x)
      × ((own : Text)
          → last_with ListedArea.area_id ListedArea.name k rest ≡ none
          → last_with ListedEntity.entity_id ListedEntity.area_id k es ≡ some own
          → is_empty own ≡ false
          → area_name k m ≡ last_with ListedArea.area_id ListedArea.name own rest)
unfolding refreshed apply_areas apply_devices apply_entities entity_name device_name area_name
names-refreshed es ds rest n k =
    let listed : ListedEntity → NamedEntity =
      λ e. record { name = e.name; device_id = e.device_id; area_id = e.area_id } in
    let placed : ListedDevice → NamedDevice =
      λ d. record { name = shown_name d; area_id = d.area_id; parent_id = d.parent_id } in
    let found = lookup-collect_entities k es [] in
    let device = lookup-collect_devices k ds [] in
    let area = lookup-collect_areas k rest [] in
    let name = last_with-some ListedEntity.entity_id listed NamedEntity.name k es in
    let home = last_with-some ListedEntity.entity_id listed NamedEntity.area_id k es in
    let shown = last_with-some ListedDevice.id placed NamedDevice.name k ds in
    (
      ground (arith, found, name, lookup-nil {V = NamedEntity} k),
      λ x e. ground (arith, device, shown, e, lookup-nil {V = NamedDevice} k),
      λ x e. ground (arith, area, e, lookup-nil {V = Text} k),
      λ own e f g. ground (
        arith,
        area,
        e,
        found,
        home,
        f,
        g,
        lookup-nil {V = Text} k,
        lookup-nil {V = NamedEntity} k,
        lookup-collect_areas own rest [],
        lookup-nil {V = Text} own,
      ),
    )
