-- ===== src/Names/Tests.antt =====
-- A lamp in the kitchen by its device, a rename while the registries are being fetched.
use ha_lua.Base.{
  ◌≡◌, refl, ℕ, false, List, [], ◌∷◌, some, codes, arith, All, text_eq, lookup, insert,
}
use ha_lua.Names.{
  ListedEntity, ListedDevice, ListedArea, Names, new_names, area_name, device_area, area_of,
  collect_entities, collect_devices, collect_areas, apply_entities, apply_devices, apply_areas,
}
use ha_lua.Names.Lookups.{refreshed}
use ha_lua.Names.Refresh.{
  Refresh, Act, waiting, edit, wake, settle, next, answer, apply, act, act_all, changed,
  changed_all, visit, settle_at, next_at, answer_at, apply_at, wake_at,
}
use ha_lua.Names.Refresh.Fresh.{IsFresh, Succeeds, act_all-IsFresh}

abbrev lamp : ListedEntity
lamp = record { entity_id = codes "l"; device_id = codes "d"; area_id = []; name = codes "Lamp" }

abbrev device : ListedDevice
device = record {
  id = codes "d";
  name = codes "x1";
  name_by_user = codes "Dev";
  area_id = codes "k";
  parent_id = [];
}

abbrev kitchen : ListedArea
kitchen = record { area_id = codes "k"; name = codes "Kitchen" }

abbrev full : Names
full = refreshed (lamp ∷ []) (device ∷ []) (kitchen ∷ []) new_names

lamp-area : area_name (codes "l") full ≡ some (codes "Kitchen")
unfolding new_names refreshed apply_entities apply_devices apply_areas collect_entities
    collect_devices collect_areas area_name device_area area_of lookup insert text_eq
lamp-area = refl

abbrev idle : Refresh ℕ
idle = record {
  stale = λ i. false;
  signal = false;
  settled = false;
  place = waiting;
  mirror = λ i. 0;
  server = λ i. 0;
}

idle-IsFresh : IsFresh idle
idle-IsFresh = record { shown = λ j l f g. refl; due = λ j l f. cc; held = λ i r l e f. cc }

-- Source 0 changes again while its answer is under way.
abbrev acts : List (Act ℕ)
acts =
    edit 0 1
    ∷ wake
    ∷ settle
    ∷ next
    ∷ answer
    ∷ edit 0 2
    ∷ apply
    ∷ next
    ∷ next
    ∷ next
    ∷ wake
    ∷ settle
    ∷ next
    ∷ answer
    ∷ apply
    ∷ next
    ∷ next
    ∷ next
    ∷ []

refresh_code : Unit {0}
unfolding act act_all changed changed_all visit settle_at next_at answer_at apply_at wake_at
refresh_code = tt

acts-shown : (act_all acts idle).mirror 0 ≡ 2
unfolding refresh_code
acts-shown = refl

acts-Succeeds : All Succeeds acts
acts-Succeeds = omega arith

act_all-IsFresh_example : IsFresh (act_all acts idle)
act_all-IsFresh_example = act_all-IsFresh acts idle acts-Succeeds idle-IsFresh
