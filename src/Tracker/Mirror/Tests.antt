-- ===== src/Tracker/Mirror/Tests.antt =====
-- Tests of the mirror, and the theorems at concrete inputs.
use ha_lua.Base.{
  ℕ, ◌≡◌, refl, true, [], ◌∷◌, map, Option, none, some, Text, codes, text_eq, text_eq_iff, lookup,
  insert, delete, ok,
}
use ha_lua.Tracker.Mirror.{
  StateData, StateChanged, Mem, normalised, attr_str, get_state, handle_state_changed,
  history_baseline, newer_than, merged, appended, merge, appends, seed, seed_baseline,
}
use ha_lua.Tracker.Mirror.Seeding.{find_last, merged_at, IsDistinct, seed-get_state}
use ha_lua.Tracker.Mirror.Coherence.{IsCoherent, seed-IsCoherent}

mirror_code : Unit {0}
unfolding attr_str get_state handle_state_changed history_baseline newer_than merged appended merge
    appends seed seed_baseline find_last lookup insert delete text_eq
mirror_code = tt

abbrev first_byte : Text → Option ℕ
first_byte [] = none
first_byte (b ∷ s) = some b

abbrev entity : Text → Text → ℕ → StateData
entity id state at = record {
  entity_id = id;
  state = state;
  attributes = [];
  last_changed = at ∷ [];
  last_updated = at ∷ [];
  context = record { id = []; parent_id = []; user_id = [] };
}

abbrev lamp : StateData
lamp = entity (codes "l") (codes "on") 5

abbrev door : StateData
door = entity (codes "d") (codes "open") 5

-- The live entry of the lamp is newer than the batch, and the fan is gone.
abbrev live : Mem
live =
    (codes "l", normalised (entity (codes "l") (codes "off") 9))
    ∷ (codes "f", normalised (entity (codes "f") (codes "on") 1))
    ∷ []

abbrev after_seed : Mem
after_seed =
    (codes "l", normalised (entity (codes "l") (codes "off") 9)) ∷ (codes "d", normalised door) ∷ []

seed_test : seed first_byte true [] (lamp ∷ door ∷ []) live ≡ ok (after_seed, normalised door ∷ [])
unfolding mirror_code
seed_test = refl

batch-IsDistinct : IsDistinct (lamp ∷ door ∷ [])
unfolding mirror_code
batch-IsDistinct = (((λ e. cc ((text_eq_iff (codes "d") (codes "l")).1 e)), tt), (tt, tt))

seed-get_state_example :
    get_state (codes "l") after_seed
    ≡ merged_at first_byte live (find_last (codes "l") (map normalised (lamp ∷ door ∷ []))) none
unfolding mirror_code
seed-get_state_example =
    seed-get_state first_byte true [] lamp (door ∷ []) live after_seed (normalised door ∷ [])
      (codes "l") refl

empty-IsCoherent : IsCoherent [] []
unfolding mirror_code
empty-IsCoherent id s e = cc

seed-IsCoherent_example :
    IsCoherent
      ((codes "l", normalised lamp) ∷ (codes "d", normalised door) ∷ [])
      (normalised lamp ∷ normalised door ∷ [])
unfolding mirror_code
seed-IsCoherent_example =
    seed-IsCoherent first_byte true [] lamp (door ∷ []) [] _ [] _ batch-IsDistinct (λ _. refl) refl
      empty-IsCoherent

abbrev decode_lamp : Text → Option StateChanged
decode_lamp raw = some (record { entity_id = codes "l"; new_state = some lamp })
