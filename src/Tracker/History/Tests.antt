-- ===== src/Tracker/History/Tests.antt =====
-- Tests of the aggregates, and the theorems at concrete inputs.
use ha_lua.Base.{
  ℕ, ◌-◌, ◌≡◌, refl, ◌||◌, true, List, [], ◌∷◌, Option, none, some, Text, codes, text_eq, text_lt,
  is_empty, keep, length, arith, pos, ◌+ℤ◌,
}
use ha_lua.Tracker.Mirror.{StateData}
use ha_lua.Tracker.History.{
  Points, history_points, newest_by_time, sort_by_time, insert_by_time, read_points,
  duration_in_state, duration_loop, count_changes, count_loop,
}
use ha_lua.Tracker.History.Duration.{state_at, ticks, duration_in_state_lem}
use ha_lua.Tracker.History.Changes.{
  transitions, transitions_from, opening_transitions, count_changes_lem,
}

history_code : Unit {0}
unfolding history_points newest_by_time sort_by_time insert_by_time read_points duration_in_state
    duration_loop count_changes count_loop state_at ticks transitions_from opening_transitions
    text_eq text_lt ◌+ℤ◌
history_code = tt

abbrev row : Text → Text → StateData
row state at = record {
  entity_id = codes "l";
  state = state;
  attributes = codes "{}";
  last_changed = at;
  last_updated = at;
  context = record { id = []; parent_id = []; user_id = [] };
}

-- A stamp is one byte, its own instant.
abbrev first_byte : Text → Option ℕ
first_byte [] = none
first_byte (b ∷ s) = some b

abbrev stored : List StateData
stored = row (codes "on") (50 ∷ []) ∷ row (codes "off") (20 ∷ []) ∷ row (codes "on") (10 ∷ []) ∷ []

abbrev evening : Points
evening = record {
  baseline = codes "on";
  points = record { state = codes "off"; at = 30 } ∷ record { state = codes "on"; at = 50 } ∷ [];
  complete = true;
}

history_points_test : history_points first_byte (codes "l") (25 ∷ []) 25 stored ≡ record {
  baseline = codes "off";
  points = record { state = codes "on"; at = 50 } ∷ [];
  complete = true;
}
unfolding history_code
history_points_test = refl

duration_test : duration_in_state (codes "on") 25 60 evening ≡ (pos 15, true)
unfolding history_code
duration_test = refl

duration_in_state_lem_example : duration_in_state (codes "on") 25 60 evening ≡ (
  pos (ticks (λ t. text_eq (state_at (codes "on") evening.points t) (codes "on")) 25 (60 - 25)),
  true,
)
duration_in_state_lem_example = duration_in_state_lem (codes "on") 25 60 evening (omega arith)

count_changes_lem_example :
    count_changes [] evening
    ≡ (length (keep (λ p. is_empty [] || text_eq p.state []) (transitions evening)), true)
count_changes_lem_example = count_changes_lem [] evening
