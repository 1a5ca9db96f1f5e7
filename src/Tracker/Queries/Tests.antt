-- ===== src/Tracker/Queries/Tests.antt =====
-- A lamp that an automation turned on, asked for in the second of the change.
use ha_lua.Base.{
  ◌≡◌, refl, Bool, false, List, [], ◌∷◌, ◌++◌, Option, some, Text, codes, text_eq, text_lt,
  has_prefix, Member, inl, inr,
}
use ha_lua.Tracker.Mirror.{StateData, Mem}
use ha_lua.Tracker.History.{newest_by_time}
use ha_lua.Tracker.Queries.{
  Attribution, first_of, is_agent, named, cause_of_context, attribute, change_at, explained,
  who_changed,
}
use ha_lua.Tracker.Queries.Causes.{IsAgentRow, who_changed-later, who_changed-is_agent}

abbrev row : Text → Text → Text → StateData
row id at context = record {
  entity_id = id;
  state = codes "on";
  attributes = [];
  last_changed = at;
  last_updated = at;
  context = record { id = context; parent_id = []; user_id = [] };
}

abbrev lamp : StateData
lamp = row (codes "light.x") (codes "12:00:00.5") (codes "c")

abbrev history : List StateData
history =
    row (codes "sensor.y") (codes "11:59") (codes "c")
    ∷ row (codes "scene.z") (codes "11:59") (codes "c")
    ∷ []

-- Asked at 12:00:00, the row of that second is not seen.
who_changed-later_example :
    who_changed false false
      (codes "light.x")
      (some (codes "12:00:00"))
      []
      (history ++ lamp ∷ history)
    ≡ who_changed false false (codes "light.x") (some (codes "12:00:00")) [] (history ++ history)
who_changed-later_example =
    who_changed-later false false (codes "light.x") (codes "12:00:00") [] history history lamp 46
      (codes "5") refl refl

abbrev answer : Attribution
answer = record {
  entity_id = codes "light.x";
  state = codes "on";
  changed_at = codes "12:00:00.5";
  context_id = codes "c";
  user_id = [];
  caused_by = codes "scene.z";
}

queries_code : Unit {0}
unfolding first_of is_agent named cause_of_context attribute change_at explained who_changed
    newest_by_time text_eq text_lt has_prefix
queries_code = tt

who_changed-is_agent_example :
    (r : StateData) × Member r (history ++ lamp ∷ [])
    × IsAgentRow (codes "light.x") lamp r
    × (codes "scene.z" ≡ r.entity_id)
    × ([] ≡ r.context.user_id)
unfolding queries_code
who_changed-is_agent_example =
    who_changed-is_agent false false (codes "light.x") (some (codes "12:00:01")) []
      (history ++ lamp ∷ []) lamp answer refl refl (inr (inl (refl, refl, refl))) refl

abbrev glob : Text → Text → Option Bool
glob pattern id = some (has_prefix id pattern)

abbrev mem : Mem
mem = (codes "b", row (codes "b") [] []) ∷ (codes "a", row (codes "a") [] []) ∷ []
