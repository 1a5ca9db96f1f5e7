-- ===== src/Handlers/Tests.antt =====
-- A script that listens to a lamp and has one timer that runs once.
use ha_lua.Base.{
  ℕ, suc, ◌≡◌, refl, true, false, List, [], ◌∷◌, Option, none, some, Text, text_eq, codes, Map,
  lookup, delete,
}
use ha_lua.Runner.Loop.{HaEvent}
use ha_lua.Dispatch.{Runner}
use ha_lua.Scheduler.Timers.{Timer, after}
use ha_lua.Scheduler.Engine.{State}
use ha_lua.Scheduler.Engine.Tests.{registered_once, list_heap, calendar}
use ha_lua.Script.{Api, new_api, plain, Call, on_event}
use ha_lua.Handlers.{Inputs, handle_timer_fired}
use ha_lua.Handlers.Timers.{fired-registered}

abbrev api : Api
api = record new_api {
  state_handlers = record { pattern = codes "lamp"; fn = 1; initial = true } ∷ [];
}

abbrev inputs : Inputs
inputs = record {
  mqtt_handlers = record { filter = codes "home/#"; fn = 2 } ∷ [];
  syslog_handlers = [];
  wants_syslog = false;
}

abbrev fresh : Runner
fresh = record {
  loaded = false;
  state_patterns = [];
  event_handlers = [];
  mqtt_handlers = [];
  wants_syslog = false;
  channel = record { queue = []; dropped = 0 };
}

abbrev lamp_on : HaEvent
lamp_on = record { typ = codes "state_changed"; payload = codes "lamp" }

abbrev empty : State (List Timer)
empty = record { heap = []; rows = [] }

-- Registered by a callback.
abbrev registrations : List (ℕ × Option Text × Call)
registrations = (9, none, on_event (codes "scene") 5) ∷ []

abbrev filters : List (Text × ℕ)
filters = (codes "garden/+", 6) ∷ []

abbrev id : Text
id = codes "a|b.lua|after|00ff"

abbrev fns : Map ℕ
fns = (id, 4) ∷ []

there : lookup id fns ≡ some 4
unfolding lookup text_eq
there = refl

fired-registered_example :
    (handle_timer_fired (codes "a|b.lua") id fns
      ≡ (delete id fns, record { label = codes "timer_after"; fn = plain 4; event = none } ∷ []))
    × (handle_timer_fired (codes "a|b.lua") id (delete id fns) ≡ (delete id fns, []))
fired-registered_example =
    fired-registered (calendar suc) list_heap (λ i. false) after (codes "a|b.lua") (codes "5s") id 1
      7 (some (codes "00ff")) empty fns 4 registered_once there
