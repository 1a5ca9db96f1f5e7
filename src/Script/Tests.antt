-- ===== src/Script/Tests.antt =====
-- A script with two timers and two routes.
use ha_lua.Base.{
  ℕ, suc, ◌≡◌, refl, true, false, List, [], ◌∷◌, Option, none, some, Text, text_eq, has_prefix,
  codes, All, keep,
}
use ha_lua.Scheduler.Timers.{Row, Timer, every}
use ha_lua.Scheduler.Engine.{State}
use ha_lua.Scheduler.Engine.Tests.{list_heap, calendar}
use ha_lua.Scheduler.Engine.Rows.{foreign}
use ha_lua.Router.{register, match}
use ha_lua.Script.{
  RouteEntry, Call, new_api, calls, end_load, every as repeat, ui, match_route, match_route_from,
  is_longer, route_specs,
}
use ha_lua.Script.Timers.{HasCallback, HasRow, load_prunes}
use ha_lua.Script.Routes.{Served, match_route-IsBest}

abbrev stale : Row
stale = record {
  id = codes "s|every|2m#9";
  script_id = codes "s";
  typ = every;
  spec = codes "2m";
  next_run = 40 ∷ [];
  last_run = none;
}

abbrev before : State (List Timer)
before = record { heap = []; rows = stale ∷ [] }

abbrev script : List (ℕ × Option Text × Call)
script =
    (7, none, repeat (codes "1m") 3)
    ∷ (8, none, ui (codes "Lights"))
    ∷ (9, none, repeat (codes "1m") 4)
    ∷ []

load_prunes_example :
    let loaded =
      calls
        (calendar suc)
        list_heap
        (λ id. false)
        (λ p. false)
        (λ m. m)
        (codes "s")
        script
        (new_api, before) in
    let (api, s') =
      end_load
        (calendar suc)
        list_heap
        (λ id. false)
        (λ p. false)
        (λ m. m)
        (codes "s")
        false
        loaded in
    All (λ (r : Row). r.script_id ≡ codes "s" → HasCallback api r.id) s'.rows
    × ((id : Text) → HasCallback api id → HasRow s' id)
    × (keep (foreign (codes "s")) s'.rows ≡ keep (foreign (codes "s")) before.rows)
load_prunes_example =
    load_prunes (calendar suc) list_heap (λ id. false) (λ p. false) (λ m. m) (codes "s") script
      before

abbrev routes : List RouteEntry
routes =
    record { method = codes "GET"; prefix = codes "/"; fn = 1 }
    ∷ record { method = codes "GET"; prefix = codes "/api"; fn = 2 }
    ∷ []

-- The longer prefix wins over the earlier one.
served :
    match_route (codes "GET") (codes "/api/x") routes
    ≡ some (record { method = codes "GET"; prefix = codes "/api"; fn = 2 })
unfolding match_route match_route_from is_longer has_prefix text_eq
served = refl

match_route-IsBest_example :
    Served (codes "GET") (codes "/api/x") routes (match_route (codes "GET") (codes "/api/x") routes)
    × (elim (match_route (codes "GET") (codes "/api/x") routes) [ none ↦ false | some e ↦ true ]
        ≡ match
            (codes "s")
            (codes "GET")
            (codes "/api/x")
            (register (codes "s") (route_specs routes) []))
match_route-IsBest_example = match_route-IsBest (codes "GET") (codes "/api/x") routes (codes "s") []
