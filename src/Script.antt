-- ===== src/Script.antt =====
-- What a script registers: the state behind the functions of the `ha` module, ha-lua/internal/lua/api_ha.go, and the end of
-- the load in `Start` of runner.go.
pub mod Timers
pub mod Routes
mod Tests
use ha_lua.Base.{
  ℕ, ◌+◌, Bool, true, false, not, ◌&&◌, ◌||◌, List, [], ◌∷◌, ◌++◌, Option, none, some, Text,
  text_eq, has_prefix, length, ltb, codes, Map, insert, if◌then◌else◌, Result, ok, err,
}
use ha_lua.Scheduler.Timers.{Calendar, TimerHeap}
use ha_lua.Scheduler.Engine.{State, prune_script, register_every, register_at, register_after}
use ha_lua.Scheduler.Engine as Engine
use ha_lua.Router.{RouteSpec}

-- `stateChangeHandler`, `eventHandler` and `routeEntry`; a Lua function is a number.
pub record StateHandler : Type 0 where
  pub pattern : Text
  pub fn : ℕ
  pub initial : Bool

-- What an event handler runs: a function, or the wrapper that `ha.on_command` makes of one.
pub data Callback : Type 0 where
  plain command : ℕ → Callback

pub record EventHandler : Type 0 where
  pub event_type : Text
  pub fn : Callback

pub record RouteEntry : Type 0 where
  pub method : Text
  pub prefix : Text
  pub fn : ℕ

-- The fields of `haAPI` that registrations change.
pub record Api : Type 0 where
  pub state_handlers : List StateHandler
  pub event_handlers : List EventHandler
  pub timer_fns : Map ℕ
  pub keep_ids : List Text
  pub pruned : Bool
  pub timer_seq : ℕ
  pub routes : List RouteEntry
  pub ui_title : Text
  pub immediate : Bool
  pub on_exception : Option ℕ

unfoldable pub new_api : Api
new_api = record {
  state_handlers = [];
  event_handlers = [];
  timer_fns = [];
  keep_ids = [];
  pruned = false;
  timer_seq = 0;
  routes = [];
  ui_title = [];
  immediate = false;
  on_exception = none;
}

-- What a registration raises.
pub data Raised : Type 0 where
  load_time_only bad_pattern bad_prefix : Raised
  not_registered : Engine.Error → Raised

-- A call of the module, its arguments checked.
pub data Call : Type 0 where
  every at after : Text → ℕ → Call
  on_state_change : Text → ℕ → Bool → Call
  on_event : Text → ℕ → Call
  on_command on_exception : ℕ → Call
  immediate_events : Call
  serve : Text → Text → ℕ → Call
  ui : Text → Call

-- `keepTimer`
unfoldable pub keep_timer : Text → Api → Api
keep_timer id api = if api.pruned then api else record api { keep_ids = api.keep_ids ++ id ∷ [] }

-- What `every`, `at` and `after` do with the result of the scheduler.
unfoldable pub registered_as {ℓ} :
    {S : Type ℓ} → ℕ → Api → S × Result Engine.Error Text → (Api × S) × Result Raised (Unit {0})
registered_as fn api (s, err e) = ((api, s), err (not_registered e))
registered_as fn api (s, ok id) =
    ((record (keep_timer id api) { timer_fns = insert id fn api.timer_fns }, s), ok tt)

-- `len(e.prefix) > bestLen`
unfoldable pub is_longer : Option RouteEntry → RouteEntry → Bool
is_longer none e = true
is_longer (some b) e = ltb (length b.prefix) (length e.prefix)

-- `matchRoute`: the first handler with the longest prefix, with the length so far; none so far is a length of -1.
unfoldable pub match_route_from :
    Text → Text → List RouteEntry → Option RouteEntry → Option RouteEntry
match_route_from method path [] best = best
match_route_from method path (e ∷ routes) best = match_route_from method path routes (
    if text_eq e.method method && (is_longer best e && has_prefix path e.prefix)
    then some e
    else best)

unfoldable pub match_route : Text → Text → List RouteEntry → Option RouteEntry
match_route method path routes = match_route_from method path routes none

-- `routeSpecs`
unfoldable pub route_specs : List RouteEntry → List RouteSpec
route_specs [] = []
route_specs (e ∷ routes) = record { method = e.method; prefix = e.prefix } ∷ route_specs routes

-- `bad pattern` tells whether filepath.Match has an error for a pattern, and `upper` is strings.ToUpper; `random` is the text of
-- the random bytes, or the failure to read them.
module _ (c : Calendar) {H : Type 0} (q : TimerHeap H) (write_fails : Text → Bool)
    (bad : Text → Bool) (upper : Text → Text) (script : Text) where
  -- One call at an instant.
  unfoldable pub call :
      ℕ → Option Text → Call → Api × State H → (Api × State H) × Result Raised (Unit {0})
  call now random (every spec fn) (api, s) =
      if api.pruned
      then ((api, s), err load_time_only)
      else (let counted = record api { timer_seq = api.timer_seq + 1 } in
          registered_as fn counted
            (register_every c q write_fails script spec counted.timer_seq now s))
  call now random (at spec fn) (api, s) =
      if api.pruned
      then ((api, s), err load_time_only)
      else (let counted = record api { timer_seq = api.timer_seq + 1 } in
          registered_as fn counted
            (register_at c q write_fails script spec counted.timer_seq now s))
  call now random (after spec fn) (api, s) =
      registered_as fn api (register_after c q write_fails script spec random now s)
  call now random (on_state_change pattern fn initial) (api, s) =
      if bad pattern then ((api, s), err bad_pattern) else (
        (
          record api {
            state_handlers =
                api.state_handlers ++ record { pattern = pattern; fn = fn; initial = initial } ∷ [];
          },
          s,
        ),
        ok tt,
      )
  call now random (on_event typ fn) (api, s) = (
    (
      record api {
        event_handlers = api.event_handlers ++ record { event_type = typ; fn = plain fn } ∷ [];
      },
      s,
    ),
    ok tt,
  )
  call now random (on_command fn) (api, s) = (
    (
      record api {
        event_handlers =
            api.event_handlers
            ++ record { event_type = codes "ha_lua_command"; fn = command fn } ∷ [];
      },
      s,
    ),
    ok tt,
  )
  call now random immediate_events (api, s) = ((record api { immediate = true }, s), ok tt)
  call now random (on_exception fn) (api, s) = ((record api { on_exception = some fn }, s), ok tt)
  call now random (serve method prefix fn) (api, s) =
      if not (has_prefix prefix (codes "/")) then ((api, s), err bad_prefix) else (
        (
          record api {
            routes = api.routes ++ record { method = upper method; prefix = prefix; fn = fn } ∷ [];
          },
          s,
        ),
        ok tt,
      )
  call now random (ui title) (api, s) = ((record api { ui_title = title }, s), ok tt)

  -- Calls with their instants and random bytes, whether or not they raise: a script may catch an error, and one that
  -- does not makes fewer calls.
  unfoldable pub calls : List (ℕ × Option Text × Call) → Api × State H → Api × State H
  calls [] st = st
  calls ((now, random, k) ∷ rest) st = calls rest (call now random k st).0

  -- The end of the load: `PruneScript`, whose failure is logged, and the release of `keepIDs`.
  unfoldable pub end_load : Bool → Api × State H → Api × State H
  end_load fails (api, s) = (
    record api { pruned = true; keep_ids = [] },
    if fails then s else record s { rows = prune_script script api.keep_ids s.rows },
  )
