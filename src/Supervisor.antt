-- ===== src/Supervisor.antt =====
-- The supervisor of the scripts' runners: start, load, stop and reload, with the registry and the routes.
pub mod Lifecycle
pub mod Requests
mod Tests
use ha_lua.Base.{
  ℕ, ◌+◌, Bool, true, false, not, ◌&&◌, List, [], ◌∷◌, ◌++◌, Option, none, some, Text, Map, lookup,
  insert, delete, ◌==◌, if◌then◌else◌,
}
use ha_lua.Router.{RouteSpec, Routes, register, unregister}

-- A runner, or the handle it is known by, is the number of its `StartScript`. `started` counts them; `scripts`
-- and `runners` are the maps of the supervisor and the registry, `timers` is the scheduler. `draining` holds the runners
-- whose `StopScript` has left its critical section and not yet closed their channels, `closed` those closed.
pub record State (T : Type 0) : Type 0 where
  pub scripts : Map ℕ
  pub runners : Map ℕ
  pub routes : Routes
  pub timers : T
  pub started : ℕ
  pub draining : List ℕ
  pub closed : List ℕ

-- The first occurrence goes.
unfoldable pub remove : ℕ → List ℕ → List ℕ
remove h [] = []
remove h (x ∷ xs) = let rest = remove h xs in if x == h then xs else x ∷ rest

unfoldable pub is_member : ℕ → List ℕ → Bool
is_member h [] = false
is_member h (x ∷ xs) = if x == h then true else is_member h xs

-- What happens under one lock, or in one step outside of it: `StartScript`, the critical section of `afterLoad`, that of
-- `StopScript`, and its `Close` of the runner behind it. `Reload` is a stop, the close and a start.
pub data Action : Type 0 where
  start stop : Text → Action
  loaded : Text → ℕ → Action
  close : ℕ → Action

unfoldable pub empty : {T : Type 0} → T → State T
empty timers = record {
  scripts = [];
  runners = [];
  routes = [];
  timers = timers;
  started = 0;
  draining = [];
  closed = [];
}

module _ {T : Type 0} where
  unfoldable pub start_script : Text → State T → State T
  start_script id s = elim (lookup id s.scripts) [
    | some h ↦ s
    | none ↦ record s {
      scripts = insert id s.started s.scripts;
      runners = insert id s.started s.runners;
      started = s.started + 1;
    }
  ]

  -- Only the `StopScript` that took the handle out closes its runner.
  unfoldable pub close_runner : ℕ → State T → State T
  close_runner h s =
      if is_member h s.draining
      then record s { draining = remove h s.draining; closed = s.closed ++ h ∷ [] }
      else s

-- `drop_timers` is `RemoveScript` of the scheduler; `routes_of` is `Routes` of a loaded runner.
module _ {T : Type 0} (drop_timers : Text → T → T) (routes_of : ℕ → List RouteSpec) where
  -- The guard compares the handle: a stop or a reload since then leaves nothing to do.
  unfoldable pub after_load : Text → ℕ → State T → State T
  after_load id h s = elim (lookup id s.scripts) [
    | some now ↦ if now == h then record s { routes = register id (routes_of h) s.routes } else s
    | none ↦ s
  ]

  unfoldable pub stop_script : Text → State T → State T
  stop_script id s = elim (lookup id s.scripts) [
    | none ↦ s
    | some h ↦ record s {
      scripts = delete id s.scripts;
      routes = unregister id s.routes;
      runners = delete id s.runners;
      timers = drop_timers id s.timers;
      draining = s.draining ++ h ∷ [];
    }
  ]

  unfoldable pub act : Action → State T → State T
  act (start id) s = start_script id s
  act (stop id) s = stop_script id s
  act (loaded id h) s = after_load id h s
  act (close h) s = close_runner h s

  unfoldable pub act_all : List Action → State T → State T
  act_all [] s = s
  act_all (a ∷ actions) s = act_all actions (act a s)
