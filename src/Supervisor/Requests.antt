-- ===== src/Supervisor/Requests.antt =====
-- What reaches a script while others start, stop and reload.
use ha_lua.Base.{
  ◌≡◌, refl, sym, ◌∙◌, ℕ, true, false, List, [], ◌∷◌, none, some, Text, lookup, arith, text_eq_refl,
  lookup-insert_self, lookup-delete_self, Option-cases, Bool-cases, inl, inr,
}
use ha_lua.Router.{RouteSpec, match, unregister, Request, forward, serve_http, split_mount}
use ha_lua.Router.Table.{offered, match-delete}
use ha_lua.Router.Serving.{forward_iff}
use ha_lua.Supervisor.{State, Action, start, stop, empty, act, act_all, stop_script}
use ha_lua.Supervisor.Lifecycle.{
  occurs, IsConsistent, empty-IsConsistent, act_all-IsConsistent, started_script, stopped_script,
  unknown_script,
}

module _ {T : Type 0} (drop_timers : Text → T → T) (routes_of : ℕ → List RouteSpec) where
  -- The state after some actions, from the first one on.
  abbrev pub after : T → List Action → State T
  after timers actions = act_all drop_timers routes_of actions (empty timers)

  -- When a request matches the routes as they are after some actions, and the registry, read after more actions, has a
  -- runner for it, then that runner is the supervisor's for the script that the request's path selects, its channel
  -- is not closed, and the runner that the script had when the routes were read offered the method and the path.
  pub forward-after :
      (timers : T) (actions more : List Action) (r : Request) (h : ℕ) (path : Text)
      → let s = after timers actions in
        let later = act_all drop_timers routes_of more s in
        serve_http later.runners s.routes r ≡ forward h path
        → (id : Text) × (split_mount r.path ≡ (id, path, true))
          × (lookup id later.scripts ≡ some h)
          × (occurs h later.closed ≡ 0)
          × (old : ℕ) × (lookup id s.scripts ≡ some old)
          × (offered r.method path (routes_of old) ≡ true)
  forward-after timers actions more r h path e =
      let s = after timers actions in
      let later = act_all drop_timers routes_of more s in
      let v : IsConsistent drop_timers routes_of s =
        act_all-IsConsistent drop_timers routes_of actions (empty timers)
          (empty-IsConsistent drop_timers routes_of timers) in
      let w : IsConsistent drop_timers routes_of later =
        act_all-IsConsistent drop_timers routes_of more s v in
      let (id, named, parts, matched, known) = (forward_iff later.runners s.routes r h path).0 e in
      let lives : lookup id later.scripts ≡ some h = sym (w.same id) ∙ known in
      let (old, was, offer) = v.routed id r.method path matched in
      (id, parts, lives, omega (arith, w.live id h lives), old, was, offer)

  -- A script without a runner has no route.
  no_route :
      (id method path : Text) (s : State T)
      → IsConsistent drop_timers routes_of s
      → lookup id s.scripts ≡ none
      → match id method path s.routes ≡ false
  no_route id method path s v unknown = elim (Bool-cases (match id method path s.routes)) [
    | inr quiet ↦ quiet
    | inl routed ↦ let (h, known, offer) = v.routed id method path routed in absurd (cc)
  ]

  stop-gone :
      (id method path : Text) (s : State T)
      → IsConsistent drop_timers routes_of s
      → let s' = stop_script drop_timers routes_of id s in
        (lookup id s'.scripts ≡ none)
        × (s'.started ≡ s.started)
        × (match id method path s'.routes ≡ false)
  unfolding unregister
  stop-gone id method path s v = elim (Option-cases (lookup id s.scripts)) [
    | inl unknown ↦
        rw (unknown_script drop_timers routes_of id s unknown)
          (unknown, refl, no_route id method path s v unknown)
    | inr (h, known) ↦ rw (stopped_script drop_timers routes_of id s h known) (
      lookup-delete_self id s.scripts,
      refl,
      rw (match-delete id id method path s.routes, text_eq_refl id) refl,
    )
  ]

  -- In a consistent state, a stop of a script, running or not, and a start with nothing between them give the supervisor and
  -- the registry one new runner for it and leave none of its old routes.
  pub reload-fresh :
      (id method path : Text) (s : State T)
      → let again = act_all drop_timers routes_of (stop id ∷ start id ∷ []) s in
        IsConsistent drop_timers routes_of s
        → (lookup id again.scripts ≡ some s.started)
          × (lookup id again.runners ≡ some s.started)
          × (match id method path again.routes ≡ false)
  unfolding act_all act
  reload-fresh id method path s v =
      let s' = stop_script drop_timers routes_of id s in
      let (gone, count, quiet) = stop-gone id method path s v in
      rw (started_script drop_timers routes_of id s' gone, count)
        (
          lookup-insert_self id s.started s'.scripts,
          lookup-insert_self id s.started s'.runners,
          quiet,
        )
