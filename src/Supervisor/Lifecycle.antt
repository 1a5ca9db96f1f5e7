-- ===== src/Supervisor/Lifecycle.antt =====
-- What holds of the supervisor, the registry and the routes between any two actions.
use ha_lua.Base.{
  ℕ, ◌+◌, ◌<◌, ◌≤◌, ◌≡◌, refl, true, false, List, [], ◌∷◌, ◌++◌, Option, none, some, Text, text_eq,
  text_eq_iff, lookup, insert, delete, lookup-insert, lookup-delete, ◌==◌, if◌then◌else◌, arith,
  Option-cases, Bool-cases, inl, inr, ◌⊎◌,
}
use ha_lua.Router.{RouteSpec, register, unregister, match}
use ha_lua.Router.Table.{offered, match-register, match-delete}
use ha_lua.Supervisor.{
  State, Action, start, stop, loaded, close, empty, start_script, after_load, stop_script,
  close_runner, act, act_all, remove, is_member,
}

-- How often a runner stands in a list.
unfoldable pub occurs : ℕ → List ℕ → ℕ
occurs h [] = 0
occurs h (x ∷ xs) = let n = occurs h xs in if x == h then n + 1 else n

occurs-append : (h : ℕ) (xs ys : List ℕ) → occurs h (xs ++ ys) ≡ occurs h xs + occurs h ys
unfolding occurs
occurs-append h [] ys = omega arith
occurs-append h (x ∷ xs) ys = ground (arith, occurs-append h xs ys)

occurs-remove :
    (h k : ℕ) (xs : List ℕ)
    → is_member k xs ≡ true
    → occurs h xs ≡ occurs h (remove k xs) + (if k == h then 1 else 0)
unfolding occurs remove is_member
occurs-remove h k [] m = cc
occurs-remove h k (x ∷ xs) m = ground (arith, occurs-remove h k xs)

module _ {T : Type 0} (drop_timers : Text → T → T) (routes_of : ℕ → List RouteSpec) where
  -- The registry knows the runners of the supervisor and no other; a runner has one script, its number is taken, and a
  -- live one is neither draining nor closed; none is closed twice; a route that matches is one of the live runner.
  pub record IsConsistent (s : State T) : Type 0 where
    pub same : (id : Text) → lookup id s.runners ≡ lookup id s.scripts
    pub taken : (id : Text) (h : ℕ) → lookup id s.scripts ≡ some h → h < s.started
    pub own :
        (id other : Text) (h : ℕ)
        → lookup id s.scripts ≡ some h
        → lookup other s.scripts ≡ some h
        → id ≡ other
    pub live :
        (id : Text) (h : ℕ)
        → lookup id s.scripts ≡ some h
        → occurs h s.draining + occurs h s.closed ≡ 0
    pub once : (h : ℕ) → occurs h s.draining + occurs h s.closed ≤ 1
    pub stopped : (h : ℕ) → s.started ≤ h → occurs h s.draining + occurs h s.closed ≡ 0
    pub routed :
        (id method path : Text)
        → match id method path s.routes ≡ true
        → (h : ℕ) × (lookup id s.scripts ≡ some h) × (offered method path (routes_of h) ≡ true)

  pub empty-IsConsistent : (timers : T) → IsConsistent (empty timers)
  unfolding empty lookup occurs match
  empty-IsConsistent timers = record {
    same = λ id. refl;
    taken = λ id h e. cc;
    own = λ id other h e f. cc;
    live = λ id h e. cc;
    once = λ h. omega arith;
    stopped = λ h l. omega arith;
    routed = λ id method path e. cc;
  }

  pub started_script :
      (id : Text) (s : State T)
      → lookup id s.scripts ≡ none
      → start_script id s ≡ record s {
        scripts = insert id s.started s.scripts;
        runners = insert id s.started s.runners;
        started = s.started + 1;
      }
  unfolding start_script
  started_script id s e = cc

  running_script :
      (id : Text) (s : State T) (h : ℕ) → lookup id s.scripts ≡ some h → start_script id s ≡ s
  unfolding start_script
  running_script id s h e = cc

  start-IsConsistent : (id : Text) (s : State T) → IsConsistent s → IsConsistent (start_script id s)
  start-IsConsistent id s v = elim (Option-cases (lookup id s.scripts)) [
    | inr (h, e) ↦ rw (running_script id s h e) v
    | inl absent ↦
        let at = λ (j : Text). lookup-insert id j s.started s.scripts in
        rw (started_script id s absent) (record {
          same = λ j. ground (arith, v.same j, at j, lookup-insert id j s.started s.runners);
          taken = λ j h e. ground (arith, at j, v.taken j h);
          own = λ j k h e f. ground (
            arith,
            at j,
            at k,
            text_eq_iff id j,
            text_eq_iff id k,
            v.own j k h,
            v.taken j h,
            v.taken k h,
          );
          live = λ j h e. ground (arith, at j, v.live j h, v.stopped h);
          once = v.once;
          stopped = λ h l. v.stopped h (omega arith);
          routed = λ j method path m.
              let (h, e, offer) = v.routed j method path m in
              (h, ground (arith, at j, e, absent, text_eq_iff id j), offer);
        })
  ]

  registered_script :
      (id : Text) (h : ℕ) (s : State T)
      → lookup id s.scripts ≡ some h
      → after_load drop_timers routes_of id h s
        ≡ record s { routes = register id (routes_of h) s.routes }
  unfolding after_load
  registered_script id h s e = ground (arith, e)

  -- A script that was stopped, or started again, since the load.
  stale_script :
      (id : Text) (h : ℕ) (s : State T)
      → (lookup id s.scripts ≡ some h → ⊥)
      → after_load drop_timers routes_of id h s ≡ s
  unfolding after_load
  stale_script id h s stale = ground (arith, stale, Option-cases (lookup id s.scripts))

  handle-cases : (o : Option ℕ) (h : ℕ) → (o ≡ some h) ⊎ (o ≡ some h → ⊥)
  handle-cases none h = inr cc
  handle-cases (some k) h = elim (Bool-cases (k == h)) [
    | inl e ↦ inl (ground arith)
    | inr e ↦ inr (λ f. ground arith)
  ]

  load-IsConsistent :
      (id : Text) (h : ℕ) (s : State T)
      → IsConsistent s
      → IsConsistent (after_load drop_timers routes_of id h s)
  load-IsConsistent id h s v = elim (handle-cases (lookup id s.scripts) h) [
    | inr stale ↦ rw (stale_script id h s stale) v
    | inl now ↦ rw (registered_script id h s now) (record {
      same = v.same;
      taken = v.taken;
      own = v.own;
      live = v.live;
      once = v.once;
      stopped = v.stopped;
      routed = λ j method path m. elim (Bool-cases (text_eq id j)) [
        | inl hit ↦ (
          h,
          ground (arith, now, hit, text_eq_iff id j),
          ground (arith, m, hit, match-register id j method path (routes_of h) s.routes),
        )
        | inr miss ↦
            v.routed j method path
              (ground (arith, m, miss, match-register id j method path (routes_of h) s.routes))
      ];
    })
  ]

  pub stopped_script :
      (id : Text) (s : State T) (h : ℕ)
      → lookup id s.scripts ≡ some h
      → stop_script drop_timers routes_of id s ≡ record s {
        scripts = delete id s.scripts;
        routes = unregister id s.routes;
        runners = delete id s.runners;
        timers = drop_timers id s.timers;
        draining = s.draining ++ h ∷ [];
      }
  unfolding stop_script
  stopped_script id s h e = cc

  pub unknown_script :
      (id : Text) (s : State T)
      → lookup id s.scripts ≡ none
      → stop_script drop_timers routes_of id s ≡ s
  unfolding stop_script
  unknown_script id s e = cc

  occurs_last :
      (k h : ℕ) (xs : List ℕ) → occurs k (xs ++ h ∷ []) ≡ occurs k xs + (if h == k then 1 else 0)
  unfolding occurs
  occurs_last k h xs = ground (arith, occurs-append k xs (h ∷ []))

  stop-IsConsistent :
      (id : Text) (s : State T)
      → IsConsistent s
      → IsConsistent (stop_script drop_timers routes_of id s)
  unfolding unregister
  stop-IsConsistent id s v = elim (Option-cases (lookup id s.scripts)) [
    | inl unknown ↦ rw (unknown_script id s unknown) v
    | inr (h, known) ↦
        let at = λ (j : Text). lookup-delete id j s.scripts in
        rw (stopped_script id s h known) (record {
          same = λ j. ground (arith, v.same j, at j, lookup-delete id j s.runners);
          taken = λ j k e. ground (arith, at j, v.taken j k);
          own = λ i j k e f. ground (arith, at i, at j, v.own i j k);
          live = λ j k e. ground (
            arith,
            known,
            e,
            at j,
            v.own j id k,
            v.live j k,
            occurs_last k h s.draining,
            text_eq_iff id j,
          );
          once =
              λ k. ground (arith, known, v.once k, v.live id h known, occurs_last k h s.draining);
          stopped = λ k l.
              ground (arith, known, v.stopped k l, v.taken id h known, occurs_last k h s.draining);
          routed = λ j method path m.
              let (k, e, offer) =
                v.routed j method path
                  (ground (arith, m, match-delete id j method path s.routes)) in
              (k, ground (arith, m, e, at j, match-delete id j method path s.routes), offer);
        })
  ]

  closed_runner :
      (h : ℕ) (s : State T)
      → is_member h s.draining ≡ true
      → close_runner h s ≡ record s { draining = remove h s.draining; closed = s.closed ++ h ∷ [] }
  unfolding close_runner
  closed_runner h s e = rw (e) refl

  other_runner : (h : ℕ) (s : State T) → is_member h s.draining ≡ false → close_runner h s ≡ s
  unfolding close_runner
  other_runner h s e = rw (e) refl

  close-IsConsistent : (h : ℕ) (s : State T) → IsConsistent s → IsConsistent (close_runner h s)
  close-IsConsistent h s v = elim (Bool-cases (is_member h s.draining)) [
    | inr other ↦ rw (other_runner h s other) v
    | inl draining ↦ rw (closed_runner h s draining) (record {
      same = v.same;
      taken = v.taken;
      own = v.own;
      live = λ id k e.
          ground
            (arith, v.live id k e, occurs-remove k h s.draining draining, occurs_last k h s.closed);
      once = λ k.
          ground (arith, v.once k, occurs-remove k h s.draining draining, occurs_last k h s.closed);
      stopped = λ k l.
          ground
            (arith, v.stopped k l, occurs-remove k h s.draining draining, occurs_last k h s.closed);
      routed = v.routed;
    })
  ]

  act-IsConsistent :
      (a : Action) (s : State T) → IsConsistent s → IsConsistent (act drop_timers routes_of a s)
  unfolding act
  act-IsConsistent (start id) s v = start-IsConsistent id s v
  act-IsConsistent (stop id) s v = stop-IsConsistent id s v
  act-IsConsistent (loaded id h) s v = load-IsConsistent id h s v
  act-IsConsistent (close h) s v = close-IsConsistent h s v

  -- Every action on a state that is consistent, and so any interleaving of starts, loads, stops, closes and
  -- reloads, leaves a consistent state: the registry agrees with the supervisor, a runner that can be sent
  -- events is not closed, no runner's channel is closed twice, and routes lead to live runners only.
  pub act_all-IsConsistent :
      (actions : List Action) (s : State T)
      → IsConsistent s
      → IsConsistent (act_all drop_timers routes_of actions s)
  unfolding act_all
  act_all-IsConsistent [] s v = v
  act_all-IsConsistent (a ∷ actions) s v =
      act_all-IsConsistent actions (act drop_timers routes_of a s) (act-IsConsistent a s v)
