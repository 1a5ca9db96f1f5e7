-- ===== src/Script/Timers.antt =====
-- What a load leaves of a script's timers, and what later calls can add.
use ha_lua.Base.{
  ℕ, ◌+◌, ◌≡◌, refl, sym, ap, ◌∙◌, Bool, true, false, ◌||◌, List, [], ◌∷◌, ◌++◌, Option, some, Text,
  text_eq, text_eq_iff, has_prefix, lookup, lookup-insert, keep, All, All-imp, if◌then◌else◌, arith,
  Bool-cases, inl, inr, Result, ok, err, codes,
}
use ha_lua.Scheduler.Timers.{Row, Calendar, TimerHeap}
use ha_lua.Scheduler.Engine.{
  State, find_row, mem_text, prune_script, register_every, register_at, register_after,
}
use ha_lua.Scheduler.Engine as Engine
use ha_lua.Scheduler.Engine.Rows.{
  foreign, Registers, every-Registers, at-Registers, after-Registers, prune-kept, prune-others,
  prune-stays,
}
use ha_lua.Script.{
  Api, new_api, Raised, load_time_only, Call, every, at, after, on_state_change, on_event,
  on_command, on_exception, immediate_events, serve, ui, keep_timer, registered_as, call, calls,
  end_load,
}

-- Whether an id has a callback.
abbrev pub HasCallback : Api → Text → Type 0
HasCallback api id = (fn : ℕ) × (lookup id api.timer_fns ≡ some fn)

-- Whether the table has a row for an id.
abbrev pub HasRow : {H : Type 0} → State H → Text → Type 0
HasRow s id = (row : Row) × (find_row id s.rows ≡ some row)

-- During a load: the kept ids are those that have a callback, each of them has a row, and other scripts have the rows that they had.
pub record IsLoading {H : Type 0} (script : Text) (base : List Row) (st : Api × State H)
    : Type 0 where
  pub kept : (id : Text) → mem_text id st.0.keep_ids ≡ true → HasCallback st.0 id × HasRow st.1 id
  pub own : (id : Text) → HasCallback st.0 id → mem_text id st.0.keep_ids ≡ true
  pub others : keep (foreign script) st.1.rows ≡ base
  pub open_load : st.0.pruned ≡ false

mem_text-append :
    (t u : Text) (ts : List Text) → mem_text t (ts ++ u ∷ []) ≡ (mem_text t ts || text_eq u t)
unfolding mem_text
mem_text-append t u [] = ground arith
mem_text-append t u (v ∷ ts) = ground (arith, mem_text-append t u ts)

-- A registration of something else leaves the timers.
same_timers :
    {H : Type 0} (script : Text) (base : List Row) (api api' : Api) (s : State H)
    → IsLoading script base (api, s)
    → api'.keep_ids ≡ api.keep_ids
    → api'.timer_fns ≡ api.timer_fns
    → api'.pruned ≡ api.pruned
    → IsLoading script base (api', s)
same_timers script base api api' s v ids fns open_load = record {
  kept = λ id m.
      let ((fn, callback), stored) = v.kept id (ap (mem_text id) (sym ids) ∙ m) in
      ((fn, ap (lookup id) fns ∙ callback), stored);
  own = λ id (fn, there). ap (mem_text id) ids ∙ v.own id (fn, ap (lookup id) (sym fns) ∙ there);
  others = v.others;
  open_load = open_load ∙ v.open_load;
}

new-IsLoading :
    {H : Type 0} (script : Text) (s : State H)
    → IsLoading script (keep (foreign script) s.rows) (new_api, s)
unfolding new_api mem_text lookup
new-IsLoading script s = record {
  kept = λ id m. cc;
  own = λ id (fn, there). cc;
  others = refl;
  open_load = refl;
}

registered-IsLoading :
    {H : Type 0} (script : Text) (base : List Row) (fn : ℕ) (api : Api) (s : State H)
    (out : State H × Result Engine.Error Text)
    → IsLoading script base (api, s)
    → Registers script s out
    → IsLoading script base (registered_as fn api out).0
unfolding registered_as keep_timer
registered-IsLoading script base fn api s (s', err e) v r = record {
  kept =
      λ id m. let (callback, (row, there)) = v.kept id m in (callback, (row, r.stays id row there));
  own = v.own;
  others = r.others ∙ v.others;
  open_load = v.open_load;
}
registered-IsLoading script base fn api s (s', ok new) v r = record {
  kept = λ id m. elim (Bool-cases (text_eq new id)) [
    | inl hit ↦
        let same : new ≡ id = (text_eq_iff new id).0 hit in
        let (row, there) = r.stored id (ap ok same) in
        ((fn, ground (arith, hit, lookup-insert new id fn api.timer_fns)), (row, there))
    | inr miss ↦
        let old : mem_text id api.keep_ids ≡ true =
          ground (arith, m, miss, v.open_load, mem_text-append id new api.keep_ids) in
        let ((g, callback), (row, there)) = v.kept id old in
        (
          (g, ground (arith, miss, callback, lookup-insert new id fn api.timer_fns)),
          (row, r.stays id row there),
        )
  ];
  own = λ id (g, there). elim (Bool-cases (text_eq new id)) [
    | inl hit ↦ ground (arith, hit, v.open_load, mem_text-append id new api.keep_ids)
    | inr miss ↦
        let before : lookup id api.timer_fns ≡ some g =
          ground (arith, miss, there, lookup-insert new id fn api.timer_fns) in
        ground (arith, v.open_load, v.own id (g, before), mem_text-append id new api.keep_ids)
  ];
  others = r.others ∙ v.others;
  open_load = ground (arith, v.open_load);
}

-- What a call that only a load may make does, while the load is open or not.
while_open :
    {H : Type 0} (script : Text) (base : List Row) (shut : Bool) (st : Api × State H)
    (out : (Api × State H) × Result Raised (Unit {0}))
    → IsLoading script base st
    → IsLoading script base out.0
    → IsLoading script base (if shut then (st, err load_time_only) else out).0
while_open script base true st out v w = v
while_open script base false st out v w = w

module _ (c : Calendar) {H : Type 0} (q : TimerHeap H) (write_fails : Text → Bool)
    (bad : Text → Bool) (upper : Text → Text) (script : Text) where
  call-IsLoading :
      (now : ℕ) (random : Option Text) (k : Call) (base : List Row) (st : Api × State H)
      → IsLoading script base st
      → IsLoading script base (call c q write_fails bad upper script now random k st).0
  unfolding call
  call-IsLoading now random (every spec fn) base (api, s) v =
      while_open script base api.pruned (api, s) _ v
        (registered-IsLoading script base fn _ s _
          (same_timers script base api _ s v refl refl refl)
          (every-Registers c q write_fails script spec (api.timer_seq + 1) now s))
  call-IsLoading now random (at spec fn) base (api, s) v =
      while_open script base api.pruned (api, s) _ v
        (registered-IsLoading script base fn _ s _
          (same_timers script base api _ s v refl refl refl)
          (at-Registers c q write_fails script spec (api.timer_seq + 1) now s))
  call-IsLoading now random (after spec fn) base (api, s) v =
      registered-IsLoading script base fn api s _ v
        (after-Registers c q write_fails script spec random now s)
  call-IsLoading now random (on_state_change pattern fn initial) base (api, s) v =
      elim (Bool-cases (bad pattern)) [
        | inl b ↦ rw (b) v
        | inr b ↦ rw (b) (same_timers script base api _ s v refl refl refl)
      ]
  call-IsLoading now random (serve method prefix fn) base (api, s) v =
      elim (Bool-cases (has_prefix prefix (codes "/"))) [
        | inl b ↦ rw (b) (same_timers script base api _ s v refl refl refl)
        | inr b ↦ rw (b) v
      ]
  call-IsLoading now random (on_event typ fn) base (api, s) v =
      same_timers script base api _ s v refl refl refl
  call-IsLoading now random (on_command fn) base (api, s) v =
      same_timers script base api _ s v refl refl refl
  call-IsLoading now random (on_exception fn) base (api, s) v =
      same_timers script base api _ s v refl refl refl
  call-IsLoading now random immediate_events base (api, s) v =
      same_timers script base api _ s v refl refl refl
  call-IsLoading now random (ui title) base (api, s) v =
      same_timers script base api _ s v refl refl refl

  calls-IsLoading :
      (list : List (ℕ × Option Text × Call)) (base : List Row) (st : Api × State H)
      → IsLoading script base st
      → IsLoading script base (calls c q write_fails bad upper script list st)
  unfolding calls
  calls-IsLoading [] base st v = v
  calls-IsLoading ((now, random, k) ∷ rest) base st v =
      calls-IsLoading rest base (call c q write_fails bad upper script now random k st).0
        (call-IsLoading now random k base st v)

  -- After a load, whatever calls it made and whichever of them failed, when its prune succeeds: every row of the script is of a timer
  -- that has a callback, every timer that has a callback has its row, and the rows of other scripts are as before.
  pub load_prunes :
      (list : List (ℕ × Option Text × Call)) (s : State H)
      → let loaded = calls c q write_fails bad upper script list (new_api, s) in
        let (api, s') = end_load c q write_fails bad upper script false loaded in
        All (λ (r : Row). r.script_id ≡ script → HasCallback api r.id) s'.rows
        × ((id : Text) → HasCallback api id → HasRow s' id)
        × (keep (foreign script) s'.rows ≡ keep (foreign script) s.rows)
  unfolding end_load
  load_prunes list s =
      let loaded = calls c q write_fails bad upper script list (new_api, s) in
      let v : IsLoading script (keep (foreign script) s.rows) loaded =
        calls-IsLoading list (keep (foreign script) s.rows) (new_api, s) (new-IsLoading script s) in
      let kept = loaded.0.keep_ids in
      (
        All-imp _ _ (prune_script script kept loaded.1.rows)
            (λ r own mine. (v.kept r.id (own mine)).0) (prune-kept script kept loaded.1.rows),
        λ id callback.
            let m = v.own id callback in
            let (row, there) = (v.kept id m).1 in
            (row, prune-stays script kept loaded.1.rows id row m there),
        prune-others script kept loaded.1.rows ∙ v.others,
      )
