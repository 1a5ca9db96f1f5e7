-- ===== src/Scheduler/Engine.antt =====
-- `Scheduler`: the timers table and the heap, registration, firing and removal.
pub mod Firing
pub mod Storm
pub mod Registry
pub mod Rows
pub mod Tests
use ha_lua.Base.{
  ℕ, zero, suc, ◌+◌, ◌<◌, Bool, true, false, not, ◌&&◌, ◌||◌, List, [], ◌∷◌, ◌++◌, map, Option,
  none, some, Text, text_eq, keep, if◌then◌else◌, leb, ltb, ℤ, pos, negsuc, Result, ok, err, codes,
}
use ha_lua.Scheduler.Timers.{Kind, every, at, after, Timer, Row, Calendar, TimerHeap}

-- What insert, parseInterval and nextAt return, and the random bytes that fail.
pub data Error : Type 0 where
  bad_interval not_positive bad_time insert_failed read_back_failed bad_next_run no_random : Error

pub record State (H : Type 0) : Type 0 where
  pub rows : List Row
  pub heap : H

abbrev pub is_after : Kind → Bool
is_after after = true
is_after _ = false

-- `SELECT next_run FROM timers WHERE id = ?`
unfoldable pub find_row : Text → List Row → Option Row
find_row id [] = none
find_row id (r ∷ rs) = if text_eq r.id id then some r else find_row id rs

-- `INSERT OR IGNORE INTO timers`: the primary key `id` decides.
pub insert_or_ignore : Row → List Row → List Row
insert_or_ignore r rs = elim (find_row r.id rs) [ some old ↦ rs | none ↦ rs ++ r ∷ [] ]

-- `DELETE FROM timers WHERE id = ?`
pub delete_row : Text → List Row → List Row
delete_row id = keep (λ r. not (text_eq r.id id))

-- `UPDATE timers SET last_run = ?, next_run = ? WHERE id = ?`
pub update_row : Text → Text → Text → List Row → List Row
update_row id last next =
    map (λ r. if text_eq r.id id then record r { last_run = some last; next_run = next } else r)

unfoldable pub mem_text : Text → List Text → Bool
mem_text t [] = false
mem_text t (u ∷ us) = text_eq u t || mem_text t us

-- `DELETE FROM timers WHERE script_id = ? AND id NOT IN (…)`, without the second test when `keep`
-- is empty.
pub prune_script : Text → List Text → List Row → List Row
prune_script script kept = keep (λ r. not (text_eq r.script_id script && not (mem_text r.id kept)))

-- `cleanOrphans`: `DELETE FROM timers WHERE type = 'after'`
pub clean_orphans : List Row → List Row
clean_orphans = keep (λ r. not (is_after r.typ))

abbrev pub timer_id : Text → Text → Text → Text
timer_id script typ rest = script ++ b'|' ∷ (typ ++ b'|' ∷ rest)

-- The id beside the error of `insert`.
pub registered {ℓ} : {S : Type ℓ} → Text → S × Option Error → S × Result Error Text
registered id (s, none) = (s, ok id)
registered id (s, some e) = (s, err e)

module _ (c : Calendar) where
  pub parse_interval : Text → Result Error ℕ
  parse_interval spec = elim (c.parse_duration spec) [
    | none ↦ err bad_interval
    | some (negsuc n) ↦ err not_positive
    | some (pos d) ↦ if leb d 0 then err not_positive else ok d
  ]

  pub next_at : Text → ℕ → Result Error ℕ
  next_at spec now = elim (c.parse_clock spec) [
    | none ↦ err bad_time
    | some hm ↦
        let next = c.on_day_of now hm in ok (if not (ltb now next) then c.add_day next else next)
  ]

  -- The deadline that `fire` gives a recurring timer.
  pub reschedule : Kind → Text → ℕ → Result Error ℕ
  reschedule every spec now = elim (parse_interval spec) [ ok d ↦ ok (now + d) | err e ↦ err e ]
  reschedule at spec now = next_at spec now
  reschedule after spec now = next_at spec now

  module _ {H : Type 0} (q : TimerHeap H) (write_fails : Text → Bool) where
    -- The default case of `fire`: a spec that no longer parses drops the timer.
    pub fire_recurring : ℕ → Timer → State H → Result Error ℕ → State H × List (Text × Text)
    fire_recurring now t s (err e) = (s, [])
    fire_recurring now t s (ok next) = (
      record {
        rows =
            if write_fails t.id
            then s.rows
            else update_row t.id (c.format now) (c.format next) s.rows;
        heap = q.push (record t { next_run = next }) s.heap;
      },
      (t.script_id, t.id) ∷ [],
    )

    -- The switch of `fire`. A write that fails is logged and leaves the table.
    pub fire_as : Kind → ℕ → Timer → State H → State H × List (Text × Text)
    fire_as after now t s = (
      record s { rows = if write_fails t.id then s.rows else delete_row t.id s.rows },
      (t.script_id, t.id) ∷ [],
    )
    fire_as every now t s = fire_recurring now t s (reschedule every t.spec now)
    fire_as at now t s = fire_recurring now t s (reschedule at t.spec now)

    -- `fire`, with the calls of `onFire`
    pub fire : ℕ → Timer → State H → State H × List (Text × Text)
    fire now t s = fire_as t.typ now t s

    -- The loop of `fireDue` on fuel; `none` means that the fuel ran out.
    pub fire_due : ℕ → ℕ → State H → Option (State H × List (Text × Text))
    fire_due zero now s = none
    fire_due (suc fuel) now s = elim (q.pop s.heap) [
      | none ↦ some (s, [])
      | some (t, rest) ↦ elim (leb t.next_run now) [
        | false ↦ some (s, [])
        | true ↦ elim (fire_due fuel now (fire now t (record s { heap = rest })).0) [
          | none ↦ none
          | some (s', later) ↦ some (s', (fire now t (record s { heap = rest })).1 ++ later)
        ]
      ]
    ]

    -- `insert`: an existing row wins, and its stored deadline goes on the heap.
    pub insert_timer : Text → Text → Kind → Text → ℕ → State H → State H × Option Error
    insert_timer id script typ spec next s =
        if write_fails id
        then (s, some insert_failed)
        else (let rows =
              insert_or_ignore
                (record {
                  id = id;
                  script_id = script;
                  typ = typ;
                  spec = spec;
                  next_run = c.format next;
                  last_run = none;
                })
                s.rows in
            elim (find_row id rows) [
              | none ↦ (record s { rows = rows }, some read_back_failed)
              | some r ↦ elim (c.parse r.next_run) [
                | none ↦ (record s { rows = rows }, some bad_next_run)
                | some at_time ↦ (
                  record {
                    rows = rows;
                    heap =
                        q.push
                          (record {
                            id = id;
                            script_id = script;
                            typ = typ;
                            spec = spec;
                            next_run = at_time;
                          })
                          s.heap;
                  },
                  none,
                )
              ]
            ])

    pub register_every : Text → Text → ℕ → ℕ → State H → State H × Result Error Text
    register_every script spec seq now s = elim (parse_interval spec) [
      | err e ↦ (s, err e)
      | ok d ↦
          let id = timer_id script (codes "every") (spec ++ b'|' ∷ c.decimal seq) in
          registered id (insert_timer id script every spec (now + d) s)
    ]

    pub register_at : Text → Text → ℕ → ℕ → State H → State H × Result Error Text
    register_at script spec seq now s = elim (next_at spec now) [
      | err e ↦ (s, err e)
      | ok next ↦
          let id = timer_id script (codes "at") (spec ++ b'|' ∷ c.decimal seq) in
          registered id (insert_timer id script at spec next s)
    ]

    -- `random` is the text of the eight random bytes, or the failure to read them.
    pub register_after : Text → Text → Option Text → ℕ → State H → State H × Result Error Text
    register_after script spec random now s = elim (parse_interval spec) [
      | err e ↦ (s, err e)
      | ok d ↦ elim random [
        | none ↦ (s, err no_random)
        | some hex ↦
            let id = timer_id script (codes "after") hex in
            registered id (insert_timer id script after spec (now + d) s)
      ]
    ]

    -- `RemoveScript`: the heap is built again from the timers of the other scripts.
    pub remove_script : Text → State H → State H
    remove_script script s = record {
      rows =
          if write_fails script
          then s.rows
          else keep (λ r. not (text_eq r.script_id script && is_after r.typ)) s.rows;
      heap = q.init (keep (λ t. not (text_eq t.script_id script)) (q.items s.heap));
    }
