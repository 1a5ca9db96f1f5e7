-- ===== src/Scheduler/Engine/Tests.antt =====
-- A heap and two calendars, tests of the engine, and the theorems at concrete inputs.
use ha_lua.Base.{
  ℕ, suc, ◌-◌, ◌≤◌, ◌≡◌, refl, ap, subst, Bool, false, not, List, [], ◌∷◌, Option, none, some, ok,
  arith, Text, codes, pos, All, count, SameItems, keep, leb, if◌then◌else◌, Bool-cases, inl, inr,
  text_eq,
}
use ha_lua.Scheduler.Timers.{every, at, after, Timer, Calendar, IsCalendar, TimerHeap, IsTimerHeap}
use ha_lua.Scheduler.Engine.{
  State, parse_interval, next_at, reschedule, fire, fire_as, fire_recurring, fire_due, insert_timer,
  remove_script, register_every, register_after, find_row, delete_row, insert_or_ignore, update_row,
  registered,
}
use ha_lua.Scheduler.Engine.Firing.{due, due_events, fire_due_once}
use ha_lua.Scheduler.Engine.Storm.{fire_due_diverges}
use ha_lua.Scheduler.Engine.Registry.{reload_keeps_deadline}

-- A heap without order: `pop` looks for the least deadline.
pub pop_step : Timer → Option (Timer × List Timer) → Option (Timer × List Timer)
pop_step t none = some (t, [])
pop_step t (some (m, rest)) =
    if leb t.next_run m.next_run then some (t, m ∷ rest) else some (m, t ∷ rest)

pub pop_least : List Timer → Option (Timer × List Timer)
unfolding pop_step
pop_least [] = none
pop_least (t ∷ ts) = pop_step t (pop_least ts)

abbrev pub list_heap : TimerHeap (List Timer)
list_heap = record { init = λ ts. ts; push = λ t h. t ∷ h; pop = pop_least; items = λ h. h }

All-le :
    (m n : ℕ) (ts : List Timer)
    → m ≤ n
    → All (λ u. n ≤ u.next_run) ts
    → All (λ u. m ≤ u.next_run) ts
All-le m n [] h a = tt
All-le m n (t ∷ ts) h a = (omega arith, All-le m n ts h a.1)

abbrev Least : List Timer → Option (Timer × List Timer) → Type 0
Least h none = h ≡ []
Least h (some (t, rest)) = SameItems h (t ∷ rest) × All (λ u. t.next_run ≤ u.next_run) rest

pop_step-Least :
    (x : Timer) (xs : List Timer) (r : Option (Timer × List Timer))
    → Least xs r
    → Least (x ∷ xs) (pop_step x r)
unfolding pop_step
pop_step-Least x xs none h = (λ p. ap (count p) (ap (λ l. x ∷ l) h), tt)
pop_step-Least x xs (some (m, rest)) (same, least) = elim (Bool-cases (leb x.next_run m.next_run)) [
  | inl e ↦ rw e (
    λ p. omega (arith, same p),
    (ground arith, All-le x.next_run m.next_run rest (ground arith) least),
  )
  | inr e ↦ rw e (λ p. omega (arith, same p), (ground arith, least))
]

pop_least-Least : (h : List Timer) → Least h (pop_least h)
unfolding pop_least
pop_least-Least [] = refl
pop_least-Least (x ∷ xs) = pop_step-Least x xs (pop_least xs) (pop_least-Least xs)

list_heap-IsTimerHeap : IsTimerHeap list_heap
list_heap-IsTimerHeap = record {
  items-init = λ ts p. refl;
  items-push = λ t h p. refl;
  pop_none = λ h e. subst (Least h) e (pop_least-Least h);
  pop_some = λ h h' t e. subst (Least h) e (pop_least-Least h);
}

pub read_instant : Text → Option ℕ
read_instant [] = none
read_instant (n ∷ s) = some n

-- Every interval is 10, and every clock time is now; `days` is what a day adds.
abbrev pub calendar : (ℕ → ℕ) → Calendar
calendar days = record {
  parse_duration = λ s. some (pos 10);
  parse_clock = λ s. some (0, 15);
  on_day_of = λ now hm. now;
  add_day = days;
  format = λ t. t ∷ [];
  parse = read_instant;
  decimal = λ n. n ∷ [];
}

calendar-IsCalendar : IsCalendar (calendar suc)
unfolding read_instant
calendar-IsCalendar = record { parse-format = λ t. refl; add_day_later = λ now hm. omega arith }

engine_code : Unit {0}
unfolding fire_due fire fire_as fire_recurring reschedule parse_interval next_at pop_least
    read_instant insert_timer register_every remove_script find_row delete_row insert_or_ignore
    update_row registered text_eq
engine_code = tt

abbrev poll : Timer
poll = record {
  id = codes "p";
  script_id = codes "s";
  typ = every;
  spec = codes "1m";
  next_run = 3;
}

abbrev once : Timer
once = record {
  id = codes "o";
  script_id = codes "s";
  typ = after;
  spec = codes "5s";
  next_run = 9;
}

abbrev daily : Timer
daily = record {
  id = codes "d";
  script_id = codes "s";
  typ = at;
  spec = codes "00:15";
  next_run = 4;
}

abbrev never : Text → Bool
never id = false

abbrev started : State (List Timer)
started = record { rows = []; heap = once ∷ poll ∷ [] }

-- A deadline that was missed many times fires once, and counts from now.
catch_up :
    fire_due (calendar suc) list_heap never 5 1000 started
    ≡ some (
      record { rows = []; heap = record poll { next_run = 1010 } ∷ [] },
      (codes "s", codes "p") ∷ (codes "s", codes "o") ∷ [],
    )
unfolding engine_code
catch_up = refl

fire_due_once_example :
    (s' : State (List Timer)) × (events : List (Text × Text)) × (fire_due
        (calendar suc)
        list_heap
        never
        3
        5
        started
      ≡ some (s', events))
    × (count (due 5) s'.heap ≡ 0)
    × ((p : Text × Text → Bool)
        → count p events
          ≡ due_events
              (calendar suc)
              list_heap
              never
              calendar-IsCalendar
              list_heap-IsTimerHeap
              5
              p
              started.heap)
unfolding engine_code
fire_due_once_example =
    fire_due_once (calendar suc) list_heap never calendar-IsCalendar list_heap-IsTimerHeap 5 3
      started (omega arith)

abbrev stuck_state : State (List Timer)
stuck_state = record { rows = []; heap = daily ∷ [] }

fire_due_diverges_example : fire_due (calendar (λ t. t - 1)) list_heap never 7 4 stuck_state ≡ none
unfolding engine_code
fire_due_diverges_example =
    fire_due_diverges (calendar (λ t. t - 1)) 4 list_heap never list_heap-IsTimerHeap 7 stuck_state
      (omega arith)

reload_keeps_deadline_example :
    SameItems
      (insert_timer (calendar suc) list_heap never (codes "x") (codes "s") every (codes "1m") 30 (
        remove_script
          (calendar suc)
          list_heap
          never
          (codes "s")
          (insert_timer
            (calendar suc)
            list_heap
            never
            (codes "x")
            (codes "s")
            every
            (codes "1m")
            12
            started).0)).0.heap
      (record {
        id = codes "x";
        script_id = codes "s";
        typ = every;
        spec = codes "1m";
        next_run = 12;
      }
        ∷ keep (λ t. not (text_eq t.script_id (codes "s"))) started.heap)
unfolding engine_code
reload_keeps_deadline_example =
    reload_keeps_deadline (calendar suc) list_heap never calendar-IsCalendar (codes "x") (codes "s")
      (codes "1m") every 12 30 started list_heap-IsTimerHeap refl refl refl refl

pub registered_once :
    (register_after
      (calendar suc)
      list_heap
      (λ i. false)
      (codes "a|b.lua")
      (codes "5s")
      (some (codes "00ff"))
      7
      (record { heap = []; rows = [] })).1
    ≡ ok (codes "a|b.lua|after|00ff")
unfolding register_after parse_interval registered insert_timer find_row insert_or_ignore text_eq
    read_instant
registered_once = refl
