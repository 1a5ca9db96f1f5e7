-- ===== src/Scheduler/Timers.antt =====
-- Timers, the rows of the timers table, and what the engine takes from the libraries: the clock
-- arithmetic of package time, and container/heap over the timers.
use ha_lua.Base.{ℕ, ◌<◌, ◌≤◌, ◌≡◌, List, [], ◌∷◌, Option, none, some, Text, ℤ, SameItems, All}

-- The `typ` strings "every", "at" and "after".
pub data Kind : Type 0 where
  every at after : Kind

-- A UTC instant is a number of nanoseconds.
pub record Timer : Type 0 where
  pub id : Text
  pub script_id : Text
  pub typ : Kind
  pub spec : Text
  pub next_run : ℕ

-- A row of the timers table; `next_run` holds the formatted instant.
pub record Row : Type 0 where
  pub id : Text
  pub script_id : Text
  pub typ : Kind
  pub spec : Text
  pub next_run : Text
  pub last_run : Option Text

-- Package time in the location of the scheduler.
pub record Calendar : Type 0 where
  -- `time.ParseDuration`, in nanoseconds
  pub parse_duration : Text → Option ℤ
  -- `time.Parse("15:04", spec)`: the hour and the minute
  pub parse_clock : Text → Option (ℕ × ℕ)
  -- `time.Date` with the date of an instant in the location, and an hour and a minute
  pub on_day_of : ℕ → ℕ × ℕ → ℕ
  -- `AddDate(0, 0, 1)` of an instant in the location
  pub add_day : ℕ → ℕ
  -- `Format(time.RFC3339Nano)` and `time.Parse(time.RFC3339Nano, s)`
  pub format : ℕ → Text
  pub parse : Text → Option ℕ
  -- the %d of `fmt.Sprintf`
  pub decimal : ℕ → Text

-- What the engine relies on: formatted instants read back, and the time of day that is asked for,
-- one day later, is after every instant of the day before.
pub record IsCalendar (c : Calendar) : Type 0 where
  pub parse-format : (t : ℕ) → c.parse (c.format t) ≡ some t
  pub add_day_later : (now : ℕ) (hm : ℕ × ℕ) → now < c.add_day (c.on_day_of now hm)

-- container/heap over `timerHeap`, whose order is that of `next_run`.
pub record TimerHeap (H : Type 0) : Type 0 where
  pub init : List Timer → H
  pub push : Timer → H → H
  pub pop : H → Option (Timer × H)
  pub items : H → List Timer

-- Nothing is lost or made up, and the popped timer, which is the one at index 0, has the least
-- deadline.
pub record IsTimerHeap {H : Type 0} (q : TimerHeap H) : Type 0 where
  pub items-init : (ts : List Timer) → SameItems (q.items (q.init ts)) ts
  pub items-push : (t : Timer) (h : H) → SameItems (q.items (q.push t h)) (t ∷ q.items h)
  pub pop_none : (h : H) → q.pop h ≡ none → q.items h ≡ []
  pub pop_some :
      (h h' : H) (t : Timer)
      → q.pop h ≡ some (t, h')
      → SameItems (q.items h) (t ∷ q.items h') × All (λ u. t.next_run ≤ u.next_run) (q.items h')
