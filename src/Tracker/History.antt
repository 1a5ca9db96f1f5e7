-- ===== src/Tracker/History.antt =====
-- Aggregates over the history: `historyPoints`, `DurationInState` and `CountChanges` of tracker.go.
pub mod Duration
pub mod Changes
mod Tests
use ha_lua.Base.{
  ℕ, zero, suc, ◌+◌, Bool, true, false, not, ◌&&◌, ◌||◌, List, [], ◌∷◌, ◌++◌, Option, none, some,
  Text, text_eq, text_lt, is_empty, keep, if◌then◌else◌, ltb, ℤ, pos, sub_ℕ, ◌+ℤ◌,
}
use ha_lua.Tracker.Mirror.{StateData}

-- `historyPoint`
pub record Point : Type 0 where
  pub state : Text
  pub at : ℕ

-- What `historyPoints` returns.
pub record Points : Type 0 where
  pub baseline : Text
  pub points : List Point
  pub complete : Bool

-- `ORDER BY changed_at DESC, id DESC LIMIT 1` over the rows in the order of their ids
unfoldable pub newest_by_time : List StateData → Option StateData
newest_by_time [] = none
newest_by_time (r ∷ rows) =
    let later = newest_by_time rows in
    elim later [
      | none ↦ some r
      | some s ↦ if text_lt s.last_changed r.last_changed then some r else some s
    ]

-- `ORDER BY changed_at, id`
unfoldable pub insert_by_time : StateData → List StateData → List StateData
insert_by_time r [] = r ∷ []
insert_by_time r (s ∷ rows) =
    if text_lt s.last_changed r.last_changed then s ∷ insert_by_time r rows else r ∷ s ∷ rows

unfoldable pub sort_by_time : List StateData → List StateData
sort_by_time [] = []
sort_by_time (r ∷ rows) = insert_by_time r (sort_by_time rows)

module _ (parse : Text → Option ℕ) where
  -- The loop of `historyPoints`: a stamp that does not parse is skipped, one before `since` moved up.
  pub read_points : ℕ → List StateData → List Point
  read_points since [] = []
  read_points since (r ∷ rows) =
      let rest = read_points since rows in
      elim (parse r.last_changed) [
        | none ↦ rest
        | some at ↦ record { state = r.state; at = if ltb at since then since else at } ∷ rest
      ]

  -- `bound` is `since` rendered in `sinceLayout`.
  pub history_points : Text → Text → ℕ → List StateData → Points
  history_points id bound since history =
      let before =
        newest_by_time
          (keep (λ r. text_eq r.entity_id id && text_lt r.last_changed bound) history) in
      let inside =
        sort_by_time
          (keep (λ r. text_eq r.entity_id id && not (text_lt r.last_changed bound)) history) in
      elim before [
        | none ↦ record { baseline = []; points = read_points since inside; complete = false }
        | some r ↦ record { baseline = r.state; points = read_points since inside; complete = true }
      ]

-- The loop of `DurationInState` and the part up to now: `current` holds since `at`.
pub duration_loop : Text → ℕ → Text → ℕ → ℤ → List Point → ℤ
duration_loop state now current at total [] =
    if text_eq current state && ltb at now then total +ℤ sub_ℕ now at else total
duration_loop state now current at total (p ∷ points) =
    duration_loop state now p.state p.at
      (if text_eq current state then total +ℤ sub_ℕ p.at at else total) points

pub duration_in_state : Text → ℕ → ℕ → Points → ℤ × Bool
duration_in_state state since now h =
    (duration_loop state now h.baseline since (pos 0) h.points, h.complete)

-- The loop of `CountChanges`: `first` is `i == 0`.
pub count_loop : Text → Bool → Bool → Text → List Point → ℕ → ℕ
count_loop state complete first previous [] n = n
count_loop state complete first previous (p ∷ points) n =
    let unknown_start = first && not complete in
    let skip = text_eq p.state previous && not unknown_start in
    let counts = is_empty state || text_eq p.state state in
    count_loop state complete false (if skip then previous else p.state) points
      (if skip then n else if counts then n + 1 else n)

pub count_changes : Text → Points → ℕ × Bool
count_changes state h = (count_loop state h.complete true h.baseline h.points 0, h.complete)
