-- ===== src/Tracker/History/Changes.antt =====
-- `CountChanges` counts transitions.
use ha_lua.Base.{
  ℕ, ◌+◌, ◌≡◌, refl, ap, Bool, true, false, ◌||◌, List, [], ◌∷◌, Text, text_eq, is_empty, keep,
  length, if◌then◌else◌, arith,
}
use ha_lua.Tracker.History.{Point, Points, count_loop, count_changes}

-- The points at which the state is another one than before, from a known state on.
unfoldable pub transitions_from : Text → List Point → List Point
transitions_from previous [] = []
transitions_from previous (p ∷ points) =
    if text_eq p.state previous
    then transitions_from previous points
    else p ∷ transitions_from p.state points

-- With no known state at the start, the first point is one.
unfoldable pub opening_transitions : Bool → Text → List Point → List Point
opening_transitions true baseline points = transitions_from baseline points
opening_transitions false baseline [] = []
opening_transitions false baseline (p ∷ points) = p ∷ transitions_from p.state points

abbrev pub transitions : Points → List Point
transitions h = opening_transitions h.complete h.baseline h.points

count_loop-later :
    (state : Text) (complete : Bool) (previous : Text) (points : List Point) (n : ℕ)
    → count_loop state complete false previous points n
      ≡ n
        + length
            (keep (λ p. is_empty state || text_eq p.state state) (transitions_from previous points))
unfolding count_loop transitions_from
count_loop-later state complete previous [] n = omega arith
count_loop-later state complete previous (p ∷ points) n = ground (
  arith,
  count_loop-later state complete previous points n,
  count_loop-later state complete p.state points n,
  count_loop-later state complete p.state points (n + 1),
)

count_loop-first :
    (state : Text) (complete : Bool) (baseline : Text) (points : List Point)
    → count_loop state complete true baseline points 0
      ≡ length (
          keep
            (λ p. is_empty state || text_eq p.state state)
            (opening_transitions complete baseline points))
unfolding count_loop opening_transitions transitions_from
count_loop-first state true baseline [] = refl
count_loop-first state false baseline [] = refl
count_loop-first state true baseline (p ∷ points) = ground (
  arith,
  count_loop-later state true baseline points 0,
  count_loop-later state true p.state points 0,
  count_loop-later state true p.state points 1,
)
count_loop-first state false baseline (p ∷ points) = ground (
  arith,
  count_loop-later state false p.state points 0,
  count_loop-later state false p.state points 1,
)

-- For every state asked about and every timeline, `CountChanges` returns the number of the timeline's
-- transitions into that state, or of all its transitions when the state is empty, and whether the
-- opening state is known.
pub count_changes_lem :
    (state : Text) (h : Points)
    → count_changes state h
      ≡ (length (keep (λ p. is_empty state || text_eq p.state state) (transitions h)), h.complete)
unfolding count_changes
count_changes_lem state h =
    ap (λ (n : ℕ). (n, h.complete)) (count_loop-first state h.complete h.baseline h.points)
