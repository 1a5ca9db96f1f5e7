-- ===== src/Tracker/History/Duration.antt =====
-- `DurationInState` measures the time at which the entity is in the state.
use ha_lua.Base.{
  ℕ, zero, suc, ◌+◌, ◌-◌, ◌≤◌, ◌<◌, ◌≡◌, refl, sym, ap, ap₂, ◌∙◌, Bool, List, [], ◌∷◌, Text,
  text_eq, if◌then◌else◌, arith, leb, ℤ, pos, sub_ℕ, ◌+ℤ◌, Bool-cases, inl, inr,
}
use native.Mathlib.Nat.{zero-add, add-zero, suc-add}
use ha_lua.Tracker.History.{Point, Points, duration_loop, duration_in_state}

-- The state at an instant: that of the last point that is not after it.
unfoldable pub state_at : Text → List Point → ℕ → Text
state_at current [] t = current
state_at current (p ∷ points) t = if leb p.at t then state_at p.state points t else current

-- The number of the `n` instants from `lo` on that pass a test.
unfoldable pub ticks : (ℕ → Bool) → ℕ → ℕ → ℕ
ticks f lo zero = 0
ticks f lo (suc n) = (if f lo then 1 else 0) + ticks f (lo + 1) n

-- The points are in order, from an instant on, and not after now.
abbrev pub IsTimeline : ℕ → ℕ → List Point → Type 0
IsTimeline now at [] = at ≤ now
IsTimeline now at (p ∷ points) = (at ≤ p.at) × IsTimeline now p.at points

ticks-add : (f : ℕ → Bool) (lo m n : ℕ) → ticks f lo (m + n) ≡ ticks f lo m + ticks f (lo + m) n
unfolding ticks
ticks-add f lo zero n = rw (zero-add n, add-zero lo) (sym (zero-add (ticks f lo n)))
ticks-add f lo (suc m) n =
    rw (suc-add m n) (omega (arith, ticks-add f (lo + 1) m n, ap (λ k. ticks f k n) (regroup lo m)))
  where
    regroup : (lo m : ℕ) → lo + 1 + m ≡ lo + suc m
    regroup lo m = omega arith

ticks_same :
    (f g : ℕ → Bool) (lo n : ℕ)
    → ((t : ℕ) → lo ≤ t → t < lo + n → f t ≡ g t)
    → ticks f lo n ≡ ticks g lo n
unfolding ticks
ticks_same f g lo zero h = refl
ticks_same f g lo (suc n) h =
    rw (h lo (omega arith) (omega arith))
      (omega (arith, ticks_same f g (lo + 1) n (λ t a b. h t (omega arith) (omega arith))))

ticks_const : (b : Bool) (lo n : ℕ) → ticks (λ t. b) lo n ≡ (if b then n else 0)
unfolding ticks
ticks_const b lo zero = ground arith
ticks_const b lo (suc n) = ground (arith, ticks_const b (lo + 1) n)

timeline_le : (now at : ℕ) (points : List Point) → IsTimeline now at points → at ≤ now
timeline_le now at [] h = h
timeline_le now at (p ∷ points) h = omega (arith, timeline_le now p.at points h.1)

add_pos : (k a b : ℕ) → a ≤ b → pos k +ℤ sub_ℕ b a ≡ pos (k + (b - a))
unfolding ◌+ℤ◌
add_pos k a b h = ground arith

module _ (state : Text) (now : ℕ) where
  abbrev in_state : Text → List Point → ℕ → Bool
  in_state current points t = text_eq (state_at current points t) state

  -- Up to the next point the state is the current one; from there on, the next point's.
  ticks-split :
      (current : Text) (at : ℕ) (p : Point) (points : List Point)
      → at ≤ p.at
      → p.at ≤ now
      → ticks (in_state current (p ∷ points)) at (now - at)
        ≡ (if text_eq current state then p.at - at else 0)
          + ticks (in_state p.state points) p.at (now - p.at)
  unfolding state_at
  ticks-split current at p points h k =
      ap (ticks (in_state current (p ∷ points)) at) whole
      ∙ ticks-add (in_state current (p ∷ points)) at (p.at - at) (now - p.at)
      ∙ ap₂ ◌+◌
          (ticks_same (in_state current (p ∷ points)) (λ t. text_eq current state) at (p.at - at)
              (λ t a b. ground arith)
            ∙ ticks_const (text_eq current state) at (p.at - at))
          (ap (λ lo. ticks (in_state current (p ∷ points)) lo (now - p.at)) start
            ∙ ticks_same (in_state current (p ∷ points)) (in_state p.state points) p.at (now - p.at)
                (λ t a b. ground arith))
    where
      whole : now - at ≡ (p.at - at) + (now - p.at)
      whole = omega arith

      start : at + (p.at - at) ≡ p.at
      start = omega arith

  duration_loop-ticks :
      (current : Text) (at k : ℕ) (points : List Point)
      → IsTimeline now at points
      → duration_loop state now current at (pos k) points
        ≡ pos (k + ticks (in_state current points) at (now - at))
  unfolding duration_loop state_at
  duration_loop-ticks current at k [] h =
      ground (arith, ticks_const (text_eq current state) at (now - at), add_pos k at now h)
  duration_loop-ticks current at k (p ∷ points) h = elim (Bool-cases (text_eq current state)) [
    | inl same ↦
        rw (same, add_pos k at p.at h.0)
          (duration_loop-ticks p.state p.at (k + (p.at - at)) points h.1
            ∙ ap pos (omega (arith, split, ap (λ (b : Bool). if b then p.at - at else 0) same)))
    | inr other ↦ rw other (
        duration_loop-ticks p.state p.at k points h.1
        ∙ ap pos (omega (arith, split, ap (λ (b : Bool). if b then p.at - at else 0) other)))
  ]
    where
      split :
          ticks (in_state current (p ∷ points)) at (now - at)
          ≡ (if text_eq current state then p.at - at else 0)
            + ticks (in_state p.state points) p.at (now - p.at)
      split = ticks-split current at p points h.0 (timeline_le now p.at points h.1)

-- For a timeline in order between `since` and now, the duration is the number of the instants from
-- `since` up to now, now excluded, at which the entity is in the state, the baseline being its
-- state before the first point; the second result tells whether that baseline is known.
pub duration_in_state_lem :
    (state : Text) (since now : ℕ) (h : Points)
    → IsTimeline now since h.points
    → duration_in_state state since now h ≡ (
      pos (ticks (λ t. text_eq (state_at h.baseline h.points t) state) since (now - since)),
      h.complete,
    )
unfolding duration_in_state
duration_in_state_lem state since now h v =
    ap (λ (d : ℤ). (d, h.complete))
      (duration_loop-ticks state now h.baseline since 0 h.points v ∙ ap pos (omega arith))
