-- ===== src/Scheduler/Engine/Storm.antt =====
-- What happens without the calendar's law: a clock time that `AddDate` moves back before now, as
-- where the clocks skip an hour at midnight.
use ha_lua.Base.{
  ℕ, zero, suc, ◌+◌, ◌≤◌, ◌<◌, ◌≡◌, refl, ap, Bool, false, ◌&&◌, List, [], ◌∷◌, none, arith, Text,
  All, count, leb, if◌then◌else◌, Option-cases, Bool-cases, Result, inl, inr, ok, err,
}
use ha_lua.Scheduler.Timers.{Kind, every, at, after, Timer, Calendar, TimerHeap, IsTimerHeap}
use ha_lua.Scheduler.Engine.{
  Error, State, next_at, reschedule, fire_recurring, fire_as, fire, fire_due,
}

abbrev not_later : ℕ → Result Error ℕ → Bool
not_later now (ok next) = leb next now
not_later now (err e) = false

module _ (c : Calendar) (now : ℕ) where
  abbrev pub recurs_early : Kind → Text → Bool
  recurs_early at spec = not_later now (next_at c spec now)
  recurs_early every spec = false
  recurs_early after spec = false

  -- A due daily timer whose recomputed deadline is not after now.
  abbrev pub stuck : Timer → Bool
  stuck t = recurs_early t.typ t.spec && leb t.next_run now

  least_due :
      (m : ℕ) (ts : List Timer) → All (λ u. m ≤ u.next_run) ts → 0 < count stuck ts → m ≤ now
  least_due m [] a h = absurd (omega arith)
  least_due m (t ∷ ts) a h = elim (Bool-cases (stuck t)) [
    | inl e ↦ ground arith
    | inr e ↦ least_due m ts a.1 (ground arith)
  ]

  module _ {H : Type 0} (q : TimerHeap H) (write_fails : Text → Bool) (w : IsTimerHeap q) where
    stuck_as : Kind → Timer → ℕ
    stuck_as k t = if recurs_early k t.spec && leb t.next_run now then 1 else 0

    recurring-stuck :
        (t : Timer) (s : State H) (r : Result Error ℕ)
        → count stuck (q.items s.heap)
          ≤ count stuck (q.items (fire_recurring c q write_fails now t s r).0.heap)
    unfolding fire_recurring
    recurring-stuck t s (err e) = omega arith
    recurring-stuck t s (ok n) =
        omega (arith, w.items-push (record t { next_run = n }) s.heap stuck)

    daily-stuck :
        (t : Timer) (s : State H) (r : Result Error ℕ)
        → t.typ ≡ at
        → next_at c t.spec now ≡ r
        → (if not_later now r && leb t.next_run now then 1 else 0) + count stuck (q.items s.heap)
          ≤ count stuck (q.items (fire_recurring c q write_fails now t s r).0.heap)
    unfolding fire_recurring
    daily-stuck t s (err e) k p = omega arith
    daily-stuck t s (ok n) k p = ground (
      arith,
      w.items-push (record t { next_run = n }) s.heap stuck,
      ap (λ k. recurs_early k t.spec) k,
      ap (not_later now) p,
    )

    fire-stuck :
        (k : Kind) (t : Timer) (s : State H)
        → t.typ ≡ k
        → stuck_as k t + count stuck (q.items s.heap)
          ≤ count stuck (q.items (fire_as c q write_fails k now t s).0.heap)
    unfolding fire_as stuck_as reschedule
    fire-stuck after t s e = omega arith
    fire-stuck every t s e = omega (arith, recurring-stuck t s (reschedule c every t.spec now))
    fire-stuck at t s e = daily-stuck t s (next_at c t.spec now) e refl

    -- Once a due daily timer is on the heap whose recomputed deadline is not after now, a pass
    -- does not end, whatever its fuel is, for every heap that keeps its laws.
    pub fire_due_diverges :
        (fuel : ℕ) (s : State H)
        → 0 < count stuck (q.items s.heap)
        → fire_due c q write_fails fuel now s ≡ none
    unfolding fire_due fire stuck_as
    fire_due_diverges zero s h = refl
    fire_due_diverges (suc fuel) s h = elim (Option-cases (q.pop s.heap)) [
      | inl e ↦ absurd (omega (arith, ap (count stuck) (w.pop_none s.heap e)))
      | inr ((t, rest), e) ↦
          let (same, least) = w.pop_some s.heap rest t e in
          ground (
            arith,
            same stuck,
            least_due t.next_run (q.items rest) least,
            fire-stuck t.typ t (record s { heap = rest }) refl,
            fire_due_diverges fuel
                (fire_as c q write_fails t.typ now t (record s { heap = rest })).0,
          )
    ]
