-- ===== src/Scheduler/Engine/Firing.antt =====
-- One pass of the timer loop ends, leaves nothing due, and fires each due timer exactly once.
use ha_lua.Base.{
  ℕ, zero, suc, ◌+◌, ◌<◌, ◌≤◌, ◌≡◌, refl, sym, ◌∙◌, ap, Bool, true, false, ◌&&◌, List, [], ◌∷◌,
  ◌++◌, none, some, arith, Text, All, count, count-append, leb, if◌then◌else◌, Result, ok, err, inl,
  inr, Bool-cases, Option-cases, Result-cases,
}
use ha_lua.Scheduler.Timers.{
  Kind, every, at, after, Timer, Calendar, IsCalendar, TimerHeap, IsTimerHeap,
}
use ha_lua.Scheduler.Engine.{
  State, parse_interval, next_at, reschedule, fire, fire_as, fire_recurring, fire_due, Error,
}

abbrev pub is_ok {ℓ κ} : {E : Type ℓ} {A : Type κ} → Result E A → Bool
is_ok (ok a) = true
is_ok (err e) = false

-- `!t.nextRun.After(now)`
abbrev pub due : ℕ → Timer → Bool
due now t = leb t.next_run now

module _ (c : Calendar) where
  -- The spec of a recurring timer parses.
  abbrev pub valid_as : Kind → ℕ → Text → Bool
  valid_as after now spec = true
  valid_as every now spec = is_ok (reschedule c every spec now)
  valid_as at now spec = is_ok (reschedule c at spec now)

  abbrev pub valid : ℕ → Timer → Bool
  valid now t = valid_as t.typ now t.spec

  parse_interval_pos : (spec : Text) (d : ℕ) → parse_interval c spec ≡ ok d → 0 < d
  unfolding parse_interval
  parse_interval_pos spec d e = ground arith

  next_at_later :
      IsCalendar c → (spec : Text) (now next : ℕ) → next_at c spec now ≡ ok next → now < next
  unfolding next_at
  next_at_later v spec now next e = elim (Option-cases (c.parse_clock spec)) [
    | inl p ↦ ground arith
    | inr (hm, p) ↦ ground (arith, v.add_day_later now hm)
  ]

  -- For a calendar in which a day later is later, every recomputed deadline is after the instant that
  -- it is computed from.
  pub reschedule_later :
      IsCalendar c
      → (k : Kind) (spec : Text) (now next : ℕ) → reschedule c k spec now ≡ ok next
      → now < next
  unfolding reschedule
  reschedule_later v every spec now next e = elim (Result-cases (parse_interval c spec)) [
    | inl (d, p) ↦ ground (arith, parse_interval_pos spec d)
    | inr (x, p) ↦ ground arith
  ]
  reschedule_later v at spec now next e = next_at_later v spec now next e
  reschedule_later v after spec now next e = next_at_later v spec now next e

  module _ {H : Type 0} (q : TimerHeap H) (write_fails : Text → Bool) (v : IsCalendar c)
      (w : IsTimerHeap q) (now : ℕ) where
    due_count : (Timer → Bool) → H → ℕ
    due_count p h = count (λ u. due now u && p u) (q.items h)

    recurring-items :
        (p : Timer → Bool) (t : Timer) (s : State H) (r : Result Error ℕ)
        → ((next : ℕ) → r ≡ ok next → now < next)
        → due_count p (fire_recurring c q write_fails now t s r).0.heap ≡ due_count p s.heap
    unfolding fire_recurring due_count
    recurring-items p t s (err e) later = refl
    recurring-items p t s (ok next) later = ground (
      arith,
      w.items-push (record t { next_run = next }) s.heap (λ u. due now u && p u),
      later next refl,
    )

    fire-items :
        (p : Timer → Bool) (k : Kind) (t : Timer) (s : State H)
        → due_count p (fire_as c q write_fails k now t s).0.heap ≡ due_count p s.heap
    unfolding fire_as
    fire-items p after t s = refl
    fire-items p every t s = recurring-items p t s _ (reschedule_later v every t.spec now)
    fire-items p at t s = recurring-items p t s _ (reschedule_later v at t.spec now)

    fire-events :
        (p : Text × Text → Bool) (k : Kind) (t : Timer) (s : State H)
        → count p (fire_as c q write_fails k now t s).1
          ≡ (if valid_as k now t.spec && p (t.script_id, t.id) then 1 else 0)
    unfolding fire_as fire_recurring
    fire-events p after t s = ground arith
    fire-events p every t s = elim (Result-cases (reschedule c every t.spec now)) [
      | inl (d, e) ↦ rw (e, fire_recurring) (ground arith)
      | inr (x, e) ↦ rw (e, fire_recurring) refl
    ]
    fire-events p at t s = elim (Result-cases (reschedule c at t.spec now)) [
      | inl (d, e) ↦ rw (e, fire_recurring) (ground arith)
      | inr (x, e) ↦ rw (e, fire_recurring) refl
    ]

    count_none :
        (p : Timer → Bool) (m : ℕ) (ts : List Timer)
        → now < m
        → All (λ u. m ≤ u.next_run) ts
        → count (λ u. due now u && p u) ts ≡ 0
    count_none p m [] h a = refl
    count_none p m (t ∷ ts) h a = ground (arith, count_none p m ts h a.1)

    count-due : (ts : List Timer) → count (λ u. due now u && true) ts ≡ count (due now) ts
    count-due [] = refl
    count-due (t ∷ ts) = ground (arith, count-due ts)

    -- When the pass stops, nothing is due.
    stops-none : (p : Timer → Bool) (s : State H) → q.pop s.heap ≡ none → due_count p s.heap ≡ 0
    unfolding due_count
    stops-none p s e = ap (count (λ u. due now u && p u)) (w.pop_none s.heap e)

    stops-later :
        (p : Timer → Bool) (s : State H) (t : Timer) (rest : H)
        → q.pop s.heap ≡ some (t, rest)
        → leb t.next_run now ≡ false
        → due_count p s.heap ≡ 0
    unfolding due_count
    stops-later p s t rest e d =
        let (same, least) = w.pop_some s.heap rest t e in
        ground (
          arith,
          same (λ u. due now u && p u),
          count_none p t.next_run (q.items rest) (ground arith) least,
        )

    -- Firing the popped timer takes one from the due timers, and none from any that remain.
    pops_due :
        (p : Timer → Bool) (s : State H) (t : Timer) (rest : H)
        → q.pop s.heap ≡ some (t, rest)
        → leb t.next_run now ≡ true
        → due_count p s.heap
          ≡ (if p t then 1 else 0)
            + due_count p (fire_as c q write_fails t.typ now t (record s { heap = rest })).0.heap
    unfolding due_count
    pops_due p s t rest e d = ground (
      arith,
      (w.pop_some s.heap rest t e).0 (λ u. due now u && p u),
      fire-items p t.typ t (record s { heap = rest }),
    )

    -- The number of due timers with a valid spec whose script and id pass a test.
    abbrev pub due_events : (Text × Text → Bool) → H → ℕ
    due_events p h = count (λ u. due now u && (valid now u && p (u.script_id, u.id))) (q.items h)

    -- For a heap and a calendar that keep their laws, a pass with more fuel than timers are due
    -- ends; it leaves no timer due, and it calls `onFire` once for each timer that was due and whose
    -- spec is valid, and for nothing else.
    pub fire_due_once :
        (fuel : ℕ) (s : State H)
        → count (due now) (q.items s.heap) < fuel
        → (s' : State H) × (events : List (Text × Text)) × (fire_due c q write_fails fuel now s
            ≡ some (s', events))
          × (count (due now) (q.items s'.heap) ≡ 0)
          × ((p : Text × Text → Bool) → count p events ≡ due_events p s.heap)
    unfolding fire_due fire due_count
    fire_due_once zero s h = absurd (omega arith)
    fire_due_once (suc fuel) s h = elim (Option-cases (q.pop s.heap)) [
      | inl e ↦ (
        s,
        [],
        ground arith,
        omega (arith, stops-none (λ _. true) s e, count-due (q.items s.heap)),
        λ p. sym (stops-none (λ u. valid now u && p (u.script_id, u.id)) s e),
      )
      | inr ((t, rest), e) ↦ elim (Bool-cases (leb t.next_run now)) [
        | inl d ↦
            let s₁ : State H = (fire_as c q write_fails t.typ now t (record s { heap = rest })).0 in
            let ev₁ : List (Text × Text) =
              (fire_as c q write_fails t.typ now t (record s { heap = rest })).1 in
            let (s', events, run, quiet, once) = fire_due_once fuel s₁ (
              omega (
                arith,
                pops_due (λ _. true) s t rest e d,
                count-due (q.items s.heap),
                count-due (q.items s₁.heap),
              )) in
            (
              s',
              ev₁ ++ events,
              ground arith,
              quiet,
              λ p.
                  count-append p ev₁ events
                  ∙ omega (
                    arith,
                    once p,
                    fire-events p t.typ t (record s { heap = rest }),
                    pops_due (λ u. valid now u && p (u.script_id, u.id)) s t rest e d,
                  ),
            )
        | inr d ↦ (
          s,
          [],
          ground arith,
          omega (arith, stops-later (λ _. true) s t rest e d, count-due (q.items s.heap)),
          λ p. sym (stops-later (λ u. valid now u && p (u.script_id, u.id)) s t rest e d),
        )
      ]
    ]
