-- ===== src/Scheduler/Engine/Registry.antt =====
-- A reload: the script's timers leave the heap and come back with the deadlines of their rows.
use ha_lua.Base.{
  ℕ, ◌≡◌, refl, ◌∙◌, Bool, true, false, not, ◌&&◌, List, [], ◌∷◌, ◌++◌, none, some, arith, Text,
  text_eq, text_eq_refl, SameItems, keep, keep-append, count-keep, if◌then◌else◌,
}
use ha_lua.Scheduler.Timers.{
  Kind, every, at, after, Timer, Row, Calendar, IsCalendar, TimerHeap, IsTimerHeap,
}
use ha_lua.Scheduler.Engine.{
  State, find_row, insert_or_ignore, insert_timer, remove_script, is_after,
}

find_row-keep-none :
    (id : Text) (p : Row → Bool) (rs : List Row)
    → find_row id rs ≡ none
    → find_row id (keep p rs) ≡ none
unfolding find_row
find_row-keep-none id p [] e = refl
find_row-keep-none id p (r ∷ rs) e = ground (arith, find_row-keep-none id p rs)

find_row-append_none :
    (id : Text) (rs ts : List Row) → find_row id rs ≡ none → find_row id (rs ++ ts) ≡ find_row id ts
unfolding find_row
find_row-append_none id [] ts e = refl
find_row-append_none id (r ∷ rs) ts e = ground (arith, find_row-append_none id rs ts)

abbrev pub is_recurring : Kind → Bool
is_recurring after = false
is_recurring _ = true

not_after : (k : Kind) → is_recurring k ≡ true → is_after k ≡ false
not_after after h = cc
not_after every h = refl
not_after at h = refl

module _ (c : Calendar) {H : Type 0} (q : TimerHeap H) (write_fails : Text → Bool)
    (v : IsCalendar c) (id script spec : Text) (typ : Kind) where
  abbrev pub timer_at : ℕ → Timer
  timer_at next = record { id = id; script_id = script; typ = typ; spec = spec; next_run = next }

  abbrev row_at : ℕ → Row
  row_at next = record {
    id = id;
    script_id = script;
    typ = typ;
    spec = spec;
    next_run = c.format next;
    last_run = none;
  }

  insert_fresh :
      (next : ℕ) (s : State H)
      → write_fails id ≡ false
      → find_row id s.rows ≡ none
      → (insert_timer c q write_fails id script typ spec next s).0
        ≡ record { rows = s.rows ++ row_at next ∷ []; heap = q.push (timer_at next) s.heap }
  unfolding insert_timer insert_or_ignore find_row
  insert_fresh next s ok_write fresh = ground (
    arith,
    find_row-append_none id s.rows (row_at next ∷ []) fresh,
    text_eq_refl id,
    v.parse-format next,
  )

  insert_again :
      (next : ℕ) (old : Row) (at_time : ℕ) (s : State H)
      → write_fails id ≡ false
      → find_row id s.rows ≡ some old
      → c.parse old.next_run ≡ some at_time
      → (insert_timer c q write_fails id script typ spec next s).0
        ≡ record { rows = s.rows; heap = q.push (timer_at at_time) s.heap }
  unfolding insert_timer insert_or_ignore
  insert_again next old at_time s ok_write found parsed = ground arith

  abbrev others : Timer → Bool
  others t = not (text_eq t.script_id script)

  -- The state after the first registration and the removal of the script.
  abbrev stopped : ℕ → State H → State H
  stopped first s =
      remove_script c q write_fails script
        (record { rows = s.rows ++ row_at first ∷ []; heap = q.push (timer_at first) s.heap })

  stopped-row :
      (first : ℕ) (s : State H)
      → write_fails script ≡ false
      → is_recurring typ ≡ true
      → find_row id s.rows ≡ none
      → find_row id (stopped first s).rows ≡ some (row_at first)
  unfolding remove_script find_row
  stopped-row first s ok_script rec fresh =
      rw (ok_script, keep-append)
        (find_row-append_none id _ _ (find_row-keep-none id _ s.rows fresh)
          ∙ ground (arith, not_after typ rec, text_eq_refl id))

  stopped-heap :
      (first : ℕ) (s : State H)
      → IsTimerHeap q
      → SameItems (q.items (stopped first s).heap) (keep others (q.items s.heap))
  unfolding remove_script
  stopped-heap first s w p = omega (
    arith,
    w.items-init (keep others (q.items (q.push (timer_at first) s.heap))) p,
    count-keep p others (q.items (q.push (timer_at first) s.heap)),
    count-keep p others (q.items s.heap),
    w.items-push (timer_at first) s.heap (λ t. others t && p t),
    own_timer p,
  )
    where
      own_timer :
          (p : Timer → Bool)
          → ◌≡◌ {A = ℕ} (if others (timer_at first) && p (timer_at first) then 1 else 0) 0
      own_timer p = rw (text_eq_refl script)

  -- For a heap and a calendar that keep their laws, and writes that succeed: when a recurring timer is
  -- registered for the first time, its script removed, and the timer registered again with another
  -- deadline, the heap holds it once, with the first deadline, beside the timers of the other
  -- scripts.
  pub reload_keeps_deadline :
      (first second : ℕ) (s : State H)
      → IsTimerHeap q
      → write_fails id ≡ false
      → write_fails script ≡ false
      → is_recurring typ ≡ true
      → find_row id s.rows ≡ none
      → let s₁ = (insert_timer c q write_fails id script typ spec first s).0 in
        let s₂ = remove_script c q write_fails script s₁ in
        let s₃ = (insert_timer c q write_fails id script typ spec second s₂).0 in
        SameItems
          (q.items s₃.heap)
          (timer_at first ∷ keep (λ t. not (text_eq t.script_id script)) (q.items s.heap))
  reload_keeps_deadline first second s w ok_id ok_script rec fresh p =
      rw (insert_fresh first s ok_id fresh) (
        rw
          (insert_again second (row_at first) first (stopped first s) ok_id
            (stopped-row first s ok_script rec fresh) (v.parse-format first))
          (omega (
            arith,
            w.items-push (timer_at first) (stopped first s).heap p,
            stopped-heap first s w p,
          )))
