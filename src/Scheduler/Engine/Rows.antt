-- ===== src/Scheduler/Engine/Rows.antt =====
-- What registering and pruning leave in the timers table.
use ha_lua.Base.{
  ℕ, ◌+◌, ◌≡◌, refl, Bool, true, not, List, [], ◌∷◌, ◌++◌, Option, none, some, Text, text_eq,
  text_eq_iff, keep, keep-append, append-nil, if◌then◌else◌, arith, Option-cases, Bool-cases,
  Result-cases, inl, inr, Result, ok, err, err-ok, All, codes,
}
use ha_lua.Scheduler.Timers.{Kind, every, at, after, Row, Calendar, TimerHeap}
use ha_lua.Scheduler.Engine.{
  Error, State, find_row, insert_or_ignore, mem_text, prune_script, timer_id, registered,
  insert_timer, parse_interval, next_at, register_every, register_at, register_after,
}

-- Whether a row is of another script.
abbrev pub foreign : Text → Row → Bool
foreign script r = not (text_eq r.script_id script)

-- What one registration does to the table: other scripts' rows stay, every row that is found stays, and the row of an id that
-- is returned is there.
pub record Registers {H : Type 0} (script : Text) (s : State H) (out : State H × Result Error Text)
    : Type 0 where
  pub others : keep (foreign script) out.0.rows ≡ keep (foreign script) s.rows
  pub stays :
      (j : Text) (row : Row) → find_row j s.rows ≡ some row → find_row j out.0.rows ≡ some row
  pub stored : (id : Text) → out.1 ≡ ok id → (row : Row) × (find_row id out.0.rows ≡ some row)

find_row-append :
    (j : Text) (rows : List Row) (r : Row)
    → find_row j (rows ++ r ∷ []) ≡ elim (find_row j rows) [
      | some row ↦ some row
      | none ↦ if text_eq r.id j then some r else none
    ]
unfolding find_row
find_row-append j [] r = refl
find_row-append j (x ∷ rows) r = ground (arith, find_row-append j rows r)

others-insert :
    (r : Row) (rows : List Row)
    → keep (foreign r.script_id) (insert_or_ignore r rows) ≡ keep (foreign r.script_id) rows
unfolding insert_or_ignore
others-insert r rows = elim (Option-cases (find_row r.id rows)) [
  | inl fresh ↦ ground (
    arith,
    fresh,
    keep-append (foreign r.script_id) rows (r ∷ []),
    text_eq_iff r.script_id r.script_id,
    append-nil (keep (foreign r.script_id) rows),
  )
  | inr (old, there) ↦ ground (arith, there)
]

stays-insert :
    (r : Row) (rows : List Row) (j : Text) (row : Row)
    → find_row j rows ≡ some row
    → find_row j (insert_or_ignore r rows) ≡ some row
unfolding insert_or_ignore
stays-insert r rows j row e = elim (Option-cases (find_row r.id rows)) [
  | inl fresh ↦ ground (arith, fresh, find_row-append j rows r, e)
  | inr (old, there) ↦ ground (arith, there, e)
]

module _ (c : Calendar) {H : Type 0} (q : TimerHeap H) (write_fails : Text → Bool) where
  abbrev row_of : Text → Text → Kind → Text → ℕ → Row
  row_of id script typ spec next = record {
    id = id;
    script_id = script;
    typ = typ;
    spec = spec;
    next_run = c.format next;
    last_run = none;
  }

  insert-rows :
      (id script spec : Text) (typ : Kind) (next : ℕ) (s : State H)
      → (insert_timer c q write_fails id script typ spec next s).0.rows ≡ (
          if write_fails id
          then s.rows
          else insert_or_ignore (row_of id script typ spec next) s.rows)
  unfolding insert_timer
  insert-rows id script spec typ next s = elim (Bool-cases (write_fails id)) [
    | inl failing ↦ rw (failing) refl
    | inr works ↦
        elim (Option-cases
          (find_row id (insert_or_ignore (row_of id script typ spec next) s.rows))) [
            | inl missing ↦ ground (arith, works, missing)
            | inr (r, there) ↦ ground (arith, works, there, Option-cases (c.parse r.next_run))
          ]
  ]

  insert-stored :
      (id script spec : Text) (typ : Kind) (next : ℕ) (s : State H)
      → (insert_timer c q write_fails id script typ spec next s).1 ≡ none
      → (row : Row) × (find_row id (insert_timer c q write_fails id script typ spec next s).0.rows
          ≡ some row)
  insert-stored id script spec typ next s e = elim (Bool-cases (write_fails id)) [
    | inl failing ↦ absurd (unfold insert_timer in ground (arith, failing, e))
    | inr works ↦
        elim (Option-cases
          (find_row id (insert_or_ignore (row_of id script typ spec next) s.rows))) [
            | inl missing ↦ absurd (unfold insert_timer in ground (arith, works, missing, e))
            | inr (r, there) ↦
                (r, ground (arith, works, there, insert-rows id script spec typ next s))
          ]
  ]

  ok-registered :
      (id j : Text) {S : Type 0} (out : S × Option Error)
      → (registered id out).1 ≡ ok j
      → (j ≡ id) × (out.1 ≡ none)
  unfolding registered
  ok-registered id j (s, none) e = (ground arith, refl)
  ok-registered id j (s, some x) e = cc

  registered_state :
      {S : Type 0} (id : Text) (out : S × Option Error) → (registered id out).0 ≡ out.0
  unfolding registered
  registered_state id (s, none) = refl
  registered_state id (s, some x) = refl

  insert-Registers :
      (id script spec : Text) (typ : Kind) (next : ℕ) (s : State H)
      → Registers script s (registered id (insert_timer c q write_fails id script typ spec next s))
  insert-Registers id script spec typ next s =
      let out = insert_timer c q write_fails id script typ spec next s in
      let rows = insert-rows id script spec typ next s in
      let r = row_of id script typ spec next in
      record {
        others = rw (registered_state id out) (ground (arith, rows, others-insert r s.rows));
        stays = λ j row e.
            rw (registered_state id out) (ground (arith, rows, e, stays-insert r s.rows j row));
        stored = λ j e.
            let (same, fine) = ok-registered id j out e in
            let (row, there) = insert-stored id script spec typ next s fine in
            (row, rw (registered_state id out, same) there);
      }

  -- A registration that the spec refuses.
  refused-Registers : (script : Text) (s : State H) (e : Error) → Registers script s (s, err e)
  refused-Registers script s e = record {
    others = refl;
    stays = λ j row there. there;
    stored = λ id wrong. cc;
  }

  pub every-Registers :
      (script spec : Text) (seq now : ℕ) (s : State H)
      → Registers script s (register_every c q write_fails script spec seq now s)
  unfolding register_every
  every-Registers script spec seq now s = elim (Result-cases (parse_interval c spec)) [
    | inl (d, fine) ↦ rw (fine, register_every) (insert-Registers _ script spec every (now + d) s)
    | inr (e, bad) ↦ rw (bad, register_every) (refused-Registers script s e)
  ]

  pub at-Registers :
      (script spec : Text) (seq now : ℕ) (s : State H)
      → Registers script s (register_at c q write_fails script spec seq now s)
  unfolding register_at
  at-Registers script spec seq now s = elim (Result-cases (next_at c spec now)) [
    | inl (next, fine) ↦ rw (fine, register_at) (insert-Registers _ script spec at next s)
    | inr (e, bad) ↦ rw (bad, register_at) (refused-Registers script s e)
  ]

  pub after-Registers :
      (script spec : Text) (random : Option Text) (now : ℕ) (s : State H)
      → Registers script s (register_after c q write_fails script spec random now s)
  unfolding register_after
  after-Registers script spec random now s = elim (Result-cases (parse_interval c spec)) [
    | inr (e, bad) ↦ rw (bad, register_after) (refused-Registers script s e)
    | inl (d, fine) ↦ elim (Option-cases random) [
      | inl missing ↦ rw (fine, missing, register_after) (refused-Registers script s _)
      | inr (hex, bytes) ↦
          rw (fine, bytes, register_after) (insert-Registers _ script spec after (now + d) s)
    ]
  ]

module _ (c : Calendar) {H : Type 0} (q : TimerHeap H) (write_fails : Text → Bool) where
  -- The id that a registration returns.
  pub every-id :
      (script spec : Text) (seq now : ℕ) (s : State H) (id : Text)
      → (register_every c q write_fails script spec seq now s).1 ≡ ok id
      → (rest : Text) × (id ≡ timer_id script (codes "every") rest)
  unfolding register_every
  every-id script spec seq now s id e = elim (Result-cases (parse_interval c spec)) [
    | inl (d, fine) ↦ (_, (ok-registered c q write_fails _ id _ (rw (fine, register_every) at e)).0)
    | inr (x, bad) ↦ absurd (err-ok (rw (bad, register_every) at e))
  ]

  pub at-id :
      (script spec : Text) (seq now : ℕ) (s : State H) (id : Text)
      → (register_at c q write_fails script spec seq now s).1 ≡ ok id
      → (rest : Text) × (id ≡ timer_id script (codes "at") rest)
  unfolding register_at
  at-id script spec seq now s id e = elim (Result-cases (next_at c spec now)) [
    | inl (next, fine) ↦ (_, (ok-registered c q write_fails _ id _ (rw (fine, register_at) at e)).0)
    | inr (x, bad) ↦ absurd (err-ok (rw (bad, register_at) at e))
  ]

  pub after-id :
      (script spec : Text) (random : Option Text) (now : ℕ) (s : State H) (id : Text)
      → (register_after c q write_fails script spec random now s).1 ≡ ok id
      → (rest : Text) × (id ≡ timer_id script (codes "after") rest)
  unfolding register_after
  after-id script spec random now s id e = elim (Result-cases (parse_interval c spec)) [
    | inr (x, bad) ↦ absurd (err-ok (rw (bad, register_after) at e))
    | inl (d, fine) ↦ elim (Option-cases random) [
      | inl missing ↦ absurd (err-ok (rw (fine, missing, register_after) at e))
      | inr (hex, bytes) ↦
          (hex, (ok-registered c q write_fails _ id _ (rw (fine, bytes, register_after) at e)).0)
    ]
  ]

-- After a prune no row of the script is outside of the ids that were kept, rows of other scripts stay, and so do those of kept
-- ids.
pub prune-kept :
    (script : Text) (kept : List Text) (rows : List Row)
    → All (λ r. r.script_id ≡ script → mem_text r.id kept ≡ true) (prune_script script kept rows)
unfolding prune_script
prune-kept script kept [] = tt
prune-kept script kept (r ∷ rows) =
    ground (arith, prune-kept script kept rows, text_eq_iff r.script_id script)

pub prune-others :
    (script : Text) (kept : List Text) (rows : List Row)
    → keep (foreign script) (prune_script script kept rows) ≡ keep (foreign script) rows
unfolding prune_script
prune-others script kept [] = refl
prune-others script kept (r ∷ rows) = ground (arith, prune-others script kept rows)

pub prune-stays :
    (script : Text) (kept : List Text) (rows : List Row) (j : Text) (row : Row)
    → mem_text j kept ≡ true
    → find_row j rows ≡ some row
    → find_row j (prune_script script kept rows) ≡ some row
unfolding prune_script find_row
prune-stays script kept [] j row m e = cc
prune-stays script kept (r ∷ rows) j row m e =
    ground (arith, prune-stays script kept rows j row m, text_eq_iff r.id j)
