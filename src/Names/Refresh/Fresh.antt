-- ===== src/Names/Refresh/Fresh.antt =====
-- No change of a registry is forgotten.
use ha_lua.Base.{
  ℕ, ◌≡◌, ◌<◌, refl, Bool, true, false, not, ◌||◌, List, [], ◌∷◌, arith, ltb, ◌==◌, Bool-cases, inl,
  inr, All,
}
use ha_lua.Names.Refresh.{
  source_count, Place, waiting, before, asking, answered, Refresh, Act, edit, reconnect, wake,
  settle, next, answer, apply, fail, changed, changed_all, visit, settle_at, next_at, answer_at,
  apply_at, wake_at, act, act_all,
}

module _ {R : Type 0} where
  -- Whether `Run` has yet to come to the source `j`, has its query out, or has its answer, in the present pass.
  abbrev pub to_come : Place R → ℕ → Bool
  to_come waiting j = false
  to_come (before i) j = not (ltb j i)
  to_come (asking i) j = ltb i j
  to_come (answered i r) j = ltb i j

  abbrev pub in_flight : Place R → ℕ → Bool
  in_flight (asking i) j = i == j
  in_flight (answered i r) j = i == j
  in_flight waiting j = false
  in_flight (before i) j = false

  -- A source that is not stale and whose fetch is not under way shows the server's registry; a stale one is fetched in
  -- this pass, or a wake is due.
  pub record IsFresh (s : Refresh R) : Type 0 where
    pub shown :
        (j : ℕ)
        → j < source_count
        → s.stale j ≡ false
        → in_flight s.place j ≡ false
        → s.mirror j ≡ s.server j
    pub due :
        (j : ℕ)
        → j < source_count
        → s.stale j ≡ true
        → (s.signal || s.settled || to_come s.place j) ≡ true
    pub held :
        (i : ℕ) (r : R)
        → i < source_count
        → s.place ≡ answered i r
        → s.stale i ≡ false
        → r ≡ s.server i

  -- Every act but a failed fetch.
  abbrev pub Succeeds : Act R → Type 0
  Succeeds fail = ⊥
  Succeeds (edit i r) = Unit
  Succeeds reconnect = Unit
  Succeeds wake = Unit
  Succeeds settle = Unit
  Succeeds next = Unit
  Succeeds answer = Unit
  Succeeds apply = Unit

  edit-IsFresh : (i : ℕ) (r : R) (s : Refresh R) → IsFresh s → IsFresh (act (edit i r) s)
  unfolding act changed
  edit-IsFresh i r s v = elim (Bool-cases (ltb i source_count)) [
    | inr outside ↦ record {
      shown = λ j l f g. ground (arith, outside, v.shown j);
      due = λ j l f. ground (arith, outside, v.due j);
      held = λ k x l e f. ground (arith, outside, v.held k x);
    }
    | inl inside ↦ record {
      shown = λ j l f g. ground (arith, inside, v.shown j);
      due = λ j l f. ground (arith, inside, v.due j);
      held = λ k x l e f. ground (arith, inside, v.held k x);
    }
  ]

  changed-IsFresh : (i : ℕ) (s : Refresh R) → IsFresh s → IsFresh (changed i s)
  unfolding changed
  changed-IsFresh i s v = elim (Bool-cases (ltb i source_count)) [
    | inr outside ↦ rw (outside) v
    | inl inside ↦ rw (inside) (record {
      shown = λ j l f g. ground (arith, v.shown j);
      due = λ j l f. ground (arith, v.due j);
      held = λ k x l e f. ground (arith, v.held k x);
    })
  ]

  wake-IsFresh : (p : Place R) (s : Refresh R) → s.place ≡ p → IsFresh s → IsFresh (wake_at p s)
  unfolding wake_at
  wake-IsFresh waiting s e v = record {
    shown = λ j l f g. ground (arith, e, v.shown j);
    due = λ j l f. ground (arith, e, v.due j);
    held = λ k x l q f. ground (arith, e, q, v.held k x);
  }
  wake-IsFresh (before i) s e v = v
  wake-IsFresh (asking i) s e v = v
  wake-IsFresh (answered i r) s e v = v

  settle-IsFresh : (p : Place R) (s : Refresh R) → s.place ≡ p → IsFresh s → IsFresh (settle_at p s)
  unfolding settle_at
  settle-IsFresh waiting s e v = record {
    shown = λ j l f g. ground (arith, e, v.shown j);
    due = λ j l f. ground (arith, e, v.due j);
    held = λ k x l q f. ground (arith, e, q, v.held k x);
  }
  settle-IsFresh (before i) s e v = v
  settle-IsFresh (asking i) s e v = v
  settle-IsFresh (answered i r) s e v = v

  next-IsFresh : (p : Place R) (s : Refresh R) → s.place ≡ p → IsFresh s → IsFresh (next_at p s)
  unfolding next_at visit
  next-IsFresh (before i) s e v = record {
    shown = λ j l f g. ground (arith, e, v.shown j);
    due = λ j l f. ground (arith, e, v.due j);
    held = λ k x l q f. ground (arith, e, q, v.held k x);
  }
  next-IsFresh waiting s e v = v
  next-IsFresh (asking i) s e v = v
  next-IsFresh (answered i r) s e v = v

  answer-IsFresh : (p : Place R) (s : Refresh R) → s.place ≡ p → IsFresh s → IsFresh (answer_at p s)
  unfolding answer_at
  answer-IsFresh (asking i) s e v = record {
    shown = λ j l f g. ground (arith, e, v.shown j);
    due = λ j l f. ground (arith, e, v.due j);
    held = λ k x l q f. ground (arith, e, q);
  }
  answer-IsFresh waiting s e v = v
  answer-IsFresh (before i) s e v = v
  answer-IsFresh (answered i r) s e v = v

  apply-IsFresh : (p : Place R) (s : Refresh R) → s.place ≡ p → IsFresh s → IsFresh (apply_at p s)
  unfolding apply_at
  apply-IsFresh (answered i r) s e v = record {
    shown = λ j l f g. ground (arith, e, v.shown j, v.held i r);
    due = λ j l f. ground (arith, e, v.due j);
    held = λ k x l q f. cc;
  }
  apply-IsFresh waiting s e v = v
  apply-IsFresh (before i) s e v = v
  apply-IsFresh (asking i) s e v = v

  act-IsFresh : (a : Act R) (s : Refresh R) → Succeeds a → IsFresh s → IsFresh (act a s)
  unfolding act changed_all
  act-IsFresh (edit i r) s ok v = unfold act in edit-IsFresh i r s v
  act-IsFresh reconnect s ok v =
      changed-IsFresh 2 (changed 1 (changed 0 s))
        (changed-IsFresh 1 (changed 0 s) (changed-IsFresh 0 s v))
  act-IsFresh wake s ok v = wake-IsFresh s.place s refl v
  act-IsFresh settle s ok v = settle-IsFresh s.place s refl v
  act-IsFresh next s ok v = next-IsFresh s.place s refl v
  act-IsFresh answer s ok v = answer-IsFresh s.place s refl v
  act-IsFresh apply s ok v = apply-IsFresh s.place s refl v
  act-IsFresh fail s ok v = absurd ok

  -- However edits at the server, reconnects and the steps of `Run` interleave, as long as no fetch fails, a registry is shown
  -- as the server has it, or it is being fetched, or it is stale and will be: its turn in the pass is still to come,
  -- or a wake or the settle timer is due.
  pub act_all-IsFresh :
      (acts : List (Act R)) (s : Refresh R)
      → All Succeeds acts
      → IsFresh s
      → IsFresh (act_all acts s)
  unfolding act_all
  act_all-IsFresh [] s ok v = v
  act_all-IsFresh (a ∷ acts) s ok v = act_all-IsFresh acts (act a s) ok.1 (act-IsFresh a s ok.0 v)

  -- So when `Run` waits with no wake and no timer due, every registry is shown as the server has it.
  pub quiet-shown :
      (acts : List (Act R)) (s : Refresh R)
      → All Succeeds acts
      → IsFresh s
      → let t = act_all acts s in
        t.place ≡ waiting
        → t.signal ≡ false
        → t.settled ≡ false
        → (j : ℕ) → j < source_count
        → t.mirror j ≡ t.server j
  quiet-shown acts s ok v at quiet unarmed j l =
      let w = act_all-IsFresh acts s ok v in
      ground (arith, at, quiet, unarmed, w.shown j l, w.due j l)
