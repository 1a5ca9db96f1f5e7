-- ===== src/Runner/Loop/Rounds.antt =====
-- One round of the event loop: what it keeps, and what it does to the events that were accepted.
use ha_lua.Base.{
  ◌≡◌, refl, sym, ap, Bool, true, false, ◌||◌, [], ◌∷◌, ◌++◌, Option, none, some, Text, keep,
  keep-append, arith, Option-cases, Bool-cases, inl, inr, append-nil, append_assoc, lookup, ◌⊎◌,
}
use ha_lua.Runner.Loop.{
  Event, Loop, start, flush, Input, event, tick, close, cancel, coalesce_key, postpone, coalesce,
  receive, step, bypasses,
}
use ha_lua.Runner.Loop.Window.{absorb, position, IsIndexed, coalesce-absorb, coalesce-IsIndexed}
use ha_lua.Runner.Loop.Delivery.{
  accepted, events, hits, plain, last_of, last_of-append, IsUnique, absorb-IsUnique, last_of-absorb,
  keep-absorb,
}

module _ (entity_of : Text → Text) where
  -- The map is right, and each entity has one place.
  abbrev pub IsLoop : Loop → Type 0
  IsLoop l = IsIndexed entity_of l × IsUnique entity_of l.pending

  pub start-IsLoop : IsLoop start
  unfolding start position hits lookup
  start-IsLoop = (λ k. refl, λ k. omega arith)

  flush-IsLoop : (l : Loop) → IsLoop (flush l)
  unfolding flush position hits lookup
  flush-IsLoop l = (λ k. refl, λ k. omega arith)

  coalesce-handled :
      (key : Option Text) (ev : Event) (l : Loop)
      → (coalesce entity_of key ev l).handled ≡ l.handled
  unfolding coalesce postpone
  coalesce-handled none ev l = refl
  coalesce-handled (some k) ev l = ground (arith, Option-cases (lookup k l.index))

  receive_now :
      (immediate : Bool) (ev : Event) (l : Loop)
      → (immediate || bypasses ev) ≡ true
      → receive entity_of immediate ev l
        ≡ record (flush l) { handled = l.handled ++ l.pending ++ ev ∷ [] }
  unfolding receive
  receive_now immediate ev l h = rw (h) refl

  receive_later :
      (immediate : Bool) (ev : Event) (l : Loop)
      → (immediate || bypasses ev) ≡ false
      → receive entity_of immediate ev l ≡ coalesce entity_of (coalesce_key entity_of ev) ev l
  unfolding receive
  receive_later immediate ev l h = rw (h) refl

  receive-IsLoop :
      (immediate : Bool) (ev : Event) (l : Loop)
      → IsLoop l
      → IsLoop (receive entity_of immediate ev l)
  unfolding flush position hits lookup
  receive-IsLoop immediate ev l v = elim (Bool-cases (immediate || bypasses ev)) [
    | inl now ↦ rw (receive_now immediate ev l now) (λ k. refl, λ k. omega arith)
    | inr later ↦ rw (receive_later immediate ev l later) (
      coalesce-IsIndexed entity_of ev l v.0,
      rw (coalesce-absorb entity_of ev l v.0) (absorb-IsUnique entity_of ev l.pending v.1),
    )
  ]

  pub step-IsLoop :
      (immediate : Bool) (i : Input) (l : Loop) → IsLoop l → IsLoop (step entity_of immediate i l)
  unfolding step
  step-IsLoop immediate (event ev) l v = receive-IsLoop immediate ev l v
  step-IsLoop immediate tick l v = flush-IsLoop l
  step-IsLoop immediate close l v = flush-IsLoop l
  step-IsLoop immediate cancel l v = v

  -- A round appends what it took from the channel, or absorbs it into the window.
  step-cases :
      (immediate : Bool) (i : Input) (l : Loop)
      → IsLoop l
      → (accepted (step entity_of immediate i l) ≡ accepted l ++ events (i ∷ []))
        ⊎ (ev : Event) × (events (i ∷ []) ≡ ev ∷ [])
          × (accepted (step entity_of immediate i l) ≡ l.handled ++ absorb entity_of ev l.pending)
  unfolding step accepted events flush
  step-cases immediate tick l v = inl refl
  step-cases immediate close l v = inl refl
  step-cases immediate cancel l v = inl (sym (append-nil (l.handled ++ l.pending)))
  step-cases immediate (event ev) l v = elim (Bool-cases (immediate || bypasses ev)) [
    | inl now ↦ inl (rw (receive_now immediate ev l now) (simp (append-nil, append_assoc)))
    | inr later ↦ inr (
      ev,
      refl,
      rw
          (
            receive_later immediate ev l later,
            coalesce-handled (coalesce_key entity_of ev) ev l,
            coalesce-absorb entity_of ev l v.0,
          )
          refl,
    )
  ]

  -- A round moves no event that is no state change out of its order.
  pub keep-step :
      (immediate : Bool) (i : Input) (l : Loop)
      → IsLoop l
      → keep (plain entity_of) (accepted (step entity_of immediate i l))
        ≡ keep (plain entity_of) (accepted l ++ events (i ∷ []))
  unfolding accepted
  keep-step immediate i l v = elim (step-cases immediate i l v) [
    | inl appended ↦ ap (keep (plain entity_of)) appended
    | inr (ev, taken, absorbed) ↦
        rw
          (
            absorbed,
            taken,
            append_assoc l.handled l.pending (ev ∷ []),
            keep-append (plain entity_of) l.handled (absorb entity_of ev l.pending),
            keep-append (plain entity_of) l.handled (l.pending ++ ev ∷ []),
          )
          (ap (λ r. keep (plain entity_of) l.handled ++ r) (keep-absorb entity_of ev l.pending))
  ]

  -- A round keeps the last state change of every entity.
  pub last_of-step :
      (k : Text) (immediate : Bool) (i : Input) (l : Loop)
      → IsLoop l
      → last_of entity_of k (accepted (step entity_of immediate i l))
        ≡ last_of entity_of k (accepted l ++ events (i ∷ []))
  unfolding accepted
  last_of-step k immediate i l v = elim (step-cases immediate i l v) [
    | inl appended ↦ ap (last_of entity_of k) appended
    | inr (ev, taken, absorbed) ↦
        rw
          (
            absorbed,
            taken,
            append_assoc l.handled l.pending (ev ∷ []),
            last_of-append entity_of k l.handled (absorb entity_of ev l.pending),
            last_of-append entity_of k l.handled (l.pending ++ ev ∷ []),
            last_of-absorb entity_of k ev l.pending v.1,
          )
          refl
  ]
