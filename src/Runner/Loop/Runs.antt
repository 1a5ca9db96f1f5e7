-- ===== src/Runner/Loop/Runs.antt =====
-- Whole runs of the event loop: from the first input on, in any order of events and ticks.
use ha_lua.Base.{
  ◌≡◌, refl, sym, ap, ◌∙◌, Bool, List, [], ◌∷◌, ◌++◌, Text, keep, keep-append, append-nil,
  append_assoc,
}
use ha_lua.Runner.Loop.{Event, Loop, start, flush, Input, event, tick, close, cancel, step, run}
use ha_lua.Runner.Loop.Delivery.{accepted, events, plain, last_of, last_of-append}
use ha_lua.Runner.Loop.Rounds.{IsLoop, start-IsLoop, step-IsLoop, keep-step, last_of-step}

-- Inputs that do not end the loop.
unfoldable pub IsOpen : List Input → Type 0
IsOpen [] = Unit
IsOpen (event ev ∷ inputs) = IsOpen inputs
IsOpen (tick ∷ inputs) = IsOpen inputs
IsOpen (close ∷ inputs) = ⊥
IsOpen (cancel ∷ inputs) = ⊥

module _ (entity_of : Text → Text) where
  events-event :
      (ev : Event) (inputs : List Input)
      → events (event ev ∷ inputs) ≡ events (event ev ∷ []) ++ events inputs
  unfolding events
  events-event ev inputs = refl

  run-keep :
      (immediate : Bool) (inputs : List Input) (l : Loop)
      → IsLoop entity_of l
      → keep (plain entity_of) (accepted (run entity_of immediate inputs l))
        ≡ keep (plain entity_of) (accepted l ++ events inputs)
  unfolding run events
  run-keep immediate [] l v = ap (keep (plain entity_of)) (sym (append-nil (accepted l)))
  run-keep immediate (event ev ∷ inputs) l v =
      let i = event ev in
      run-keep immediate inputs (step entity_of immediate i l)
        (step-IsLoop entity_of immediate i l v)
      ∙ rw
          (
            events-event ev inputs,
            sym (append_assoc (accepted l) (events (i ∷ [])) (events inputs)),
            keep-append (plain entity_of) (accepted (step entity_of immediate i l)) (events inputs),
            keep-append (plain entity_of) (accepted l ++ events (i ∷ [])) (events inputs),
            keep-step entity_of immediate i l v,
          )
          refl
  run-keep immediate (tick ∷ inputs) l v =
      run-keep immediate inputs (step entity_of immediate tick l)
        (step-IsLoop entity_of immediate tick l v)
      ∙ rw
          (
            keep-append (plain entity_of) (accepted (step entity_of immediate tick l))
                (events inputs),
            keep-append (plain entity_of) (accepted l) (events inputs),
            keep-step entity_of immediate tick l v,
            append-nil (accepted l),
          )
          refl
  run-keep immediate (close ∷ inputs) l v = keep-step entity_of immediate close l v
  run-keep immediate (cancel ∷ inputs) l v = keep-step entity_of immediate cancel l v

  run-last_of :
      (k : Text) (immediate : Bool) (inputs : List Input) (l : Loop)
      → IsLoop entity_of l
      → last_of entity_of k (accepted (run entity_of immediate inputs l))
        ≡ last_of entity_of k (accepted l ++ events inputs)
  unfolding run events
  run-last_of k immediate [] l v = ap (last_of entity_of k) (sym (append-nil (accepted l)))
  run-last_of k immediate (event ev ∷ inputs) l v =
      let i = event ev in
      run-last_of k immediate inputs (step entity_of immediate i l)
        (step-IsLoop entity_of immediate i l v)
      ∙ rw
          (
            events-event ev inputs,
            sym (append_assoc (accepted l) (events (i ∷ [])) (events inputs)),
            last_of-append entity_of k (accepted (step entity_of immediate i l)) (events inputs),
            last_of-append entity_of k (accepted l ++ events (i ∷ [])) (events inputs),
            last_of-step entity_of k immediate i l v,
          )
          refl
  run-last_of k immediate (tick ∷ inputs) l v =
      run-last_of k immediate inputs (step entity_of immediate tick l)
        (step-IsLoop entity_of immediate tick l v)
      ∙ rw
          (
            last_of-append entity_of k (accepted (step entity_of immediate tick l)) (events inputs),
            last_of-append entity_of k (accepted l) (events inputs),
            last_of-step entity_of k immediate tick l v,
            append-nil (accepted l),
          )
          refl
  run-last_of k immediate (close ∷ inputs) l v = last_of-step entity_of k immediate close l v
  run-last_of k immediate (cancel ∷ inputs) l v = last_of-step entity_of k immediate cancel l v

  -- However events and ticks of the flush timer interleave, up to the end of the loop the events that are
  -- no state change of an entity are handled, or wait, in the order they came in, none lost and none
  -- twice.
  pub run-start-keep :
      (immediate : Bool) (inputs : List Input)
      → keep (plain entity_of) (accepted (run entity_of immediate inputs start))
        ≡ keep (plain entity_of) (events inputs)
  unfolding start accepted
  run-start-keep immediate inputs = run-keep immediate inputs start (start-IsLoop entity_of)

  -- However events and ticks interleave, up to the end of the loop the last state change of an entity that
  -- was handled, or waits, is the last one that came in: coalescing never leaves an entity's older state
  -- as the newest.
  pub run-start-last_of :
      (immediate : Bool) (inputs : List Input) (k : Text)
      → last_of entity_of k (accepted (run entity_of immediate inputs start))
        ≡ last_of entity_of k (events inputs)
  unfolding start accepted
  run-start-last_of immediate inputs k =
      run-last_of k immediate inputs start (start-IsLoop entity_of)

  accepted_all : (l : Loop) → l.pending ≡ [] → l.handled ≡ accepted l
  unfolding accepted
  accepted_all l h = rw (h) (sym (append-nil l.handled))

  run-close_pending :
      (immediate : Bool) (inputs : List Input) (l : Loop)
      → IsOpen inputs
      → (run entity_of immediate (inputs ++ close ∷ []) l).pending ≡ []
  unfolding run step flush IsOpen
  run-close_pending immediate [] l o = refl
  run-close_pending immediate (event ev ∷ inputs) l o =
      run-close_pending immediate inputs (step entity_of immediate (event ev) l) o
  run-close_pending immediate (tick ∷ inputs) l o =
      run-close_pending immediate inputs (step entity_of immediate tick l) o
  run-close_pending immediate (close ∷ inputs) l o = absurd o
  run-close_pending immediate (cancel ∷ inputs) l o = absurd o

  events-append_close : (inputs : List Input) → events (inputs ++ close ∷ []) ≡ events inputs
  unfolding events
  events-append_close [] = refl
  events-append_close (event ev ∷ inputs) = ap (λ r. ev ∷ r) (events-append_close inputs)
  events-append_close (tick ∷ inputs) = events-append_close inputs
  events-append_close (close ∷ inputs) = refl
  events-append_close (cancel ∷ inputs) = refl

  -- When events and ticks end with the close of the channel, nothing is left waiting: all events that are
  -- no state change of an entity were handled, in the order they came in, and the last state change
  -- handled for every entity is the last one that came in.
  pub run-close :
      (immediate : Bool) (inputs : List Input) (k : Text)
      → IsOpen inputs
      → let l = run entity_of immediate (inputs ++ close ∷ []) start in
        (l.pending ≡ [])
        × (keep (plain entity_of) l.handled ≡ keep (plain entity_of) (events inputs))
        × (last_of entity_of k l.handled ≡ last_of entity_of k (events inputs))
  run-close immediate inputs k o =
      let l = run entity_of immediate (inputs ++ close ∷ []) start in
      let empty : l.pending ≡ [] = run-close_pending immediate inputs start o in
      let all : l.handled ≡ accepted l = accepted_all l empty in
      let same = events-append_close inputs in
      (
        empty,
        ap (keep (plain entity_of)) all
            ∙ run-start-keep immediate (inputs ++ close ∷ [])
            ∙ ap (keep (plain entity_of)) same,
        ap (last_of entity_of k) all
            ∙ run-start-last_of immediate (inputs ++ close ∷ []) k
            ∙ ap (last_of entity_of k) same,
      )
