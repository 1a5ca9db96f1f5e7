-- ===== src/Runner/Loop/Delivery.antt =====
-- What reaches `handleEvent` against what `Send` put into the channel.
use ha_lua.Base.{
  ℕ, suc, ◌≡◌, ◌≤◌, refl, Bool, true, false, ◌&&◌, List, [], ◌∷◌, ◌++◌, Option, none, some, Text,
  text_eq, text_eq_iff, keep, keep-append, if◌then◌else◌, arith, Option-cases, inl, inr, append-nil,
  ◌==◌,
}
use ha_lua.Runner.Loop.{Event, Loop, Input, event, tick, close, cancel, coalesce_key}
use ha_lua.Runner.Loop.Window.{keyed, replace, absorb, absorb_plain, absorb_keyed}

-- The events among the inputs, up to the end of the loop.
unfoldable pub events : List Input → List Event
events [] = []
events (event ev ∷ inputs) = ev ∷ events inputs
events (tick ∷ inputs) = events inputs
events (close ∷ inputs) = []
events (cancel ∷ inputs) = []

-- What the loop was given and has not dropped, in order.
unfoldable pub accepted : Loop → List Event
accepted l = l.handled ++ l.pending

module _ (entity_of : Text → Text) where
  -- Whether an event is no state change of an entity.
  unfoldable pub plain : Event → Bool
  plain ev = elim (coalesce_key entity_of ev) [ none ↦ true | some k ↦ false ]

  -- The later of two events, where there is one.
  unfoldable pub later : Option Event → Option Event → Option Event
  later (some x) y = some x
  later none y = y

  -- The last state change of an entity.
  unfoldable pub last_of : Text → List Event → Option Event
  last_of k [] = none
  last_of k (ev ∷ rest) = later (last_of k rest) (if keyed entity_of k ev then some ev else none)

  -- How many state changes of an entity wait.
  unfoldable pub hits : Text → List Event → ℕ
  hits k [] = 0
  hits k (ev ∷ rest) = let n = hits k rest in if keyed entity_of k ev then suc n else n

  abbrev pub IsUnique : List Event → Type 0
  IsUnique pending = (k : Text) → hits k pending ≤ 1

  pub last_of-append :
      (k : Text) (a b : List Event) → last_of k (a ++ b) ≡ later (last_of k b) (last_of k a)
  unfolding last_of later
  last_of-append k [] b = ground (arith, Option-cases (last_of k b))
  last_of-append k (x ∷ a) b = ground (arith, last_of-append k a b)

  last_of-none : (k : Text) (a : List Event) → hits k a ≡ 0 → last_of k a ≡ none
  unfolding last_of later hits
  last_of-none k [] h = refl
  last_of-none k (x ∷ a) h = ground (arith, last_of-none k a)

  last_of-replace :
      (k j : Text) (ev : Event) (pending : List Event)
      → coalesce_key entity_of ev ≡ some j
      → hits j pending ≤ 1
      → last_of k (replace entity_of j ev pending)
        ≡ (if text_eq j k then some ev else last_of k pending)
  unfolding last_of later hits replace keyed
  last_of-replace k j ev [] e h = ground (arith, e)
  last_of-replace k j ev (x ∷ pending) e h = elim (Option-cases (coalesce_key entity_of x)) [
    | inl free ↦ ground (arith, e, free, last_of-replace k j ev pending e)
    | inr (i, own) ↦ ground (
      arith,
      e,
      own,
      last_of-replace k j ev pending e,
      last_of-none j pending,
      text_eq_iff i j,
      text_eq_iff i k,
      text_eq_iff j k,
    )
  ]

  -- A state change takes a new place only where none of its entity waits.
  hits-replace :
      (k j : Text) (ev : Event) (pending : List Event)
      → coalesce_key entity_of ev ≡ some j
      → hits k (replace entity_of j ev pending)
        ≡ (if text_eq j k && (hits k pending == 0) then 1 else hits k pending)
  unfolding hits replace keyed
  hits-replace k j ev [] e = ground (arith, e)
  hits-replace k j ev (x ∷ pending) e = elim (Option-cases (coalesce_key entity_of x)) [
    | inl free ↦ ground (arith, e, free, hits-replace k j ev pending e)
    | inr (i, own) ↦ ground (
      arith,
      e,
      own,
      hits-replace k j ev pending e,
      text_eq_iff i j,
      text_eq_iff i k,
      text_eq_iff j k,
    )
  ]

  hits-plain :
      (k : Text) (ev : Event) (pending : List Event)
      → coalesce_key entity_of ev ≡ none
      → hits k (pending ++ ev ∷ []) ≡ hits k pending
  unfolding hits keyed
  hits-plain k ev [] e = ground (arith, e)
  hits-plain k ev (x ∷ pending) e = ground (arith, hits-plain k ev pending e)

  -- Absorbing an event keeps one place per entity.
  pub absorb-IsUnique :
      (ev : Event) (pending : List Event)
      → IsUnique pending
      → IsUnique (absorb entity_of ev pending)
  absorb-IsUnique ev pending u k = elim (Option-cases (coalesce_key entity_of ev)) [
    | inl free ↦ rw (absorb_plain entity_of ev pending free, hits-plain k ev pending free) (u k)
    | inr (j, own) ↦
        rw (absorb_keyed entity_of ev pending j own, hits-replace k j ev pending own)
          (ground (arith, u k))
  ]

  -- Absorbing an event and appending it show the same last state changes.
  pub last_of-absorb :
      (k : Text) (ev : Event) (pending : List Event)
      → IsUnique pending
      → last_of k (absorb entity_of ev pending) ≡ last_of k (pending ++ ev ∷ [])
  unfolding last_of later keyed
  last_of-absorb k ev pending u = elim (Option-cases (coalesce_key entity_of ev)) [
    | inl free ↦ rw (absorb_plain entity_of ev pending free) refl
    | inr (j, own) ↦
        rw
          (
            absorb_keyed entity_of ev pending j own,
            last_of-replace k j ev pending own (u j),
            last_of-append k pending (ev ∷ []),
          )
          (ground (arith, own))
  ]

  keep-replace :
      (j : Text) (ev : Event) (pending : List Event)
      → coalesce_key entity_of ev ≡ some j
      → keep plain (replace entity_of j ev pending) ≡ keep plain pending
  unfolding replace keyed plain
  keep-replace j ev [] e = ground (arith, e)
  keep-replace j ev (x ∷ pending) e = elim (Option-cases (coalesce_key entity_of x)) [
    | inl free ↦ ground (arith, e, free, keep-replace j ev pending e)
    | inr (i, own) ↦ ground (arith, e, own, keep-replace j ev pending e)
  ]

  -- Absorbing an event and appending it leave the same other events in the same order.
  pub keep-absorb :
      (ev : Event) (pending : List Event)
      → keep plain (absorb entity_of ev pending) ≡ keep plain (pending ++ ev ∷ [])
  unfolding plain
  keep-absorb ev pending = elim (Option-cases (coalesce_key entity_of ev)) [
    | inl free ↦ rw (absorb_plain entity_of ev pending free) refl
    | inr (j, own) ↦
        rw
          (
            absorb_keyed entity_of ev pending j own,
            keep-replace j ev pending own,
            keep-append plain pending (ev ∷ []),
          )
          (ground (arith, own, append-nil (keep plain pending)))
  ]
