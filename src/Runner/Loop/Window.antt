-- ===== src/Runner/Loop/Window.antt =====
-- The pending window against its description by lists: a state change replaces in place the pending
-- one of the same entity, and all else is appended.
use ha_lua.Base.{
  ℕ, suc, ◌≡◌, refl, sym, ap, ◌∙◌, Bool, false, List, [], ◌∷◌, ◌++◌, Option, none, some, Text,
  text_eq, text_eq_iff, lookup, insert, lookup-insert, length, set, if◌then◌else◌, arith,
  Option-cases, Bool-cases, inl, inr,
}
use ha_lua.Runner.Loop.{Event, Loop, coalesce_key, postpone, coalesce}

module _ (entity_of : Text → Text) where
  -- Whether an event is a state change of an entity.
  unfoldable pub keyed : Text → Event → Bool
  keyed k ev = elim (coalesce_key entity_of ev) [ none ↦ false | some j ↦ text_eq j k ]

  -- The place of the first state change of an entity.
  unfoldable pub position : Text → List Event → Option ℕ
  position k [] = none
  position k (ev ∷ pending) =
      let later = position k pending in
      if keyed k ev then some 0 else elim later [ none ↦ none | some i ↦ some (suc i) ]

  unfoldable pub replace : Text → Event → List Event → List Event
  replace k ev [] = ev ∷ []
  replace k ev (x ∷ pending) = if keyed k x then ev ∷ pending else x ∷ replace k ev pending

  -- The window after one more event.
  unfoldable pub absorb : Event → List Event → List Event
  absorb ev pending = elim (coalesce_key entity_of ev) [
    | none ↦ pending ++ ev ∷ []
    | some k ↦ replace k ev pending
  ]

  -- The map holds the place of every entity's pending state change, and no other.
  abbrev pub IsIndexed : Loop → Type 0
  IsIndexed l = (k : Text) → lookup k l.index ≡ position k l.pending

  position-append :
      (k : Text) (pending : List Event) (ev : Event)
      → position k (pending ++ ev ∷ []) ≡ elim (position k pending) [
        | some i ↦ some i
        | none ↦ if keyed k ev then some (length pending) else none
      ]
  unfolding position
  position-append k [] ev = ground arith
  position-append k (x ∷ pending) ev = ground (arith, position-append k pending ev)

  replace-none :
      (k : Text) (ev : Event) (pending : List Event)
      → position k pending ≡ none
      → replace k ev pending ≡ pending ++ ev ∷ []
  unfolding position replace
  replace-none k ev [] h = refl
  replace-none k ev (x ∷ pending) h = ground (arith, replace-none k ev pending)

  replace-some :
      (k : Text) (ev : Event) (pending : List Event) (i : ℕ)
      → position k pending ≡ some i
      → set pending i ev ≡ replace k ev pending
  unfolding position replace
  replace-some k ev [] i h = cc
  replace-some k ev (x ∷ pending) i h = elim (Bool-cases (keyed k x)) [
    | inl hit ↦ let first : i ≡ 0 = ground arith in rw (first, hit)
    | inr miss ↦ elim (Option-cases (position k pending)) [
      | inl absent ↦ absurd (ground arith)
      | inr (m, found) ↦
          let next : i ≡ suc m = ground arith in
          rw (next, miss) (ap (λ l. x ∷ l) (replace-some k ev pending m found))
    ]
  ]

  position-replace :
      (j k : Text) (ev : Event) (pending : List Event) (i : ℕ)
      → coalesce_key entity_of ev ≡ some k
      → position k pending ≡ some i
      → position j (replace k ev pending) ≡ position j pending
  unfolding position replace keyed
  position-replace j k ev [] i e h = cc
  position-replace j k ev (x ∷ pending) i e h = elim (Option-cases (position k pending)) [
    | inl absent ↦ elim (Option-cases (coalesce_key entity_of x)) [
      | inl plain ↦ absurd (ground (arith, plain))
      | inr (k', own) ↦ ground (arith, own, text_eq_iff k' k)
    ]
    | inr (m, found) ↦
        let rest = position-replace j k ev pending m e found in
        elim (Option-cases (coalesce_key entity_of x)) [
          | inl plain ↦ ground (arith, plain, rest)
          | inr (k', own) ↦ ground (arith, own, text_eq_iff k' k, rest)
        ]
  ]

  pub absorb_plain :
      (ev : Event) (pending : List Event)
      → coalesce_key entity_of ev ≡ none
      → absorb ev pending ≡ pending ++ ev ∷ []
  unfolding absorb
  absorb_plain ev pending h = cc

  pub absorb_keyed :
      (ev : Event) (pending : List Event) (k : Text)
      → coalesce_key entity_of ev ≡ some k
      → absorb ev pending ≡ replace k ev pending
  unfolding absorb
  absorb_keyed ev pending k h = cc

  -- A state change of an entity that waits in no window.
  coalesce_new :
      (k : Text) (ev : Event) (l : Loop)
      → lookup k l.index ≡ none
      → coalesce entity_of (some k) ev l
        ≡ postpone entity_of ev (record l { index = insert k (length l.pending) l.index })
  unfolding coalesce
  coalesce_new k ev l h = cc

  coalesce_seen :
      (k : Text) (ev : Event) (l : Loop) (i : ℕ)
      → lookup k l.index ≡ some i
      → coalesce entity_of (some k) ev l ≡ record l { pending = set l.pending i ev }
  unfolding coalesce
  coalesce_seen k ev l i h = cc

  -- The window of the loop is that of its description, and the map stays right.
  pub coalesce-absorb :
      (ev : Event) (l : Loop)
      → IsIndexed l
      → (coalesce entity_of (coalesce_key entity_of ev) ev l).pending ≡ absorb ev l.pending
  unfolding coalesce postpone
  coalesce-absorb ev l v = elim (Option-cases (coalesce_key entity_of ev)) [
    | inl plain ↦ rw (plain, absorb_plain ev l.pending plain) refl
    | inr (k, own) ↦ elim (Option-cases (lookup k l.index)) [
      | inl absent ↦
          rw (own, coalesce_new k ev l absent, absorb_keyed ev l.pending k own)
            (sym (replace-none k ev l.pending (sym (v k) ∙ absent)))
      | inr (i, found) ↦
          rw (own, coalesce_seen k ev l i found, absorb_keyed ev l.pending k own)
            (replace-some k ev l.pending i (sym (v k) ∙ found))
    ]
  ]

  pub coalesce-IsIndexed :
      (ev : Event) (l : Loop)
      → IsIndexed l
      → IsIndexed (coalesce entity_of (coalesce_key entity_of ev) ev l)
  unfolding coalesce postpone keyed
  coalesce-IsIndexed ev l v j = elim (Option-cases (coalesce_key entity_of ev)) [
    | inl plain ↦ rw (plain) (ground (arith, plain, v j, position-append j l.pending ev))
    | inr (k, own) ↦ elim (Option-cases (lookup k l.index)) [
      | inl absent ↦
          rw (own, coalesce_new k ev l absent)
            (ground (
              arith,
              own,
              absent,
              v j,
              v k,
              position-append j l.pending ev,
              text_eq_iff k j,
              lookup-insert k j (length l.pending) l.index,
            ))
      | inr (i, found) ↦
          let at : position k l.pending ≡ some i = sym (v k) ∙ found in
          rw (own, coalesce_seen k ev l i found)
            (v j
              ∙ sym (position-replace j k ev l.pending i own at)
              ∙ ap (position j) (sym (replace-some k ev l.pending i at)))
    ]
  ]
