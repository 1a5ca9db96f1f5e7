-- ===== src/Tracker/Mirror/Coherence.antt =====
-- The mirror and the rows written or queued agree: the newest row of a live entity has its state and
-- attributes.
use ha_lua.Base.{
  ℕ, ◌≡◌, refl, ap, subst, ◌∙◌, ◌≢◌, ◌⊎◌, Bool, true, List, [], ◌∷◌, ◌++◌, map, Option, none, some,
  arith, Text, text_eq_iff, lookup, lookup-insert, lookup-delete, if◌then◌else◌, ok, All,
  Option-cases, inl, inr,
}
use ha_lua.Tracker.Mirror.{
  StateData, StateChanged, Known, Mem, normalised, merged, appended, appends, seed, seed_baseline,
  history_baseline, handle_state_changed, get_state, is_cold,
}
use ha_lua.Tracker.Mirror.Seeding.{
  find_last, merged_at, merged-winner, seed-get_state, IsDistinct, find_last-none,
  map-normalised-IsDistinct,
}

abbrev pub known : StateData → Known
known s = record { state = s.state; attrs = s.attributes }

-- `rows` holds the history and then the queue, oldest first.
abbrev pub IsCoherent : Mem → List StateData → Type 0
IsCoherent mem rows =
    (id : Text) (s : StateData)
    → get_state id mem ≡ some s
    → history_baseline id rows ≡ some (known s)

baseline-append :
    (id : Text) (xs ys : List StateData)
    → history_baseline id (xs ++ ys)
      ≡ elim (history_baseline id ys) [ some k ↦ some k | none ↦ history_baseline id xs ]
unfolding history_baseline
baseline-append id [] ys = ground arith
baseline-append id (x ∷ xs) ys = ground (arith, baseline-append id xs ys)

-- Every `state_changed` event that decodes, a removal included, keeps the mirror coherent with the rows
-- and what the event appends to them.
pub handle_state_changed-IsCoherent :
    (decode : Text → Option StateChanged) (raw : Text) (mem mem' : Mem) (rows new : List StateData)
    → handle_state_changed decode raw mem ≡ (mem', ok new)
    → IsCoherent mem rows
    → IsCoherent mem' (rows ++ new)
unfolding handle_state_changed get_state history_baseline
handle_state_changed-IsCoherent decode raw mem mem' rows new e h id x l =
    elim (Option-cases (decode raw)) [
      | inl d ↦ absurd (ground arith)
      | inr (change, d) ↦ elim (Option-cases change.new_state) [
        | inl gone ↦
            baseline-append id rows new
            ∙ ground (arith, lookup-delete change.entity_id id mem, h id x)
        | inr (s, now) ↦
            baseline-append id rows new
            ∙ ground (
              arith,
              lookup-insert s.entity_id id (normalised s) mem,
              text_eq_iff s.entity_id id,
              h id x,
            )
      ]
    ]

module _ (parse : Text → Option ℕ) where
  baseline-appends-none :
      (id : Text) (old : Mem) (base : Text → Option Known) (batch : List StateData)
      → All (λ t. t.entity_id ≢ id) batch
      → history_baseline id (appends parse old base batch) ≡ none
  unfolding history_baseline appends
  baseline-appends-none id old base [] h = refl
  baseline-appends-none id old base (s ∷ batch) h =
      ground (arith, baseline-appends-none id old base batch h.1, text_eq_iff s.entity_id id)

  baseline-appends :
      (id : Text) (old : Mem) (base : Text → Option Known) (batch : List StateData) (s : StateData)
      → IsDistinct batch
      → find_last id batch ≡ some s
      → history_baseline id (appends parse old base batch)
        ≡ (if appended parse (lookup id old) (base id) s then some (known s) else none)
  unfolding history_baseline appends find_last
  baseline-appends id old base [] s d e = cc
  baseline-appends id old base (t ∷ batch) s d e = elim (Option-cases (find_last id batch)) [
    | inl missing ↦
        let same : t.entity_id ≡ id = ground (arith, text_eq_iff t.entity_id id) in
        ground (
          arith,
          text_eq_iff t.entity_id id,
          baseline-appends-none id old base batch
              (subst (λ i. All (λ u. u.entity_id ≢ i) batch) same d.0),
        )
    | inr (u, found) ↦
        let other : t.entity_id ≢ id = (λ same.
          cc (find_last-none id batch (subst (λ i. All (λ v. v.entity_id ≢ i) batch) same d.0))) in
        ground (arith, text_eq_iff t.entity_id id, baseline-appends id old base batch s d.1)
  ]

  find_last_id :
      (id : Text) (batch : List StateData) (s : StateData)
      → find_last id batch ≡ some s
      → s.entity_id ≡ id
  unfolding find_last
  find_last_id id [] s e = cc
  find_last_id id (t ∷ batch) s e =
      ground (arith, find_last_id id batch s, text_eq_iff t.entity_id id)

  -- The row that the seed leaves as the newest of an entity in the batch, by what was known of it.
  merged-known :
      (o : Option StateData) (k b : Option Known) (s : StateData)
      → ((live : StateData) → o ≡ some live → b ≡ some (known live))
      → (o ≡ none → (k ≡ none) ⊎ (k ≡ b))
      → elim (if appended parse o k s then some (known s) else none) [ some n ↦ some n | none ↦ b ]
        ≡ some (known (merged parse o s))
  unfolding appended merged
  merged-known none none b s h g = refl
  merged-known none (some k) b s h g = elim (g refl) [
    | inl e ↦ absurd (cc)
    | inr e ↦ ground (arith, text_eq_iff k.state s.state, text_eq_iff k.attrs s.attributes)
  ]
  merged-known (some live) k b s h g =
      ground (
        arith,
        h live refl,
        text_eq_iff live.state s.state,
        text_eq_iff live.attributes s.attributes,
      )

  seed-rows :
      (readable : Bool) (history : List StateData) (s : StateData) (states : List StateData)
      (mem mem' : Mem) (new : List StateData)
      → seed parse readable history (s ∷ states) mem ≡ ok (mem', new)
      → new ≡ appends parse mem (seed_baseline mem history) (map normalised (s ∷ states))
  unfolding seed
  seed-rows readable history s states mem mem' new e = ground arith

  baseline_cases :
      (id : Text) (mem : Mem) (history rows : List StateData)
      → (is_cold mem ≡ true → history ≡ rows)
      → (seed_baseline mem history id ≡ none)
        ⊎ (seed_baseline mem history id ≡ history_baseline id rows)
  unfolding seed_baseline
  baseline_cases id [] history rows cold = inr (ap (history_baseline id) (cold refl))
  baseline_cases id (m ∷ mem) history rows cold = inl refl

  -- A seed with a batch that names no entity twice keeps the mirror coherent with the rows and what
  -- it appends; on a cold start this supposes that no row is waiting in the queue, since the
  -- baseline is read from the history alone.
  pub seed-IsCoherent :
      (readable : Bool) (history : List StateData) (s : StateData) (states : List StateData)
      (mem mem' : Mem) (rows new : List StateData)
      → IsDistinct (s ∷ states)
      → (is_cold mem ≡ true → history ≡ rows)
      → seed parse readable history (s ∷ states) mem ≡ ok (mem', new)
      → IsCoherent mem rows
      → IsCoherent mem' (rows ++ new)
  unfolding get_state
  seed-IsCoherent readable history s states mem mem' rows new d cold e h id x l =
      elim (Option-cases (find_last id batch)) [
        | inl missing ↦ cc (got, l, ap (λ o. merged_at parse mem o none) missing)
        | inr (u, found) ↦
            baseline-append id rows new
            ∙ ap (λ o. elim o [ some k ↦ some k | none ↦ history_baseline id rows ])
                (newest u found)
            ∙ merged-known (lookup id mem) (seed_baseline mem history id) (history_baseline id rows)
                u (λ live k. h id live k) (λ unknown. baseline_cases id mem history rows cold)
            ∙ ap (λ y. some (known y)) (value u found)
      ]
    where
      batch : List StateData
      batch = map normalised (s ∷ states)

      got : get_state id mem' ≡ merged_at parse mem (find_last id batch) none
      got = seed-get_state parse readable history s states mem mem' new id e

      newest :
          (u : StateData)
          → find_last id batch ≡ some u
          → history_baseline id new ≡ (
              if appended parse (lookup id mem) (seed_baseline mem history id) u
              then some (known u)
              else none)
      newest u found =
          ap (history_baseline id) (seed-rows readable history s states mem mem' new e)
          ∙ baseline-appends id mem (seed_baseline mem history) batch u
              (map-normalised-IsDistinct (s ∷ states) d) found

      value : (u : StateData) → find_last id batch ≡ some u → merged parse (lookup id mem) u ≡ x
      value u found = cc (
        got,
        l,
        merged-winner parse (lookup u.entity_id mem) u,
        ap (λ o. merged_at parse mem o none) found,
        ap (λ i. merged parse (lookup i mem) u) (find_last_id id batch u found),
      )
