-- ===== src/Tracker/Queries/Listing.antt =====
-- What `GetEntities` lists.
use ha_lua.Base.{
  ◌≡◌, refl, Bool, true, false, List, [], ◌∷◌, Option, none, some, Text, text_lt_asym, Any, All,
  IsSorted, sort_by, sort_by-IsSorted, sort_by-SameItems, SameItems, Option-cases, inl, inr,
  if◌then◌else◌, ok, err,
}
use ha_lua.Tracker.Mirror.{StateData, Mem}
use ha_lua.Tracker.Queries.{bad_pattern, matching, by_id, get_entities}

module _ (glob : Text → Text → Option Bool) where
  -- The states of the entities that a test takes.
  unfoldable pub chosen : (Text → Bool) → Mem → List StateData
  chosen p [] = []
  chosen p ((id, s) ∷ mem) = let rest = chosen p mem in if p id then s ∷ rest else rest

  matching-ok :
      (pattern : Text) (p : Text → Bool) (mem : Mem)
      → All (λ e. glob pattern e.0 ≡ some (p e.0)) mem
      → matching glob pattern mem ≡ ok (chosen p mem)
  unfolding matching chosen
  matching-ok pattern p [] h = refl
  matching-ok pattern p ((id, s) ∷ mem) h = rw (matching, h.0, matching-ok pattern p mem h.1) refl

  matching-err :
      (pattern : Text) (mem : Mem)
      → Any (λ e. glob pattern e.0 ≡ none) mem
      → matching glob pattern mem ≡ err bad_pattern
  unfolding matching
  matching-err pattern [] h = absurd h
  matching-err pattern ((id, s) ∷ mem) (inl bad) = rw (matching, bad) refl
  matching-err pattern ((id, s) ∷ mem) (inr h) = elim (Option-cases (glob pattern id)) [
    | inl bad ↦ rw (matching, bad) refl
    | inr (hit, fine) ↦ rw (matching, fine, matching-err pattern mem h) refl
  ]

  by_id_asym : (r s : StateData) → by_id glob r s ≡ true → by_id glob s r ≡ false
  by_id_asym r s h = text_lt_asym r.entity_id s.entity_id h

  -- Where the pattern is well formed for every entity, the listing has the states of exactly the entities that match, each once, by
  -- the order of their ids; where it is malformed for one, the listing is the error.
  pub get_entities_lem :
      (pattern : Text) (p : Text → Bool) (mem : Mem)
      → (All (λ e. glob pattern e.0 ≡ some (p e.0)) mem
          → (found : List StateData) × (get_entities glob pattern mem ≡ ok found)
            × IsSorted (by_id glob) found
            × SameItems found (chosen p mem))
        × (Any (λ e. glob pattern e.0 ≡ none) mem → get_entities glob pattern mem ≡ err bad_pattern)
  unfolding get_entities
  get_entities_lem pattern p mem = (
    λ h. (
      sort_by (by_id glob) (chosen p mem),
      rw (get_entities, matching-ok pattern p mem h) refl,
      sort_by-IsSorted (by_id glob) by_id_asym (chosen p mem),
      sort_by-SameItems (by_id glob) (chosen p mem),
    ),
    λ h. rw (get_entities, matching-err pattern mem h) refl,
  )
