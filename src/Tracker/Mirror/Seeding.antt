-- ===== src/Tracker/Mirror/Seeding.antt =====
-- What the mirror holds after a seed.
use ha_lua.Base.{
  ℕ, ◌≡◌, refl, sym, ltb, Option-cases, ap, ◌∙◌, ◌≢◌, Bool, false, List, [], ◌∷◌, map, Option, none,
  some, arith, Text, text_eq, text_eq_iff, text_eq_refl, lookup, insert, lookup-insert, lookup-nil,
  if◌then◌else◌, ok, All, All-imp,
}
use ha_lua.Tracker.Mirror.{
  StateData, Known, Mem, normalised, merged, appended, merge, appends, seed, seed_baseline,
  newer_than, get_state, is_cold,
}

-- The last state of a batch that is for an entity.
unfoldable pub find_last : Text → List StateData → Option StateData
find_last id [] = none
find_last id (s ∷ batch) =
    let later = find_last id batch in
    elim later [ some t ↦ some t | none ↦ if text_eq s.entity_id id then some s else none ]

module _ (parse : Text → Option ℕ) where
  -- The state that stands: the live one only where both stamps parse and its own is the later.
  unfoldable pub winner : Option StateData → StateData → StateData
  winner none s = s
  winner (some live) s = elim (parse live.last_updated) [
    | none ↦ s
    | some seen ↦ elim (parse s.last_updated) [
      | none ↦ s
      | some rendered ↦ if ltb rendered seen then live else s
    ]
  ]

  pub merged-winner : (o : Option StateData) (s : StateData) → merged parse o s ≡ winner o s
  unfolding merged winner newer_than
  merged-winner none s = refl
  merged-winner (some live) s =
      ground (arith, Option-cases (parse live.last_updated), Option-cases (parse s.last_updated))

  abbrev pub merged_at : Mem → Option StateData → Option StateData → Option StateData
  merged_at old none kept = kept
  merged_at old (some s) kept = some (winner (lookup s.entity_id old) s)

  lookup-merge :
      (id : Text) (old : Mem) (base : Text → Option Known) (batch : List StateData) (mem : Mem)
      → lookup id (merge parse old base batch mem)
        ≡ merged_at old (find_last id batch) (lookup id mem)
  unfolding merge find_last
  lookup-merge id old base [] mem = refl
  lookup-merge id old base (s ∷ batch) mem =
      lookup-merge id old base batch
        (insert s.entity_id (merged parse (lookup s.entity_id old) s) mem)
      ∙ ground (
        arith,
        lookup-insert s.entity_id id (merged parse (lookup s.entity_id old) s) mem,
        text_eq_iff s.entity_id id,
        merged-winner (lookup s.entity_id old) s,
      )

  -- After a seed with at least one state that does not fail, the mirror holds for every entity of
  -- the batch its last state there, with the attributes normalised, or the live entry where both
  -- `last_updated` stamps parse and the live one is later, and nothing for any other entity.
  pub seed-get_state :
      (readable : Bool) (history : List StateData) (s : StateData) (states : List StateData)
      (mem mem' : Mem) (rows : List StateData) (id : Text)
      → seed parse readable history (s ∷ states) mem ≡ ok (mem', rows)
      → get_state id mem' ≡ merged_at mem (find_last id (map normalised (s ∷ states))) none
  unfolding seed get_state
  seed-get_state readable history s states mem mem' rows id e = ground (
    arith,
    lookup-merge id mem (seed_baseline mem history) (map normalised (s ∷ states)) [],
    lookup-nil {V = StateData} id,
  )

-- No entity occurs twice.
abbrev pub IsDistinct : List StateData → Type 0
IsDistinct [] = Unit
IsDistinct (s ∷ batch) = All (λ t. t.entity_id ≢ s.entity_id) batch × IsDistinct batch

pub find_last-none :
    (id : Text) (batch : List StateData)
    → All (λ t. t.entity_id ≢ id) batch
    → find_last id batch ≡ none
unfolding find_last
find_last-none id [] h = refl
find_last-none id (s ∷ batch) h =
    ground (arith, find_last-none id batch h.1, text_eq_iff s.entity_id id)

pub find_last_self :
    (batch : List StateData)
    → IsDistinct batch
    → All (λ s. find_last s.entity_id batch ≡ some s) batch
unfolding find_last
find_last_self [] h = tt
find_last_self (s ∷ batch) h = (
  ground (arith, find_last-none s.entity_id batch h.0, text_eq_refl s.entity_id),
  All-imp _ _ batch (λ t e. ground arith) (find_last_self batch h.1),
)

pub map-normalised-IsDistinct :
    (states : List StateData) → IsDistinct states → IsDistinct (map normalised states)
map-normalised-IsDistinct [] h = tt
map-normalised-IsDistinct (s ∷ states) h = (ids s states h.0, map-normalised-IsDistinct states h.1)
  where
    ids :
        (s : StateData) (states : List StateData)
        → All (λ t. t.entity_id ≢ s.entity_id) states
        → All (λ t. t.entity_id ≢ s.entity_id) (map normalised states)
    ids s [] h = tt
    ids s (t ∷ states) h = (h.0, ids s states h.1)

module _ (parse : Text → Option ℕ) where
  newer_than_irrefl : (a : Text) → newer_than parse a a ≡ false
  unfolding newer_than
  newer_than_irrefl a = ground arith

  -- What is in the mirror after a merge is no news.
  appended-merged :
      (o : Option StateData) (k : Option Known) (s : StateData)
      → appended parse (some (merged parse o s)) k s ≡ false
  unfolding appended merged
  appended-merged none k s =
      ground
        (arith, newer_than_irrefl s.last_updated, text_eq_refl s.state, text_eq_refl s.attributes)
  appended-merged (some live) k s =
      ground
        (arith, newer_than_irrefl s.last_updated, text_eq_refl s.state, text_eq_refl s.attributes)

  appends-none :
      (old : Mem) (base : Text → Option Known) (batch : List StateData)
      → All (λ s. appended parse (lookup s.entity_id old) (base s.entity_id) s ≡ false) batch
      → appends parse old base batch ≡ []
  unfolding appends
  appends-none old base [] h = refl
  appends-none old base (s ∷ batch) h = ground (arith, appends-none old base batch h.1)

  -- After a seed with a batch that names no entity twice, the same batch once more appends no row,
  -- whether the history can be read or not.
  pub seed_again :
      (readable readable' : Bool) (history history' : List StateData) (s : StateData)
      (states : List StateData) (mem mem' : Mem) (rows : List StateData)
      → IsDistinct (s ∷ states)
      → seed parse readable history (s ∷ states) mem ≡ ok (mem', rows)
      → (mem'' : Mem) × (seed parse readable' history' (s ∷ states) mem' ≡ ok (mem'', []))
  unfolding get_state
  seed_again readable readable' history history' s states mem mem' rows d e = (
    merge parse mem' (seed_baseline mem' history') batch [],
    unfold seed in ground (arith, warm mem' known, quiet),
  )
    where
      batch : List StateData
      batch = map normalised (s ∷ states)

      all_known :
          All (λ t. lookup t.entity_id mem' ≡ some (merged parse (lookup t.entity_id mem) t)) batch
      all_known =
          All-imp _ _ batch
            (λ t found.
              seed-get_state parse readable history s states mem mem' rows t.entity_id e
              ∙ ap (λ o. merged_at parse mem o none) found
              ∙ ap some (sym (merged-winner parse (lookup t.entity_id mem) t)))
            (find_last_self batch (map-normalised-IsDistinct (s ∷ states) d))

      known : (x : StateData) × (lookup s.entity_id mem' ≡ some x)
      known = (_, all_known.0)

      warm : (m : Mem) → ((x : StateData) × (lookup s.entity_id m ≡ some x)) → is_cold m ≡ false
      warm [] (x, k) = cc (lookup-nil {V = StateData} s.entity_id)
      warm (y ∷ m) k = refl

      quiet : appends parse mem' (seed_baseline mem' history') batch ≡ []
      quiet = appends-none mem' (seed_baseline mem' history') batch (
          All-imp _ _ batch
            (λ t k.
              ap (λ o. appended parse o (seed_baseline mem' history' t.entity_id) t) k
              ∙ appended-merged (lookup t.entity_id mem) (seed_baseline mem' history' t.entity_id)
                  t)
            all_known)
