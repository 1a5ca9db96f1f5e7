-- ===== src/Mqtt/Topic/Spec.antt =====
-- What a filter matches, as a relation on levels, and that `Match` decides it.
use ha_lua.Base.{
  ◌≡◌, refl, ◌↔◌, ◌⊎◌, inl, inr, true, false, List, [], ◌∷◌, arith, Text, text_eq, text_eq_iff,
  has_prefix, has_byte, split-injective, All, Bool-cases,
}
use ha_lua.Mqtt.Topic.{hash, plus, levels, has_wildcard, match_levels, wild_root, match}

-- '+' stands for one level and '#' for the rest, the empty rest included.
pub data Covers : List Text → List Text → Type 0 where
  done : Covers [] []
  rest : {f : Text} {fs ts : List Text} → f ≡ hash → Covers (f ∷ fs) ts
  any : {f t : Text} {fs ts : List Text} → f ≡ plus → Covers fs ts → Covers (f ∷ fs) (t ∷ ts)
  same : {f t : Text} {fs ts : List Text} → f ≡ t → Covers fs ts → Covers (f ∷ fs) (t ∷ ts)

match_levels_sound : (fs ts : List Text) → match_levels fs ts ≡ true → Covers fs ts
unfolding match_levels
match_levels_sound [] [] h = done
match_levels_sound [] (t ∷ ts) h = cc
match_levels_sound (f ∷ fs) [] h = elim (Bool-cases (text_eq f hash)) [
  | inl e ↦ rest ((text_eq_iff f hash).0 e)
  | inr e ↦ absurd (ground arith)
]
match_levels_sound (f ∷ fs) (t ∷ ts) h = elim (Bool-cases (text_eq f hash)) [
  | inl e ↦ rest ((text_eq_iff f hash).0 e)
  | inr e ↦ elim (Bool-cases (text_eq f plus)) [
    | inl p ↦ any ((text_eq_iff f plus).0 p) (match_levels_sound fs ts (ground arith))
    | inr p ↦ elim (Bool-cases (text_eq f t)) [
      | inl q ↦ same ((text_eq_iff f t).0 q) (match_levels_sound fs ts (ground arith))
      | inr q ↦ absurd (ground arith)
    ]
  ]
]

match_levels_complete : {fs ts : List Text} → Covers fs ts → match_levels fs ts ≡ true
unfolding match_levels
match_levels_complete done = refl
match_levels_complete (rest {f} {fs} {ts = []} e) = ground (arith, text_eq_iff f hash)
match_levels_complete (rest {f} {fs} {ts = t ∷ ts} e) = ground (arith, text_eq_iff f hash)
match_levels_complete (any {f} {t} e c) =
    ground (arith, text_eq_iff f hash, text_eq_iff f plus, match_levels_complete c)
match_levels_complete (same {f} {t} e c) =
    ground (arith, text_eq_iff f hash, text_eq_iff f t, match_levels_complete c)

-- The topic is reserved and the filter starts with a wildcard.
abbrev pub IsHidden : Text → Text → Type 0
IsHidden filter topic = (has_prefix topic (b'$' ∷ []) ≡ true) × (wild_root (levels filter) ≡ true)

-- For every filter and topic, `Match` holds exactly when the two are the same text, or the filter's
-- levels cover the topic's and the topic is not a '$' topic under a wildcard at the root.
pub match_iff :
    (filter topic : Text)
    → (match filter topic ≡ true)
      ↔ ((filter ≡ topic) ⊎ (Covers (levels filter) (levels topic) × ¬ IsHidden filter topic))
unfolding match
match_iff filter topic = (to, from)
  where
    to :
        match filter topic ≡ true
        → (filter ≡ topic) ⊎ (Covers (levels filter) (levels topic) × ¬ IsHidden filter topic)
    to h = elim (Bool-cases (text_eq filter topic)) [
      | inl e ↦ inl ((text_eq_iff filter topic).0 e)
      | inr e ↦ inr (match_levels_sound _ _ (ground arith), ground arith)
    ]

    from :
        (filter ≡ topic) ⊎ (Covers (levels filter) (levels topic) × ¬ IsHidden filter topic)
        → match filter topic ≡ true
    from (inl e) = ground (arith, text_eq_iff filter topic)
    from (inr (c, n)) = ground (arith, match_levels_complete c)

-- A level without '#' and '+'.
abbrev pub IsPlain : Text → Type 0
IsPlain level = has_wildcard level ≡ false

Covers-plain : {fs ts : List Text} → Covers fs ts → All IsPlain fs → fs ≡ ts
unfolding has_byte
Covers-plain done h = refl
Covers-plain (rest e) h = absurd (ground arith)
Covers-plain (any e c) h = absurd (ground arith)
Covers-plain (same e c) h = cc (e, Covers-plain c h.1)

-- A filter none of whose levels holds a wildcard matches its own text and no other topic.
pub match-plain_iff :
    (filter topic : Text)
    → All IsPlain (levels filter)
    → (match filter topic ≡ true) ↔ (filter ≡ topic)
match-plain_iff filter topic h = (to, λ e. (match_iff filter topic).1 (inl e))
  where
    to : match filter topic ≡ true → filter ≡ topic
    to m = elim ((match_iff filter topic).0 m) [
      | inl e ↦ e
      | inr c ↦ split-injective b'/' filter topic (Covers-plain c.0 h)
    ]
