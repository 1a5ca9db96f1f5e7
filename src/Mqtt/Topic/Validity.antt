-- ===== src/Mqtt/Topic/Validity.antt =====
-- Which filters `ValidateFilter` accepts.
use ha_lua.Base.{ℕ, ◌+◌, ◌≡◌, ◌≢◌, ◌↔◌, ◌⊎◌, List, [], ◌∷◌, none, arith, Text, text_eq_iff, length}
use ha_lua.Mqtt.Topic.{hash, plus, levels, level_error, levels_error, validate_filter}
use ha_lua.Mqtt.Topic.Spec.{IsPlain}

-- '#' only as the last level, and '+' only as a whole level.
abbrev pub Legal : List Text → Type 0
Legal [] = Unit
Legal (f ∷ []) = (f ≡ hash) ⊎ (f ≡ plus) ⊎ IsPlain f
Legal (f ∷ g ∷ fs) = (f ≢ hash) × ((f ≡ plus) ⊎ IsPlain f) × Legal (g ∷ fs)

levels_error_iff :
    (n i : ℕ) (fs : List Text) → i + length fs ≡ n → (levels_error n i fs ≡ none) ↔ Legal fs
unfolding levels_error level_error
levels_error_iff n i [] h = ground arith
levels_error_iff n i (f ∷ []) h = ground (arith, text_eq_iff f hash, text_eq_iff f plus)
levels_error_iff n i (f ∷ g ∷ fs) h = ground (
  arith,
  text_eq_iff f hash,
  text_eq_iff f plus,
  levels_error_iff n (i + 1) (g ∷ fs) (omega arith),
)

-- A filter is accepted exactly when it is not empty and its levels are legal.
pub validate_filter_iff :
    (filter : Text) → (validate_filter filter ≡ none) ↔ ((filter ≢ []) × Legal (levels filter))
unfolding validate_filter
validate_filter_iff [] = ground arith
validate_filter_iff (c ∷ s) =
    ground (arith, levels_error_iff (length (levels (c ∷ s))) 0 (levels (c ∷ s)) (omega arith))
