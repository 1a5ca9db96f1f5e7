-- ===== src/Mqtt/Topic.antt =====
-- Topic filters and topics: ha-lua/internal/mqtt/topic.go.
pub mod Spec
pub mod Validity
mod Tests
use ha_lua.Base.{
  ℕ, suc, ◌+◌, ◌-◌, Bool, true, false, not, ◌&&◌, ◌||◌, List, [], ◌∷◌, Option, none, some, Text,
  text_eq, has_prefix, has_byte, is_empty, split, length, if◌then◌else◌, ◌==◌,
}

-- The three errors of `ValidateFilter`; nil is `none`.
pub data FilterError : Type 0 where
  empty_filter hash_not_last wildcard_in_level : FilterError

abbrev pub hash : Text
hash = b'#' ∷ []

abbrev pub plus : Text
plus = b'+' ∷ []

-- `strings.Split(s, "/")`
abbrev pub levels : Text → List Text
levels = split b'/'

-- `strings.ContainsAny(level, "#+")`
abbrev pub has_wildcard : Text → Bool
has_wildcard level = has_byte b'#' level || has_byte b'+' level

-- The switch of the loop: the error of level `i` of `n`.
unfoldable pub level_error : ℕ → ℕ → Text → Option FilterError
level_error i n level =
    if text_eq level hash
    then (if not (i == n - 1) then some hash_not_last else none)
    else if text_eq level plus
    then none
    else if has_wildcard level
    then some wildcard_in_level
    else none

-- The loop over the levels, from index `i`.
unfoldable pub levels_error : ℕ → ℕ → List Text → Option FilterError
levels_error n i [] = none
levels_error n i (level ∷ rest) = elim (level_error i n level) [
  | some e ↦ some e
  | none ↦ levels_error n (i + 1) rest
]

unfoldable pub validate_filter : Text → Option FilterError
validate_filter filter =
    if is_empty filter
    then some empty_filter
    else levels_error (length (levels filter)) 0 (levels filter)

-- The loop of `Match`: the second list holds `topicLevels[i:]`, so that it is empty when
-- `i >= len(topicLevels)`, and at the end when the lengths agree.
pub match_levels : List Text → List Text → Bool
match_levels [] [] = true
match_levels [] (t ∷ ts) = false
match_levels (level ∷ fs) [] = if text_eq level hash then true else false
match_levels (level ∷ fs) (t ∷ ts) =
    if text_eq level hash
    then true
    else if not (text_eq level plus) && not (text_eq level t)
    then false
    else match_levels fs ts

-- `filterLevels[0] == "#" || filterLevels[0] == "+"`; `strings.Split` never returns no field.
pub wild_root : List Text → Bool
wild_root [] = false
wild_root (level ∷ fs) = text_eq level hash || text_eq level plus

pub match : Text → Text → Bool
match filter topic =
    if text_eq filter topic
    then true
    else if has_prefix topic (b'$' ∷ []) && wild_root (levels filter)
    then false
    else match_levels (levels filter) (levels topic)
