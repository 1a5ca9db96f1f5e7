-- ===== src/Mqtt/Topic/Tests.antt =====
-- Tests of topic filters on literals, and the theorems at concrete texts.
use ha_lua.Base.{
  ◌≡◌, refl, ◌≢◌, ◌↔◌, ◌⊎◌, true, false, none, some, [], codes, text_eq, has_prefix, has_byte,
  split, glue,
}
use ha_lua.Mqtt.Topic.{
  levels, match, match_levels, wild_root, validate_filter, levels_error, level_error, hash_not_last,
  wildcard_in_level,
}
use ha_lua.Mqtt.Topic.Spec.{Covers, IsHidden, match_iff}
use ha_lua.Mqtt.Topic.Validity.{Legal, validate_filter_iff}

topic_code : Unit {0}
unfolding match match_levels wild_root validate_filter levels_error level_error text_eq has_prefix
    has_byte split glue
topic_code = tt

match_tests :
    (match (codes "a/+/c") (codes "a/b/c") ≡ true)
    × (match (codes "a/#") (codes "a") ≡ true)
    × (match (codes "#") (codes "$SYS/x") ≡ false)
    × (match (codes "a/+") (codes "a/b/c") ≡ false)
unfolding topic_code
match_tests = (refl, refl, refl, refl)

validate_filter_tests :
    (validate_filter (codes "a/+/#") ≡ none)
    × (validate_filter (codes "a/#/b") ≡ some hash_not_last)
    × (validate_filter (codes "a/b+") ≡ some wildcard_in_level)
unfolding topic_code
validate_filter_tests = (refl, refl, refl)

match_iff_example : (match (codes "a/#") (codes "a/b") ≡ true) ↔ (
    (codes "a/#" ≡ codes "a/b")
    ⊎ (Covers (levels (codes "a/#")) (levels (codes "a/b"))
        × ¬ IsHidden (codes "a/#") (codes "a/b")))
match_iff_example = match_iff (codes "a/#") (codes "a/b")

validate_filter_iff_example :
    (validate_filter (codes "a/+") ≡ none) ↔ ((codes "a/+" ≢ []) × Legal (levels (codes "a/+")))
validate_filter_iff_example = validate_filter_iff (codes "a/+")
