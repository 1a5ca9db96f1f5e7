-- ===== src/Purge/Tests.antt =====
-- Tests of the retention rules, and the theorems at concrete rows.
use ha_lua.Base.{
  ◌-◌, ℕ, ◌≡◌, refl, Bool, false, List, [], ◌∷◌, Text, codes, text_eq, text_lt, keep, ℤ, pos,
  negsuc,
}
use ha_lua.Purge.{Rule, Row, well_formed, claimed, doomed, doomed_default, run_rules, run_once}
use ha_lua.Purge.Retention.{window, fresh, run_once-eq-keep}

purge_code : Unit {0}
unfolding well_formed claimed doomed doomed_default run_rules run_once window text_eq text_lt
purge_code = tt

abbrev glob : Text → Text → Bool
glob pattern id = text_eq pattern id

-- On day 20 a cutoff is the day, as one byte.
abbrev cutoff : ℤ → Text
cutoff (ℤ.pos d) = (20 - d) ∷ []
cutoff (ℤ.negsuc d) = []

abbrev rules : List Rule
rules =
    record { pattern = codes "a"; days = pos 9 } ∷ record { pattern = codes "a"; days = pos 1 } ∷ []

abbrev row : Text → ℕ → Row
row id day = record { entity_id = id; changed_at = day ∷ [] }

abbrev rows : List Row
rows = row (codes "a") 12 ∷ row (codes "a") 10 ∷ row (codes "b") 12 ∷ row (codes "b") 19 ∷ []

well_formed_test :
    well_formed (
      record { pattern = []; days = pos 3 }
      ∷ record { pattern = codes "x"; days = negsuc 0 }
      ∷ rules)
    ≡ rules
unfolding purge_code
well_formed_test = refl

run_once-eq-keep_example :
    row (codes "a") 12 ∷ row (codes "b") 19 ∷ [] ≡ keep (fresh glob cutoff rules (pos 2)) rows
unfolding purge_code
run_once-eq-keep_example =
    run_once-eq-keep glob cutoff (λ i. false) rules (pos 2) rows
      (row (codes "a") 12 ∷ row (codes "b") 19 ∷ []) refl
