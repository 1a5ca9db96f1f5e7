-- ===== src/Purge.antt =====
-- Retention of the history: ha-lua/internal/purge/purge.go.
pub mod Retention
mod Tests
use ha_lua.Base.{
  ℕ, zero, suc, ◌+◌, Bool, true, false, not, ◌&&◌, ◌||◌, List, [], ◌∷◌, ◌++◌, Text, text_lt,
  is_empty, keep, if◌then◌else◌, ℤ, pos, negsuc, leb_ℤ,
}

pub record Rule : Type 0 where
  pub pattern : Text
  pub days : ℤ

-- The columns of state_history that the deletes read.
pub record Row : Type 0 where
  pub entity_id : Text
  pub changed_at : Text

-- The loop of `New`: a rule with no pattern or no positive number of days is dropped.
pub well_formed : List Rule → List Rule
well_formed [] = []
well_formed (r ∷ rules) =
    let kept = well_formed rules in
    if is_empty r.pattern || leb_ℤ r.days (pos 0) then kept else r ∷ kept

-- `glob pattern id` is SQLite's `id GLOB pattern`, and `cutoff d` the formatted instant `d` days
-- before now.
module _ (glob : Text → Text → Bool) (cutoff : ℤ → Text) where
  pub claimed : List Rule → Row → Bool
  claimed [] r = false
  claimed (rule ∷ rules) r = glob rule.pattern r.entity_id || claimed rules r

  -- The rows that the DELETE of one rule removes, after the rules before it.
  pub doomed : List Rule → Rule → Row → Bool
  doomed earlier rule r =
      glob rule.pattern r.entity_id
      && text_lt r.changed_at (cutoff rule.days)
      && not (claimed earlier r)

  -- The rows that the last DELETE removes.
  pub doomed_default : List Rule → ℤ → Row → Bool
  doomed_default rules days r = text_lt r.changed_at (cutoff days) && not (claimed rules r)

  -- `RunOnce` up to the compaction: `fails` tells which statement fails, which ends the run and
  -- leaves the rows as the statements before it left them. The result is the rows and whether
  -- every statement succeeded.
  pub run_rules : (ℕ → Bool) → ℕ → List Rule → List Rule → ℤ → List Row → List Row × Bool
  run_rules fails i earlier [] days rows =
      if fails i
      then (rows, false)
      else (keep (λ r. not (doomed_default earlier days r)) rows, true)
  run_rules fails i earlier (rule ∷ rules) days rows =
      let rest =
        run_rules fails (i + 1) (earlier ++ rule ∷ []) rules days
          (keep (λ r. not (doomed earlier rule r)) rows) in
      if fails i then (rows, false) else rest

  pub run_once : (ℕ → Bool) → List Rule → ℤ → List Row → List Row × Bool
  run_once fails rules days rows = run_rules fails 0 [] rules days rows
