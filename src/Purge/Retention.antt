-- ===== src/Purge/Retention.antt =====
-- The first matching rule decides how long a row is kept.
use ha_lua.Base.{
  ℕ, ◌+◌, ◌≡◌, refl, sym, ap, fun_ext, ◌∙◌, Bool, true, not, ◌&&◌, ◌||◌, List, [], ◌∷◌, ◌++◌, Text,
  text_lt, keep, if◌then◌else◌, ℤ, arith, Bool-cases, inl, inr,
}
use ha_lua.Purge.{Rule, Row, claimed, doomed, doomed_default, run_rules, run_once}

module _ (glob : Text → Text → Bool) (cutoff : ℤ → Text) where
  -- The days of the first rule that matches, or the default.
  unfoldable pub window : List Rule → ℤ → Row → ℤ
  window [] days r = days
  window (rule ∷ rules) days r =
      if glob rule.pattern r.entity_id then rule.days else window rules days r

  -- The row is inside its window.
  abbrev pub fresh : List Rule → ℤ → Row → Bool
  fresh rules days r = not (text_lt r.changed_at (cutoff (window rules days r)))

  -- What is left for the rules from some point on: rows that an earlier rule claims stay.
  abbrev stays : List Rule → List Rule → ℤ → Row → Bool
  stays earlier rules days r = claimed glob cutoff earlier r || fresh rules days r

  keep-keep :
      (p q s : Row → Bool) (rows : List Row)
      → ((r : Row) → (p r && q r) ≡ s r)
      → keep q (keep p rows) ≡ keep s rows
  keep-keep p q s [] h = refl
  keep-keep p q s (r ∷ rows) h = ground (arith, h r, keep-keep p q s rows h)

  claimed-append :
      (xs : List Rule) (rule : Rule) (r : Row)
      → claimed glob cutoff (xs ++ rule ∷ []) r
        ≡ (claimed glob cutoff xs r || glob rule.pattern r.entity_id)
  unfolding claimed
  claimed-append [] rule r = ground arith
  claimed-append (x ∷ xs) rule r = ground (arith, claimed-append xs rule r)

  default-stays :
      (earlier : List Rule) (days : ℤ) (r : Row)
      → not (doomed_default glob cutoff earlier days r) ≡ stays earlier [] days r
  unfolding doomed_default window
  default-stays earlier days r = ground arith

  rule-stays :
      (earlier : List Rule) (rule : Rule) (rules : List Rule) (days : ℤ) (r : Row)
      → (not (doomed glob cutoff earlier rule r) && stays (earlier ++ rule ∷ []) rules days r)
        ≡ stays earlier (rule ∷ rules) days r
  unfolding doomed window
  rule-stays earlier rule rules days r = ground (arith, claimed-append earlier rule r)

  -- The rows that a run leaves, as a part of those that it found.
  run_rules-eq-keep :
      (fails : ℕ → Bool) (i : ℕ) (earlier rules : List Rule) (days : ℤ) (rows left : List Row)
      → run_rules glob cutoff fails i earlier rules days rows ≡ (left, true)
      → left ≡ keep (stays earlier rules days) rows
  unfolding run_rules
  run_rules-eq-keep fails i earlier [] days rows left e = elim (Bool-cases (fails i)) [
    | inl bad ↦ absurd (ground arith)
    | inr good ↦
        ground arith ∙ ap (λ (p : Row → Bool). keep p rows) (fun_ext (default-stays earlier days))
  ]
  run_rules-eq-keep fails i earlier (rule ∷ rules) days rows left e = elim (Bool-cases (fails i)) [
    | inl bad ↦ absurd (ground arith)
    | inr good ↦
        run_rules-eq-keep fails (i + 1) (earlier ++ rule ∷ []) rules days
          (keep (λ r. not (doomed glob cutoff earlier rule r)) rows) left (ground arith)
        ∙ keep-keep _ (stays (earlier ++ rule ∷ []) rules days) (stays earlier (rule ∷ rules) days)
            rows (rule-stays earlier rule rules days)
  ]

  run_rules-keep :
      (fails : ℕ → Bool) (i : ℕ) (earlier rules : List Rule) (days : ℤ) (rows : List Row)
      → keep (stays earlier rules days) (run_rules glob cutoff fails i earlier rules days rows).0
        ≡ keep (stays earlier rules days) rows
  unfolding run_rules
  run_rules-keep fails i earlier [] days rows = elim (Bool-cases (fails i)) [
    | inl bad ↦ rw bad
    | inr good ↦ rw good (
        keep-keep _ (stays earlier [] days) (stays earlier [] days) rows
          (λ r. ground (arith, default-stays earlier days r)))
  ]
  run_rules-keep fails i earlier (rule ∷ rules) days rows = elim (Bool-cases (fails i)) [
    | inl bad ↦ rw bad
    | inr good ↦ rw good (
        sym (
          keep-keep later whole whole result
            (λ r. ground (arith, rule-stays earlier rule rules days r)))
        ∙ ap (keep whole)
            (run_rules-keep fails (i + 1) (earlier ++ rule ∷ []) rules days (keep spared rows))
        ∙ keep-keep later whole whole (keep spared rows)
            (λ r. ground (arith, rule-stays earlier rule rules days r))
        ∙ keep-keep spared whole whole rows
            (λ r. ground (arith, rule-stays earlier rule rules days r)))
  ]
    where
      whole : Row → Bool
      whole = stays earlier (rule ∷ rules) days

      later : Row → Bool
      later = stays (earlier ++ rule ∷ []) rules days

      spared : Row → Bool
      spared r = not (doomed glob cutoff earlier rule r)

      result : List Row
      result =
          (run_rules glob cutoff fails (i + 1) (earlier ++ rule ∷ []) rules days
            (keep spared rows)).0

  -- When every statement of a run succeeds, it leaves exactly the rows that are inside the window of
  -- the first rule whose pattern matches their entity, or the default window where none does, in
  -- their order.
  pub run_once-eq-keep :
      (fails : ℕ → Bool) (rules : List Rule) (days : ℤ) (rows left : List Row)
      → run_once glob cutoff fails rules days rows ≡ (left, true)
      → left ≡ keep (fresh rules days) rows
  unfolding run_once claimed
  run_once-eq-keep fails rules days rows left e =
      run_rules-eq-keep fails 0 [] rules days rows left e

  -- Whichever statement of a run fails, no row inside the window of its first matching rule is lost.
  pub run_once-keep :
      (fails : ℕ → Bool) (rules : List Rule) (days : ℤ) (rows : List Row)
      → keep (fresh rules days) (run_once glob cutoff fails rules days rows).0
        ≡ keep (fresh rules days) rows
  unfolding run_once claimed
  run_once-keep fails rules days rows = run_rules-keep fails 0 [] rules days rows
