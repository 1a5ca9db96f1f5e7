-- ===== src/Names/Refresh.antt =====
-- When a registry is fetched again: `Changed`, `ChangedAll` and `Run`, with the registries of the server beside the
-- mirror.
pub mod Fresh
use ha_lua.Base.{
  ℕ, ◌+◌, ◌≡◌, ◌≤◌, ◌<◌, refl, Bool, true, false, not, ◌&&◌, ◌||◌, List, [], ◌∷◌, if◌then◌else◌,
  arith, ltb, ◌==◌, Bool-cases, inl, inr,
}

-- `nameSourceCount`
abbrev pub source_count : ℕ
source_count = 3

-- Where `Run` is: waiting; in its loop, before the source `i`; with the flag of `i` taken and the query not yet answered; or
-- with the answer not yet applied.
pub data Place (R : Type 0) : Type 0 where
  waiting : Place R
  before asking : ℕ → Place R
  answered : ℕ → R → Place R

-- `stale`, `signal` and whether `settled` is set, the place of `Run`, and by source the mirror and the server's registry.
pub record Refresh (R : Type 0) : Type 0 where
  pub stale : ℕ → Bool
  pub signal : Bool
  pub settled : Bool
  pub place : Place R
  pub mirror : ℕ → R
  pub server : ℕ → R

-- `edit` is a change at the server whose event reaches `Changed`; the rest are the steps of `Run` and of the query
-- that it waits for.
pub data Act (R : Type 0) : Type 0 where
  edit : ℕ → R → Act R
  reconnect wake settle next answer apply fail : Act R

module _ {R : Type 0} where
  -- `Changed` of the source's event.
  unfoldable pub changed : ℕ → Refresh R → Refresh R
  changed i s =
      if ltb i source_count
      then record s { stale = λ j. if i == j then true else s.stale j; signal = true }
      else s

  -- `ChangedAll`
  unfoldable pub changed_all : Refresh R → Refresh R
  changed_all s = changed 2 (changed 1 (changed 0 s))

  -- The loop of `Run` at the source `i`: its end, a source that is not stale, or `Swap(false)` and the query.
  unfoldable pub visit : ℕ → Refresh R → Refresh R
  visit i s =
      if not (ltb i source_count)
      then record s { place = waiting }
      else if s.stale i
      then record s { stale = λ j. if i == j then false else s.stale j; place = asking i }
      else record s { place = before (i + 1) }

  unfoldable pub settle_at : Place R → Refresh R → Refresh R
  settle_at waiting s = if s.settled then record s { settled = false; place = before 0 } else s
  settle_at (before i) s = s
  settle_at (asking i) s = s
  settle_at (answered i r) s = s

  unfoldable pub next_at : Place R → Refresh R → Refresh R
  next_at (before i) s = visit i s
  next_at waiting s = s
  next_at (asking i) s = s
  next_at (answered i r) s = s

  unfoldable pub answer_at : Place R → Refresh R → Refresh R
  answer_at (asking i) s = record s { place = answered i (s.server i) }
  answer_at waiting s = s
  answer_at (before i) s = s
  answer_at (answered i r) s = s

  unfoldable pub apply_at : Place R → Refresh R → Refresh R
  apply_at (answered i r) s = record s {
    mirror = λ j. if i == j then r else s.mirror j;
    place = before (i + 1);
  }
  apply_at waiting s = s
  apply_at (before i) s = s
  apply_at (asking i) s = s

  -- A query that fails, or a reply that does not decode, is logged and left.
  unfoldable pub fail_at : Place R → Refresh R → Refresh R
  fail_at (asking i) s = record s { place = before (i + 1) }
  fail_at (answered i r) s = record s { place = before (i + 1) }
  fail_at waiting s = s
  fail_at (before i) s = s

  -- `case <-n.signal`, which `Run` takes only while it waits.
  unfoldable pub wake_at : Place R → Refresh R → Refresh R
  wake_at waiting s = if s.signal then record s { signal = false; settled = true } else s
  wake_at (before i) s = s
  wake_at (asking i) s = s
  wake_at (answered i r) s = s

  unfoldable pub act : Act R → Refresh R → Refresh R
  act (edit i r) s =
      changed i
        (record s { server = λ j. if (i == j) && ltb i source_count then r else s.server j })
  act reconnect s = changed_all s
  act wake s = wake_at s.place s
  act settle s = settle_at s.place s
  act next s = next_at s.place s
  act answer s = answer_at s.place s
  act apply s = apply_at s.place s
  act fail s = fail_at s.place s

  unfoldable pub act_all : List (Act R) → Refresh R → Refresh R
  act_all [] s = s
  act_all (a ∷ acts) s = act_all acts (act a s)
