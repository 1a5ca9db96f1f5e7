-- ===== src/Tracker/Queries/Causes.antt =====
-- Whom `WhoChanged` names.
use ha_lua.Base.{
  ◌↔◌, Member, lookup, ℕ, ◌≡◌, refl, sym, ap, ap₂, ◌∙◌, Bool, true, false, not, ◌&&◌, List, [], ◌∷◌,
  ◌++◌, Option, none, some, Text, text_eq, text_eq_iff, text_lt, is_empty, keep, keep-append, Any,
  arith, Bool-cases, inl, inr, if◌then◌else◌, ok, err,
}
use ha_lua.Tracker.Mirror.{StateData, Mem}
use ha_lua.Tracker.History.{newest_by_time}
use ha_lua.Tracker.Queries.{
  query_failed, Attribution, first_of, is_agent, shares, named, cause_of_context, attribute,
  change_at, explained, who_changed,
}

first_of-insert :
    (p : StateData → Bool) (before after : List StateData) (r : StateData)
    → p r ≡ false
    → first_of p (before ++ r ∷ after) ≡ first_of p (before ++ after)
unfolding first_of
first_of-insert p [] after r miss = ground (arith, miss)
first_of-insert p (s ∷ before) after r miss = ground (arith, first_of-insert p before after r miss)

own-cause :
    (context id : Text) (before after : List StateData) (r : StateData)
    → r.entity_id ≡ id
    → cause_of_context context id (before ++ r ∷ after)
      ≡ cause_of_context context id (before ++ after)
unfolding cause_of_context
own-cause context id before after r own =
    let same : text_eq r.entity_id id ≡ true = (text_eq_iff r.entity_id id).1 own in
    ap₂ named
      (first_of-insert (λ s. shares context id s && is_agent s.entity_id) before after r
        (ground (arith, same)))
      (first_of-insert (shares context id) before after r (ground (arith, same)))

-- The context that `WhoChanged` looks up.
abbrev pub looked_up : StateData → Text
looked_up change =
    if is_empty change.context.parent_id then change.context.id else change.context.parent_id

own-attribute :
    (fails : Bool) (id : Text) (change : StateData) (before after : List StateData) (r : StateData)
    → r.entity_id ≡ id
    → attribute fails id change (before ++ r ∷ after) ≡ attribute fails id change (before ++ after)
unfolding attribute
own-attribute fails id change before after r own =
    rw (attribute, own-cause (looked_up change) id before after r own) refl

own-explained :
    (fails : Bool) (id : Text) (change : Option StateData) (before after : List StateData)
    (r : StateData)
    → r.entity_id ≡ id
    → explained fails id change (before ++ r ∷ after) ≡ explained fails id change (before ++ after)
unfolding explained
own-explained fails id none before after r own = refl
own-explained fails id (some change) before after r own =
    rw (explained, own-attribute fails id change before after r own) refl

later-change :
    (id bound : Text) (before after : List StateData) (r : StateData)
    → text_lt bound r.last_changed ≡ true
    → change_at id bound (before ++ r ∷ after) ≡ change_at id bound (before ++ after)
unfolding change_at
later-change id bound before after r late =
    let seen : StateData → Bool =
      λ s. text_eq s.entity_id id && not (text_lt bound s.last_changed) in
    ap newest_by_time (
      keep-append seen before (r ∷ after)
      ∙ ap (λ rows. keep seen before ++ rows) (ground (arith, late))
      ∙ sym (keep-append seen before after))

text_lt-prefix : (s : Text) (c : ℕ) (rest : Text) → text_lt s (s ++ c ∷ rest) ≡ true
unfolding text_lt
text_lt-prefix [] c rest = refl
text_lt-prefix (d ∷ s) c rest = ground (arith, text_lt-prefix s c rest)

-- A change of the entity whose stamp is the text of the bound with more after it plays no part in the answer, wherever its row stands in the history. The
-- bound has whole seconds and no zone, so that is each change within its second: one before the instant that is asked about, and one exactly at it.
pub who_changed-later :
    (query_fails cause_fails : Bool) (id bound : Text) (mem : Mem) (before after : List StateData)
    (r : StateData) (c : ℕ) (rest : Text)
    → r.entity_id ≡ id
    → r.last_changed ≡ bound ++ c ∷ rest
    → who_changed query_fails cause_fails id (some bound) mem (before ++ r ∷ after)
      ≡ who_changed query_fails cause_fails id (some bound) mem (before ++ after)
unfolding who_changed
who_changed-later query_fails cause_fails id bound mem before after r c rest own e =
    ap (λ out. if query_fails then err query_failed else out)
      (ap (λ change. explained cause_fails id change (before ++ r ∷ after))
          (later-change id bound before after r (rw e (text_lt-prefix bound c rest)))
        ∙ own-explained cause_fails id (change_at id bound (before ++ after)) before after r own)

-- Another entity's row that shares the context, of an automation, a script or a scene.
abbrev pub IsAgentRow : Text → StateData → StateData → Type 0
IsAgentRow id change r =
    (r.context.id ≡ looked_up change)
    × (text_eq r.entity_id id ≡ false)
    × (is_agent r.entity_id ≡ true)

abbrev agent_row : Text → StateData → StateData → Bool
agent_row id change r = shares (looked_up change) id r && is_agent r.entity_id

agent_row_iff :
    (id : Text) (change r : StateData) → (agent_row id change r ≡ true) ↔ IsAgentRow id change r
agent_row_iff id change r =
    let same = text_eq_iff r.context.id (looked_up change) in
    (
      λ h. (same.0 (ground (arith, h)), ground (arith, h), ground (arith, h)),
      λ (shared, other, agent). ground (arith, same.1 shared, other, agent),
    )

Any-weaker :
    (P Q : StateData → Type 0)
    → ((r : StateData) → P r → Q r)
    → (rows : List StateData) → Any P rows
    → Any Q rows
Any-weaker P Q f [] h = absurd h
Any-weaker P Q f (r ∷ rows) (inl h) = inl (f r h)
Any-weaker P Q f (r ∷ rows) (inr h) = inr (Any-weaker P Q f rows h)

first_of_found :
    (p : StateData → Bool) (rows : List StateData)
    → Any (λ r. p r ≡ true) rows
    → (r : StateData) × Member r rows × (first_of p rows ≡ some r) × (p r ≡ true)
unfolding first_of
first_of_found p [] h = absurd h
first_of_found p (r ∷ rows) h = elim (Bool-cases (p r)) [
  | inl hit ↦ (r, inl refl, ground (arith, hit), hit)
  | inr miss ↦
      let (s, there, found, hit) = first_of_found p rows (ground (arith, miss, h)) in
      (s, inr there, ground (arith, miss, found), hit)
]

cause-Agent :
    (id : Text) (change : StateData) (history : List StateData)
    → Any (IsAgentRow id change) history
    → (r : StateData) × Member r history
      × IsAgentRow id change r
      × (cause_of_context (looked_up change) id history ≡ (r.entity_id, r.context.user_id))
unfolding cause_of_context named
cause-Agent id change history h =
    let (r, there, found, hit) = first_of_found (agent_row id change) history (
      Any-weaker (IsAgentRow id change) (λ s. agent_row id change s ≡ true)
        (λ s. (agent_row_iff id change s).1) history h) in
    (
      r,
      there,
      (agent_row_iff id change r).0 hit,
      ap (λ first. named first (first_of (shares (looked_up change) id) history)) found,
    )

explained-Agent :
    (cause_fails : Bool) (id : Text) (history : List StateData) (change : StateData)
    (a : Attribution)
    → is_empty change.context.id ≡ false
    → Any (IsAgentRow id change) history
    → explained cause_fails id (some change) history ≡ ok (some a)
    → (r : StateData) × Member r history
      × IsAgentRow id change r
      × (a.caused_by ≡ r.entity_id)
      × (a.user_id
          ≡ (if is_empty change.context.user_id then r.context.user_id else change.context.user_id))
unfolding explained attribute
explained-Agent cause_fails id history change a known h e =
    let (r, there, agent, cause) = cause-Agent id change history h in
    (r, there, agent, ground (arith, known, e, cause), ground (arith, known, e, cause))

-- The change that is asked about: the entity's row in the mirror, or the one that the query finds.
abbrev pub asked : Text → Option Text → Mem → List StateData → Option StateData
asked id none mem history = lookup id mem
asked id (some bound) mem history = change_at id bound history

-- When rows of automations, scripts or scenes other than the entity share the context of a change, its parent context where it has one, the answer that
-- WhoChanged gives for the change, in the mirror or in the history, names the entity of one of them, and its user unless the change has a user.
pub who_changed-is_agent :
    (query_fails cause_fails : Bool) (id : Text) (bound : Option Text) (mem : Mem)
    (history : List StateData) (change : StateData) (a : Attribution)
    → asked id bound mem history ≡ some change
    → is_empty change.context.id ≡ false
    → Any (IsAgentRow id change) history
    → who_changed query_fails cause_fails id bound mem history ≡ ok (some a)
    → (r : StateData) × Member r history
      × IsAgentRow id change r
      × (a.caused_by ≡ r.entity_id)
      × (a.user_id
          ≡ (if is_empty change.context.user_id then r.context.user_id else change.context.user_id))
unfolding who_changed
who_changed-is_agent query_fails cause_fails id none mem history change a there known h e =
    explained-Agent cause_fails id history change a known h
      (sym (ap (λ x. explained cause_fails id x history) there) ∙ e)
who_changed-is_agent query_fails cause_fails id (some bound) mem history change a there known h e =
    elim (Bool-cases query_fails) [
      | inl failed ↦ absurd (ground (arith, failed, e))
      | inr fine ↦
          explained-Agent cause_fails id history change a known h
            (sym (ap (λ x. explained cause_fails id x history) there) ∙ ground (arith, fine, e))
    ]
