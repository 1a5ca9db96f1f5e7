-- ===== src/Tracker/Queries.antt =====
-- Reads of the mirror and the history: GetEntities, GetEntityIDs, GetHistory, WhoChanged and Stats of
-- ha-lua/internal/state/tracker.go.
pub mod Listing
pub mod Causes
mod Tests
use ha_lua.Base.{
  ℕ, Bool, true, false, not, ◌&&◌, ◌||◌, List, [], ◌∷◌, ◌++◌, map, Option, none, some, Text,
  text_eq, text_lt, is_empty, has_prefix, codes, keep, take, length, lookup, sort_by, if◌then◌else◌,
  Result, ok, err,
}
use ha_lua.Tracker.Mirror.{Context, StateData, Mem}
use ha_lua.Tracker.History.{newest_by_time, sort_by_time}

-- The errors: a malformed pattern and a query that fails.
pub data Error : Type 0 where
  bad_pattern query_failed : Error

-- The loop of `GetEntities`; `glob pattern id` is filepath.Match, none for its error.
module _ (glob : Text → Text → Option Bool) where
  unfoldable pub matching : Text → Mem → Result Error (List StateData)
  matching pattern [] = ok []
  matching pattern ((id, s) ∷ mem) =
      let rest = matching pattern mem in
      elim (glob pattern id) [
        | none ↦ err bad_pattern
        | some hit ↦ elim rest [ err e ↦ err e | ok found ↦ ok (if hit then s ∷ found else found) ]
      ]

  abbrev pub by_id : StateData → StateData → Bool
  by_id r s = text_lt r.entity_id s.entity_id

  -- `GetEntities`
  unfoldable pub get_entities : Text → Mem → Result Error (List StateData)
  get_entities pattern mem = elim (matching pattern mem) [
    | err e ↦ err e
    | ok found ↦ ok (sort_by by_id found)
  ]

  -- `GetEntityIDs`
  unfoldable pub get_entity_ids : Text → Mem → Result Error (List Text)
  get_entity_ids pattern mem = elim (get_entities pattern mem) [
    | err e ↦ err e
    | ok found ↦ ok (map StateData.entity_id found)
  ]

-- `GetHistory`: the rows since `bound`, which is `since` in sinceLayout; a row has no stamp of its last update.
unfoldable pub get_history : Bool → Text → Text → ℕ → List StateData → Result Error (List StateData)
get_history query_fails id bound limit history =
    if query_fails
    then err query_failed
    else ok (
        map (λ (r : StateData). record r { last_updated = r.last_changed })
          (take limit (
            sort_by_time
              (keep (λ r. text_eq r.entity_id id && not (text_lt r.last_changed bound)) history))))

pub record Attribution : Type 0 where
  pub entity_id : Text
  pub state : Text
  pub changed_at : Text
  pub context_id : Text
  pub user_id : Text
  pub caused_by : Text

-- The first row, in the order of the row ids, that passes a test.
unfoldable pub first_of : (StateData → Bool) → List StateData → Option StateData
first_of p [] = none
first_of p (r ∷ rows) = let later = first_of p rows in if p r then some r else later

-- The CASE of the query: what GLOB takes as 'automation.*', 'script.*' or 'scene.*'.
unfoldable pub is_agent : Text → Bool
is_agent id =
    has_prefix id (codes "automation.")
    || (has_prefix id (codes "script.") || has_prefix id (codes "scene."))

-- The WHERE of `causeOfContext`.
abbrev pub shares : Text → Text → StateData → Bool
shares context exclude r = text_eq r.context.id context && not (text_eq r.entity_id exclude)

-- `causeOfContext`: the entity and the user of the row, both empty without one. The order of the query puts the first agent
-- before the first row of all.
unfoldable pub named : Option StateData → Option StateData → Text × Text
named (some r) first = (r.entity_id, r.context.user_id)
named none (some r) = (r.entity_id, r.context.user_id)
named none none = ([], [])

unfoldable pub cause_of_context : Text → Text → List StateData → Text × Text
cause_of_context context exclude history =
    named (first_of (λ r. shares context exclude r && is_agent r.entity_id) history)
      (first_of (shares context exclude) history)

-- The part of `WhoChanged` after the change is known.
unfoldable pub attribute : Bool → Text → StateData → List StateData → Result Error Attribution
attribute cause_fails id change history =
    let plain : Attribution = record {
      entity_id = id;
      state = change.state;
      changed_at = change.last_changed;
      context_id = change.context.id;
      user_id = change.context.user_id;
      caused_by = [];
    } in
    let (cause, user) =
      cause_of_context
        (if is_empty change.context.parent_id then change.context.id else change.context.parent_id)
        id history in
    if is_empty change.context.id
    then ok plain
    else (if cause_fails
        then err query_failed
        else ok (record plain {
          caused_by = cause;
          user_id = if is_empty change.context.user_id then user else change.context.user_id;
        }))

-- The row that `WhoChanged` asks for; `bound` is `at` in sinceLayout.
unfoldable pub change_at : Text → Text → List StateData → Option StateData
change_at id bound history =
    newest_by_time
      (keep (λ r. text_eq r.entity_id id && not (text_lt bound r.last_changed)) history)

-- `WhoChanged`, with a bound for an `at` that is not zero
unfoldable pub explained :
    Bool → Text → Option StateData → List StateData → Result Error (Option Attribution)
explained cause_fails id none history = ok none
explained cause_fails id (some change) history = elim (attribute cause_fails id change history) [
  | err e ↦ err e
  | ok a ↦ ok (some a)
]

unfoldable pub who_changed :
    Bool → Bool → Text → Option Text → Mem → List StateData → Result Error (Option Attribution)
who_changed query_fails cause_fails id none mem history =
    explained cause_fails id (lookup id mem) history
who_changed query_fails cause_fails id (some bound) mem history =
    if query_fails
    then err query_failed
    else explained cause_fails id (change_at id bound history) history

-- `Stats`, with the queue's length and capacity
unfoldable pub stats : Mem → ℕ → ℕ → ℕ × ℕ × ℕ
stats mem queued capacity = (length mem, queued, capacity)
