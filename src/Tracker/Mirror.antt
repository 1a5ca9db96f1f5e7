-- ===== src/Tracker/Mirror.antt =====
-- The memory mirror: `Seed`, `HandleStateChanged` and the reads of `Tracker.mem`.
pub mod Seeding
pub mod Coherence
mod Tests
use ha_lua.Base.{
  ℕ, Bool, true, false, not, ◌&&◌, List, [], ◌∷◌, ◌++◌, map, Option, none, some, Text, text_eq,
  is_empty, codes, Map, lookup, insert, delete, if◌then◌else◌, ltb, Result, ok, err,
}

-- `ha.Context`
pub record Context : Type 0 where
  pub id : Text
  pub parent_id : Text
  pub user_id : Text

-- `ha.StateData`; the attributes are the JSON text.
pub record StateData : Type 0 where
  pub entity_id : Text
  pub state : Text
  pub attributes : Text
  pub last_changed : Text
  pub last_updated : Text
  pub context : Context

-- A nil `NewState` is `none`.
pub record StateChanged : Type 0 where
  pub entity_id : Text
  pub new_state : Option StateData

pub data Error : Type 0 where
  decode_failed baseline_failed : Error

-- `attrStr`
pub attr_str : Text → Text
attr_str v = if is_empty v then codes "{}" else v

abbrev pub normalised : StateData → StateData
normalised s = record s { attributes = attr_str s.attributes }

abbrev pub Mem : Type 0
Mem = Map StateData

-- `GetState`
pub get_state : Text → Mem → Option StateData
get_state id mem = lookup id mem

-- `HandleStateChanged`: the mirror, and the row that goes to the writer.
pub handle_state_changed :
    (Text → Option StateChanged) → Text → Mem → Mem × Result Error (List StateData)
handle_state_changed decode raw mem = elim (decode raw) [
  | none ↦ (mem, err decode_failed)
  | some change ↦ elim change.new_state [
    | none ↦ (delete change.entity_id mem, ok [])
    | some s ↦ (insert s.entity_id (normalised s) mem, ok (normalised s ∷ []))
  ]
]

-- The state and the attributes of a row, which `Seed` compares.
pub record Known : Type 0 where
  pub state : Text
  pub attrs : Text

-- `historyBaseline`: the newest row of an entity, in the order of the row ids.
pub history_baseline : Text → List StateData → Option Known
history_baseline id [] = none
history_baseline id (r ∷ rows) =
    let later = history_baseline id rows in
    elim later [
      | some k ↦ some k
      | none ↦
          if text_eq r.entity_id id
          then some (record { state = r.state; attrs = r.attributes })
          else none
    ]

-- Only a cold start reads the history.
pub seed_baseline : Mem → List StateData → Text → Option Known
seed_baseline [] history id = history_baseline id history
seed_baseline (e ∷ mem) history id = none

abbrev pub is_cold : Mem → Bool
is_cold [] = true
is_cold (e ∷ mem) = false

module _ (parse : Text → Option ℕ) where
  -- `newerThan`, over the parser of RFC 3339 stamps
  pub newer_than : Text → Text → Bool
  newer_than a b = elim (parse a) [
    | none ↦ false
    | some at ↦ elim (parse b) [ none ↦ false | some bt ↦ ltb bt at ]
  ]

  -- The entry that one state of the batch leaves in the mirror.
  pub merged : Option StateData → StateData → StateData
  merged none s = s
  merged (some live) s = if newer_than live.last_updated s.last_updated then live else s

  -- Whether that state is appended to the history.
  pub appended : Option StateData → Option Known → StateData → Bool
  appended (some live) base s =
      if newer_than live.last_updated s.last_updated
      then false
      else not (text_eq live.state s.state && text_eq live.attributes s.attributes)
  appended none none s = true
  appended none (some k) s = not (text_eq k.state s.state && text_eq k.attrs s.attributes)

  -- The loop of `Seed` over the normalised batch, with the new mirror so far.
  pub merge : Mem → (Text → Option Known) → List StateData → Mem → Mem
  merge old base [] mem = mem
  merge old base (s ∷ batch) mem =
      merge old base batch (insert s.entity_id (merged (lookup s.entity_id old) s) mem)

  -- The rows that the loop appends.
  pub appends : Mem → (Text → Option Known) → List StateData → List StateData
  appends old base [] = []
  appends old base (s ∷ batch) =
      let rest = appends old base batch in
      if appended (lookup s.entity_id old) (base s.entity_id) s then s ∷ rest else rest

  -- `Seed` against the committed history, which a cold start may fail to read: the new mirror, and the
  -- rows for the write-behind queue.
  pub seed : Bool → List StateData → List StateData → Mem → Result Error (Mem × List StateData)
  seed readable history [] mem = ok (mem, [])
  seed readable history (s ∷ states) mem =
      if is_cold mem && not readable
      then err baseline_failed
      else (let batch = map normalised (s ∷ states) in
          ok (
            merge mem (seed_baseline mem history) batch [],
            appends mem (seed_baseline mem history) batch,
          ))
