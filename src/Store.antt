-- ===== src/Store.antt =====
-- The key-value stores of ha-lua/internal/store/kv.go, over the rows of a table.
pub mod Scopes
mod Tests
use ha_lua.Base.{
  Bool, true, false, not, ◌&&◌, List, [], ◌∷◌, Option, none, some, Text, text_eq, keep,
  if◌then◌else◌, Result, ok, err, Map, insert,
}

-- A row of `script_kv`; those of `global_kv` all have the empty scope. The pair of scope and key is unique.
pub record Row : Type 0 where
  pub scope : Text
  pub key : Text
  pub value : Text

pub data Error : Type 0 where
  read_failed write_failed marshal_failed decode_failed : Error

abbrev pub is_at : Text → Text → Row → Bool
is_at scope key r = text_eq r.scope scope && text_eq r.key key

-- `SELECT value … WHERE script_id = ? AND key = ?`
unfoldable pub select : Text → Text → List Row → Option Text
select scope key [] = none
select scope key (r ∷ rows) = if is_at scope key r then some r.value else select scope key rows

-- `INSERT … ON CONFLICT DO UPDATE SET value=excluded.value`
unfoldable pub upsert : Text → Text → Text → List Row → List Row
upsert scope key value [] = record { scope = scope; key = key; value = value } ∷ []
upsert scope key value (r ∷ rows) =
    let rest = upsert scope key value rows in
    if is_at scope key r then record r { value = value } ∷ rows else r ∷ rest

-- `DELETE … WHERE script_id = ? AND key = ?`
unfoldable pub remove : Text → Text → List Row → List Row
remove scope key rows = keep (λ r. not (is_at scope key r)) rows

-- Values other than nil are of type `V`, nil is `none`. `encode` is json.Marshal, `decode` is `decodeValue`.
module _ {V : Type 0} (encode : V → Option Text) (decode : Text → Option (Option V)) where
  unfoldable pub decoded : Option Text → Result Error (Option V)
  decoded none = ok none
  decoded (some raw) = elim (decode raw) [ none ↦ err decode_failed | some v ↦ ok v ]

  -- `Get`
  unfoldable pub get : Bool → Text → Text → List Row → Result Error (Option V)
  get fails scope key rows = if fails then err read_failed else decoded (select scope key rows)

  -- `Delete`: the rows, and the error of a write that fails.
  unfoldable pub delete : Bool → Text → Text → List Row → List Row × Option Error
  delete fails scope key rows =
      if fails then (rows, some write_failed) else (remove scope key rows, none)

  -- `Set`: nil deletes the key.
  unfoldable pub set : Bool → Text → Text → Option V → List Row → List Row × Option Error
  set fails scope key none rows = delete fails scope key rows
  set fails scope key (some v) rows = elim (encode v) [
    | none ↦ (rows, some marshal_failed)
    | some encoded ↦
        if fails then (rows, some write_failed) else (upsert scope key encoded rows, none)
  ]

  -- The loop of `GetAll`: the first value that does not decode ends it.
  unfoldable pub collect : Text → List Row → Map (Option V) → Result Error (Map (Option V))
  collect scope [] result = ok result
  collect scope (r ∷ rows) result =
      if text_eq r.scope scope
      then elim (decode r.value) [
        | none ↦ err decode_failed
        | some v ↦ collect scope rows (insert r.key v result)
      ]
      else collect scope rows result

  unfoldable pub get_all : Bool → Text → List Row → Result Error (Map (Option V))
  get_all fails scope rows = if fails then err read_failed else collect scope rows []
