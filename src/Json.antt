-- ===== src/Json.antt =====
-- From Lua values to JSON: luaToAny, luaTableToAny and luaMarshal of ha-lua/internal/lua/json.go, and mqttPayload of
-- ha-lua/internal/lua/api_mqtt.go.
pub mod Depth
mod Tests
use ha_lua.Base.{
  ℕ, zero, suc, ◌+◌, ℤ, pos, negsuc, Bool, true, false, not, ◌&&◌, ◌||◌, leb, ltb, ◌==◌, ◌≡◌, ◌⊎◌,
  Option, none, some, Member, text_eq, List, [], ◌∷◌, length, Text, Map, insert, if◌then◌else◌,
  Result, ok, err,
}

-- A Lua value; a number is its bits, a table its reference, and functions, userdata and channels are `other`.
pub data Value : Type 0 where
  nil other : Value
  boolean : Bool → Value
  number : ℕ → Value
  string : Text → Value
  table : ℕ → Value

-- A key: a number that is a whole one, or any other value.
pub data Key : Type 0 where
  whole : ℤ → Key
  value : Value → Key

-- What the conversion reads of the tables of the virtual machine: the pairs in the order of ForEach, MaxN and
-- RawGetInt; and LVAsString.
pub record Tables : Type 0 where
  pub entries : ℕ → List (Key × Value)
  pub max_n : ℕ → ℕ
  pub get_int : ℕ → ℕ → Value
  pub key_text : Key → Text

-- RawGetInt reads what ForEach lists.
pub record IsTables (h : Tables) : Type 0 where
  pub listed : (t i : ℕ) (v : Value) → Member (whole (pos i), v) (h.entries t) → h.get_int t i ≡ v
  pub read : (t i : ℕ) → (h.get_int t i ≡ nil) ⊎ Member (whole (pos i), h.get_int t i) (h.entries t)

-- The Go values that JSON is made of.
mutual
  pub data Any : Type 0 where
    null : Any
    bool : Bool → Any
    float : ℕ → Any
    text : Text → Any
    array : Items → Any
    object : Members → Any

  pub data Items : Type 0 where
    no_items : Items
    item : Any → Items → Items

  pub data Members : Type 0 where
    no_members : Members
    member : Text → Any → Members → Members

pub data Error : Type 0 where
  too_deep unsupported marshal_failed : Error

-- `obj[key] = val`
unfoldable pub put : Text → Any → Members → Members
put k v no_members = member k v no_members
put k v (member j w rest) = if text_eq j k then member k v rest else member j w (put k v rest)

-- The test of one key, and of all.
unfoldable pub is_index : ℕ → Key → Bool
is_index n (whole (pos i)) = leb 1 i && leb i n
is_index n (whole (negsuc i)) = false
is_index n (value v) = false

unfoldable pub all_indices : ℕ → List (Key × Value) → Bool
all_indices n [] = true
all_indices n (e ∷ entries) = is_index n e.0 && all_indices n entries

-- The two shapes of the result.
abbrev pub as_array : Result Error Items → Result Error Any
as_array (err e) = err e
as_array (ok items) = ok (array items)

abbrev pub as_object : Result Error Members → Result Error Any
as_object (err e) = err e
as_object (ok found) = ok (object found)

abbrev pub max_table_depth : ℕ
max_table_depth = 100

module _ (h : Tables) where
  -- The loop over 1..maxN, `left` of them to go.
  unfoldable pub elements : (Value → Result Error Any) → ℕ → ℕ → ℕ → Result Error Items
  elements convert t i zero = ok no_items
  elements convert t i (suc left) =
      let rest = elements convert t (i + 1) left in
      elim (convert (h.get_int t i)) [
        | err e ↦ err e
        | ok a ↦ elim rest [ err e ↦ err e | ok items ↦ ok (item a items) ]
      ]

  -- The ForEach that fills the object; an error ends it.
  unfoldable pub members :
      (Value → Result Error Any) → List (Key × Value) → Members → Result Error Members
  members convert [] obj = ok obj
  members convert ((k, v) ∷ entries) obj = elim (convert v) [
    | err e ↦ err e
    | ok a ↦ members convert entries (put (h.key_text k) a obj)
  ]

  -- `luaTableToAny`
  unfoldable pub table_to_any : (Value → Result Error Any) → ℕ → Result Error Any
  table_to_any convert t =
      let n = h.max_n t in
      let entries = h.entries t in
      if ltb 0 n && (all_indices n entries && (length entries == n))
      then as_array (elements convert t 1 n)
      else as_object (members convert entries no_members)

  -- `luaToAnyDepth`, with the levels that are left below maxTableDepth
  unfoldable pub to_any : ℕ → Value → Result Error Any
  to_any left nil = ok null
  to_any left other = err unsupported
  to_any left (boolean b) = ok (bool b)
  to_any left (number n) = ok (float n)
  to_any left (string s) = ok (text s)
  to_any zero (table t) = err too_deep
  to_any (suc left) (table t) = table_to_any (to_any left) t

  -- `luaToAny`
  unfoldable pub lua_to_any : Value → Result Error Any
  lua_to_any v = to_any max_table_depth v

  -- `luaMarshal` with json.Marshal
  unfoldable pub lua_marshal : (Any → Option Text) → Value → Result Error Text
  lua_marshal marshal v = elim (lua_to_any v) [
    | err e ↦ err e
    | ok a ↦ elim (marshal a) [ none ↦ err marshal_failed | some s ↦ ok s ]
  ]

  -- `mqttPayload`
  unfoldable pub mqtt_payload : (Any → Option Text) → Value → Result Error Text
  mqtt_payload marshal (string s) = ok s
  mqtt_payload marshal v = lua_marshal marshal v
