-- ===== src/Logbuf/Handler.antt =====
-- `Handler`, which flattens the attributes of a record for the buffer and forwards the record.
pub mod Groups
mod Tests
use ha_lua.Base.{
  ℕ, Bool, true, false, List, [], ◌∷◌, ◌++◌, Text, is_empty, Map, insert, if◌then◌else◌,
}
use ha_lua.Logbuf.Ring.{Record, Buffer, append}

mutual
  -- What `Resolve` gives: a group, or a value with its text.
  pub data Value : Type 0 where
    plain : Text → Value
    group : Attrs → Value

  -- Attributes, each with its key and whether it equals the zero attribute.
  pub data Attrs : Type 0 where
    no_attrs : Attrs
    attr : Text → Bool → Value → Attrs → Attrs

unfoldable pub joined : Attrs → Attrs → Attrs
joined no_attrs ys = ys
joined (attr key zero v xs) ys = attr key zero v (joined xs ys)

unfoldable pub is_none : Attrs → Bool
is_none no_attrs = true
is_none (attr key zero v xs) = false

-- `joinKey`
unfoldable pub join_key : Text → Text → Text
join_key prefix key = if is_empty prefix then key else prefix ++ 46 ∷ key

-- `flatten`, and its loops over members
unfoldable mutual
  pub flatten : Map Text → Text → Text → Bool → Value → Map Text
  flatten out prefix key zero (plain s) = if zero then out else insert (join_key prefix key) s out
  flatten out prefix key zero (group members) =
      if is_empty key
      then flatten_all out prefix members
      else flatten_all out (join_key prefix key) members

  pub flatten_all : Map Text → Text → Attrs → Map Text
  flatten_all out prefix no_attrs = out
  flatten_all out prefix (attr key zero v rest) =
      flatten_all (flatten out prefix key zero v) prefix rest

-- A record of slog.
pub record LogRecord : Type 0 where
  pub time : ℕ
  pub level : Text
  pub message : Text
  pub attrs : Attrs

-- The handler that is wrapped: its own WithAttrs and WithGroup.
pub record Next (N : Type 0) : Type 0 where
  pub with_attrs : Attrs → N → N
  pub with_group : Text → N → N

-- `Handler`; the buffer is shared by all that derive from one handler, and passed along.
pub record Handler (N : Type 0) : Type 0 where
  pub next : N
  pub attrs : Attrs
  pub group : Text

module _ {N : Type 0} (ops : Next N) where
  -- `NewHandler`
  unfoldable pub new_handler : N → Handler N
  new_handler next = record { next = next; attrs = no_attrs; group = [] }

  -- `WithAttrs`
  unfoldable pub with_attrs : Attrs → Handler N → Handler N
  with_attrs attrs h =
      if is_none attrs
      then h
      else record h { attrs = joined h.attrs attrs; next = ops.with_attrs attrs h.next }

  -- `WithGroup`
  unfoldable pub with_group : Text → Handler N → Handler N
  with_group name h =
      if is_empty name
      then h
      else record h { group = join_key h.group name; next = ops.with_group name h.next }

  -- What `Handle` adds to the buffer; `append` sets the number.
  unfoldable pub entry : Handler N → LogRecord → Record
  entry h r = record {
    seq = 0;
    time = r.time;
    level = r.level;
    msg = r.message;
    attrs = flatten_all (flatten_all [] h.group h.attrs) h.group r.attrs;
  }

  -- `Handle`: the buffer, and what the wrapped handler gets.
  unfoldable pub handle : Handler N → LogRecord → Buffer → Buffer × (N × LogRecord)
  handle h r b = (append (entry h r) b, (h.next, r))
