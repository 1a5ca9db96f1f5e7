-- ===== src/Logbuf/Ring.antt =====
-- `Buffer`: a ring of the most recent records, and its snapshots.
pub mod Window
pub mod Poll
mod Tests
use ha_lua.Base.{
  ℕ, suc, zero, ◌+◌, ◌%◌, ◌^◌, Bool, true, false, not, ◌&&◌, ◌||◌, List, [], ◌∷◌, ◌++◌, Option,
  none, some, Text, text_eq, is_empty, length, take, drop, set, replicate, Map, lookup,
  if◌then◌else◌, ◌==◌, leb, ltb, ℤ, pos, negsuc, leb_ℤ, codes,
}

-- `time.Time` is an instant, as a number.
pub record Record : Type 0 where
  pub seq : ℕ
  pub time : ℕ
  pub level : Text
  pub msg : Text
  pub attrs : Map Text

-- `seq` is a uint64.
pub record Buffer : Type 0 where
  pub ring : List Record
  pub next : ℕ
  pub seq : ℕ
  pub full : Bool

abbrev pub default_capacity : ℕ
default_capacity = 500

abbrev pub zero_record : Record
zero_record = record { seq = 0; time = 0; level = []; msg = []; attrs = [] }

abbrev pub capacity_of : ℤ → ℕ
capacity_of capacity = elim capacity [
  | pos n ↦ if leb n 0 then default_capacity else n
  | negsuc n ↦ default_capacity
]

pub new : ℤ → Buffer
new capacity = record {
  ring = replicate (capacity_of capacity) zero_record;
  next = 0;
  seq = 0;
  full = false;
}

pub append : Record → Buffer → Buffer
append rec b =
    let seq = (b.seq + 1) % 2 ^ 64 in
    let next = (b.next + 1) % length b.ring in
    record {
      ring = set b.ring b.next (record rec { seq = seq });
      next = next;
      seq = seq;
      full = if next == 0 then true else b.full;
    }

pub ordered : Buffer → List Record
ordered b = if not b.full then take b.next b.ring else drop b.next b.ring ++ take b.next b.ring

pub record Query : Type 0 where
  pub since : ℕ
  pub level : ℤ
  pub script : Text

abbrev pub script_key : Text
script_key = codes "script"

abbrev pub any_script : Text
any_script = codes "*"

-- A missing key of a Go map reads as "".
abbrev pub attr : Text → Map Text → Text
attr key attrs = elim (lookup key attrs) [ some v ↦ v | none ↦ [] ]

pub matches_script : Text → Record → Bool
matches_script want r =
    if is_empty want
    then true
    else if text_eq want any_script
    then not (is_empty (attr script_key r.attrs))
    else text_eq (attr script_key r.attrs) want

-- `parse_level` stands for the level parser of log/slog; an error is `none`.
module _ (parse_level : Text → Option ℤ) where
  -- `err == nil && lvl < q.Level`
  abbrev pub too_low : Query → Record → Bool
  too_low q r = elim (parse_level r.level) [ none ↦ false | some l ↦ not (leb_ℤ q.level l) ]

  -- The loop of `Snapshot`: each `continue` drops the record.
  pub select : Query → List Record → List Record
  select q [] = []
  select q (r ∷ rs) =
      let out = select q rs in
      if leb r.seq q.since
      then out
      else if too_low q r
      then out
      else if not (matches_script q.script r)
      then out
      else r ∷ out

  pub snapshot : Query → Buffer → List Record × ℕ
  snapshot q b = (select q (ordered b), b.seq)
