-- ===== src/Logwriter.antt =====
-- The size-bounded log file: ha-lua/internal/logwriter/logwriter.go.
pub mod Budget
pub mod Stream
mod Tests
use ha_lua.Base.{
  ℕ, ◌+◌, ◌/◌, max, Bool, true, false, not, ◌&&◌, ◌||◌, ltb, List, [], ◌∷◌, ◌++◌, Option, none,
  some, Text, length, take, if◌then◌else◌,
}

-- The files at `path` and `path.1`; none is a file that does not exist.
pub record Disk : Type 0 where
  pub active : Option Text
  pub backup : Option Text

-- `Rotating`, with `file` set or nil.
pub record Rotating : Type 0 where
  pub seg_max : ℕ
  pub file_open : Bool
  pub size : ℕ

-- Which calls of the operating system fail; a failing Stat closes the file again. `short` is how many bytes a failing
-- write of the file takes.
pub record Io : Type 0 where
  pub open_fails : Bool
  pub stat_fails : Bool
  pub rename_fails : Bool
  pub truncate_fails : Bool
  pub short : Option ℕ

unfoldable pub content : Option Text → Text
content none = []
content (some s) = s

-- What a rename over the backup leaves; without a file to move it fails.
unfoldable pub moved : Disk → Disk
moved d = elim (d.active) [ none ↦ d | some s ↦ record { active = none; backup = some s } ]

unfoldable pub truncated : Disk → Disk
truncated d = elim (d.active) [ none ↦ d | some s ↦ record d { active = some [] } ]

-- `open`, which creates the file; it tells whether it failed.
unfoldable pub open_file : Io → Rotating × Disk → (Rotating × Disk) × Bool
open_file io (w, d) =
    if io.open_fails
    then ((w, d), true)
    else (let created = record d { active = some (content d.active) } in
        if io.stat_fails
        then ((w, created), true)
        else ((record w { file_open = true; size = length (content d.active) }, created), false))

-- The segment's share of the budget.
unfoldable pub segment : ℕ → ℕ
segment total = max (total / 2) 1

-- `New`; none is an error.
unfoldable pub new : Io → ℕ → Disk → (Rotating × Disk) × Bool
new io total d = open_file io (record { seg_max = segment total; file_open = false; size = 0 }, d)

unfoldable pub rotate : Io → Rotating × Disk → Rotating × Disk
rotate io (w, d) = (
  record w { file_open = false; size = 0 },
  if not io.rename_fails then moved d else (if io.truncate_fails then d else truncated d),
)

-- The bytes of `p` that reach the file.
unfoldable pub taken : Option ℕ → Text → Text
taken none p = p
taken (some n) p = take n p

unfoldable pub put : Io → Text → Rotating × Disk → Rotating × Disk
put io p (w, d) =
    let bytes = taken io.short p in
    (
      record w { size = w.size + length bytes },
      record d { active = some (content d.active ++ bytes) },
    )

-- `Write`: the rotation, the opening, the bytes.
unfoldable pub make_room : Io → Text → Rotating × Disk → Rotating × Disk
make_room io p (w, d) =
    if w.file_open && (ltb 0 w.size && ltb w.seg_max (w.size + length p))
    then rotate io (w, d)
    else (w, d)

unfoldable pub ensure_open : Io → Rotating × Disk → (Rotating × Disk) × Bool
ensure_open io (w, d) = if w.file_open then ((w, d), false) else open_file io (w, d)

unfoldable pub write_opened : Io → Text → (Rotating × Disk) × Bool → Rotating × Disk
write_opened io p (st, true) = st
write_opened io p (st, false) = put io p st

unfoldable pub write : Io → Text → Rotating × Disk → Rotating × Disk
write io p st = write_opened io p (ensure_open io (make_room io p st))

unfoldable pub write_all : List (Io × Text) → Rotating × Disk → Rotating × Disk
write_all [] st = st
write_all ((io, p) ∷ rest) st = write_all rest (write io p st)

-- `RotateIfLarge` before a write that opens, appends and closes; the Stat fails without a file.
unfoldable pub rotate_if_large : Bool → Bool → ℕ → Disk → Disk
rotate_if_large stat_fails rename_fails total d = elim (d.active) [
  | none ↦ d
  | some s ↦
      if stat_fails || ltb (length s) (segment total)
      then d
      else (if rename_fails then d else moved d)
]
