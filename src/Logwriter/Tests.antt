-- ===== src/Logwriter/Tests.antt =====
-- A budget of eight bytes and three records.
use ha_lua.Base.{
  ◌+◌, ◌≤◌, ◌≡◌, refl, true, false, List, [], ◌∷◌, ◌++◌, none, some, Text, length, codes, arith,
}
use ha_lua.Logwriter.{
  Disk, Io, content, open_file, segment, new, write_all, write, write_opened, ensure_open,
  make_room, rotate, moved, put, taken,
}
use ha_lua.Logwriter.Budget.{write_all-bounded}
use ha_lua.Logwriter.Stream.{kept, IsFine, records, write_all-kept}

abbrev fine : Io
fine = record {
  open_fails = false;
  stat_fails = false;
  rename_fails = false;
  truncate_fails = true;
  short = none;
}

abbrev empty : Disk
empty = record { active = none; backup = none }

abbrev list : List (Io × Text)
list = (fine, codes "abc") ∷ (fine, codes "de") ∷ (fine, codes "f") ∷ []

-- The second record starts a new segment.
rotated :
    (write_all list (new fine 8 empty).0).1
    ≡ record { active = some (codes "def"); backup = some (codes "abc") }
unfolding write_all write write_opened ensure_open make_room rotate moved put taken new segment
    open_file content
rotated = refl

write_all-bounded_example :
    let d' = (write_all list (new fine 8 empty).0).1 in
    (length (content d'.active) ≤ 4)
    × (length (content d'.backup) ≤ 4)
    × (length (content d'.active) + length (content d'.backup) ≤ 8)
unfolding new segment open_file content
write_all-bounded_example =
    write_all-bounded 8 fine empty list (omega arith) refl (omega arith) (omega arith)
      ((refl, omega arith), ((refl, omega arith), ((refl, omega arith), tt)))

fine-IsFine : IsFine fine
fine-IsFine = record { opens = refl; stats = refl; renames = refl; writes = refl }

write_all-kept_example :
    (dropped : Text) × (kept (new fine 8 empty).0.1 ++ records list
      ≡ dropped ++ kept (write_all list (new fine 8 empty).0).1)
write_all-kept_example =
    write_all-kept list (new fine 8 empty).0 (fine-IsFine, (fine-IsFine, (fine-IsFine, tt)))
