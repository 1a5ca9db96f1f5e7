-- ===== src/Logbuf/Handler/Tests.antt =====
-- A handler with a group and an attribute, and one with the two the other way round.
use ha_lua.Base.{
  ℕ, ◌+◌, ◌%◌, ◌^◌, true, false, List, [], ◌∷◌, ◌≡◌, refl, Text, codes, Map, pos, text_eq,
}
use ha_lua.Logbuf.Ring.{new, append}
use ha_lua.Logbuf.Handler.{
  Attrs, no_attrs, attr, plain, flatten, joined, is_none, join_key, LogRecord, Next, new_handler,
  with_attrs, with_group, entry, handle,
}
use ha_lua.Logbuf.Handler.Groups.{Derive, expected, derive_all, handle-derived}

-- A wrapped handler that counts.
abbrev counts : Next ℕ
counts = record { with_attrs = λ xs n. n + 1; with_group = λ name n. n + 1 }

abbrev one : Text → Attrs
one k = attr k false (plain (codes "v")) no_attrs

abbrev line : LogRecord
line = record { time = 5; level = codes "INFO"; message = codes "hi"; attrs = one (codes "a") }

abbrev list : List Derive
list = Derive.group (codes "g") ∷ Derive.attrs (one (codes "b")) ∷ []

abbrev swapped : List Derive
swapped = Derive.attrs (one (codes "b")) ∷ Derive.group (codes "g") ∷ []

-- The attribute was added before the group was opened, and is stored under it.
moved_under :
    (entry counts (derive_all counts swapped (new_handler counts 0)) line).attrs
    ≡ (codes "g.b", codes "v") ∷ (codes "g.a", codes "v") ∷ []
unfolding entry new_handler with_attrs with_group flatten join_key joined is_none ha_lua.Base.insert
    ha_lua.Base.text_eq
moved_under = refl

promised :
    expected [] [] swapped line.attrs ≡ (codes "b", codes "v") ∷ (codes "g.a", codes "v") ∷ []
unfolding flatten join_key ha_lua.Base.insert ha_lua.Base.text_eq
promised = refl

handle-derived_example :
    handle counts (derive_all counts list (new_handler counts 0)) line (new (pos 2)) ≡ (
      append
          (record {
            seq = 0;
            time = 5;
            level = codes "INFO";
            msg = codes "hi";
            attrs = expected [] [] list line.attrs;
          })
          (new (pos 2)),
      (2, line),
    )
unfolding is_none
handle-derived_example = handle-derived counts list 0 line (new (pos 2)) tt
