-- ===== src/Logbuf/Handler/Groups.antt =====
-- The handlers that derive from one by WithAttrs and WithGroup.
use ha_lua.Base.{
  ◌≡◌, refl, ap, ap₂, ◌∙◌, true, List, [], ◌∷◌, Text, is_empty, Map, if◌then◌else◌, arith,
}
use ha_lua.Logbuf.Ring.{Buffer, append}
use ha_lua.Logbuf.Handler.{
  Attrs, no_attrs, attr, joined, is_none, join_key, flatten, flatten_all, LogRecord, Next, Handler,
  new_handler, with_attrs, with_group, entry, handle,
}

-- One derivation.
pub data Derive : Type 0 where
  attrs : Attrs → Derive
  group : Text → Derive

-- What package slog promises: an attribute is under the groups that were open when it was added.
abbrev pub expected : Map Text → Text → List Derive → Attrs → Map Text
expected out prefix [] own = flatten_all out prefix own
expected out prefix (attrs xs ∷ list) own = expected (flatten_all out prefix xs) prefix list own
expected out prefix (group name ∷ list) own =
    expected out (if is_empty name then prefix else join_key prefix name) list own

-- No group is opened.
abbrev pub NoGroup : List Derive → Type 0
NoGroup [] = Unit
NoGroup (attrs xs ∷ list) = NoGroup list
NoGroup (group name ∷ list) = (is_empty name ≡ true) × NoGroup list

-- Groups are opened before any attribute is added.
abbrev pub GroupsFirst : List Derive → Type 0
GroupsFirst [] = Unit
GroupsFirst (attrs xs ∷ list) = NoGroup list
GroupsFirst (group name ∷ list) = GroupsFirst list

flatten_all-joined :
    (out : Map Text) (prefix : Text) (xs ys : Attrs)
    → flatten_all out prefix (joined xs ys) ≡ flatten_all (flatten_all out prefix xs) prefix ys
unfolding joined flatten_all
flatten_all-joined out prefix no_attrs ys = refl
flatten_all-joined out prefix (attr key zero v xs) ys =
    flatten_all-joined (flatten out prefix key zero v) prefix xs ys

module _ {N : Type 0} (ops : Next N) where
  abbrev pub derive : Derive → Handler N → Handler N
  derive (attrs xs) h = with_attrs ops xs h
  derive (group name) h = with_group ops name h

  abbrev pub derive_all : List Derive → Handler N → Handler N
  derive_all [] h = h
  derive_all (d ∷ list) h = derive_all list (derive d h)

  -- The wrapped handler, derived in the same way.
  abbrev pub next_all : List Derive → N → N
  next_all [] n = n
  next_all (attrs xs ∷ list) n = next_all list (if is_none xs then n else ops.with_attrs xs n)
  next_all (group name ∷ list) n =
      next_all list (if is_empty name then n else ops.with_group name n)

  stored : Handler N → Map Text
  stored h = flatten_all [] h.group h.attrs

  stored-with_attrs :
      (xs : Attrs) (h : Handler N)
      → (stored (with_attrs ops xs h) ≡ flatten_all (stored h) h.group xs)
        × ((with_attrs ops xs h).group ≡ h.group)
        × ((with_attrs ops xs h).next ≡ (if is_none xs then h.next else ops.with_attrs xs h.next))
  unfolding stored with_attrs is_none flatten_all
  stored-with_attrs no_attrs h = (refl, refl, refl)
  stored-with_attrs (attr key zero v xs) h =
      (flatten_all-joined [] h.group h.attrs (attr key zero v xs), refl, refl)

  attrs-expected :
      (list : List Derive) (h : Handler N) (own : Attrs)
      → NoGroup list
      → flatten_all (stored (derive_all list h)) (derive_all list h).group own
        ≡ expected (stored h) h.group list own
  unfolding with_group
  attrs-expected [] h own none_left = refl
  attrs-expected (attrs xs ∷ list) h own none_left =
      let (kept, same, next) = stored-with_attrs xs h in
      attrs-expected list (with_attrs ops xs h) own none_left
      ∙ ap₂ (λ out prefix. expected out prefix list own) kept same
  attrs-expected (group [] ∷ list) h own none_left = attrs-expected list h own none_left.1
  attrs-expected (group (c ∷ name) ∷ list) h own none_left = absurd (ground (arith, none_left.0))

  abbrev bare : N → Text → Handler N
  bare n prefix = record { next = n; attrs = no_attrs; group = prefix }

  groups-expected :
      (list : List Derive) (n : N) (prefix : Text) (own : Attrs)
      → GroupsFirst list
      → let h = derive_all list (bare n prefix) in
        flatten_all (stored h) h.group own ≡ expected [] prefix list own
  unfolding stored flatten_all with_group
  groups-expected [] n prefix own first = refl
  groups-expected (attrs xs ∷ list) n prefix own first =
      attrs-expected (attrs xs ∷ list) (bare n prefix) own first
  groups-expected (group [] ∷ list) n prefix own first = groups-expected list n prefix own first
  groups-expected (group (c ∷ name) ∷ list) n prefix own first =
      groups-expected list (ops.with_group (c ∷ name) n) (join_key prefix (c ∷ name)) own first

  derived-next :
      (list : List Derive) (h : Handler N) → (derive_all list h).next ≡ next_all list h.next
  unfolding with_group
  derived-next [] h = refl
  derived-next (attrs xs ∷ list) h =
      let (kept, same, next) = stored-with_attrs xs h in
      derived-next list (with_attrs ops xs h) ∙ ap (next_all list) next
  derived-next (group [] ∷ list) h = derived-next list h
  derived-next (group (c ∷ name) ∷ list) h = derived-next list (with_group ops (c ∷ name) h)

  -- A handler that was derived from a new one by groups first and attributes after them stores the attributes of every record as package slog
  -- promises, each under the groups that were open when it was added; and the wrapped handler gets the record as it is, derived in the same way.
  pub handle-derived :
      (list : List Derive) (n : N) (r : LogRecord) (b : Buffer)
      → GroupsFirst list
      → let h = derive_all list (new_handler ops n) in
        (handle ops h r b ≡ (
          append
              (record {
                seq = 0;
                time = r.time;
                level = r.level;
                msg = r.message;
                attrs = expected [] [] list r.attrs;
              })
              b,
          (next_all list n, r),
        ))
  unfolding handle entry new_handler stored
  handle-derived list n r b first =
      rw (groups-expected list n [] r.attrs first, derived-next list (bare n [])) refl
