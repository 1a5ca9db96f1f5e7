-- ===== src/Logwriter/Stream.antt =====
-- What the two files hold of the log.
use ha_lua.Base.{
  ◌≡◌, refl, sym, ap, ◌∙◌, Bool, true, false, List, [], ◌∷◌, ◌++◌, append-nil, append_assoc, none,
  Text, All, arith, Option-cases, inl, inr, if-elim,
}
use ha_lua.Logwriter.{
  Disk, Rotating, Io, content, moved, open_file, rotate, taken, put, make_room, ensure_open,
  write_opened, write, write_all,
}

-- The older file and then the newer.
pub kept : Disk → Text
kept d = content d.backup ++ content d.active

-- No call of the operating system fails.
pub record IsFine (io : Io) : Type 0 where
  pub opens : io.open_fails ≡ false
  pub stats : io.stat_fails ≡ false
  pub renames : io.rename_fails ≡ false
  pub writes : io.short ≡ none

pub records : List (Io × Text) → Text
records [] = []
records ((io, p) ∷ list) = p ++ records list

moved-kept : (d : Disk) → (dropped : Text) × (kept d ≡ dropped ++ kept (moved d))
unfolding kept moved content
moved-kept d = elim (Option-cases d.active) [
  | inl gone ↦ ([], ground (arith, gone))
  | inr (s, there) ↦ (content d.backup, ground (arith, there, append-nil s))
]

room-kept :
    (io : Io) (p : Text) (st : Rotating × Disk)
    → IsFine io
    → (dropped : Text) × (kept st.1 ≡ dropped ++ kept (make_room io p st).1)
unfolding make_room rotate
room-kept io p (w, d) f =
    if-elim (λ st. (dropped : Text) × (kept d ≡ dropped ++ kept st.1)) _ (rotate io (w, d)) (w, d)
      (λ full. let (dropped, e) = moved-kept d in (dropped, rw (f.renames) e)) (λ roomy. ([], refl))

ensured-kept :
    (io : Io) (st : Rotating × Disk)
    → IsFine io
    → ((ensure_open io st).1 ≡ false) × (kept (ensure_open io st).0.1 ≡ kept st.1)
unfolding ensure_open open_file kept content
ensured-kept io (w, d) f = ground (arith, f.opens, f.stats)

put-kept :
    (io : Io) (p : Text) (st : Rotating × Disk) → IsFine io → kept (put io p st).1 ≡ kept st.1 ++ p
unfolding put taken kept content
put-kept io p (w, d) f = rw (f.writes) (sym (append_assoc (content d.backup) (content d.active) p))

written-kept :
    (io : Io) (p : Text) (out : (Rotating × Disk) × Bool)
    → IsFine io
    → out.1 ≡ false
    → kept (write_opened io p out).1 ≡ kept out.0.1 ++ p
unfolding write_opened
written-kept io p (st, true) f works = cc
written-kept io p (st, false) f works = put-kept io p st f

write-kept :
    (io : Io) (p : Text) (st : Rotating × Disk)
    → IsFine io
    → (dropped : Text) × (kept st.1 ++ p ≡ dropped ++ kept (write io p st).1)
unfolding write
write-kept io p st f =
    let (dropped, e) = room-kept io p st f in
    let roomy = make_room io p st in
    let (works, same) = ensured-kept io roomy f in
    (
      dropped,
      ap (λ s. s ++ p) e
          ∙ append_assoc dropped (kept roomy.1) p
          ∙ ap (λ s. dropped ++ (s ++ p)) (sym same)
          ∙ ap (λ s. dropped ++ s) (sym (written-kept io p (ensure_open io roomy) f works)),
    )

-- While no call fails, the backup and then the active file hold an unbroken end of the log: what the files held, then the
-- records in order.
pub write_all-kept :
    (list : List (Io × Text)) (st : Rotating × Disk)
    → All (λ x. IsFine x.0) list
    → (dropped : Text) × (kept st.1 ++ records list ≡ dropped ++ kept (write_all list st).1)
unfolding write_all records
write_all-kept [] st h = ([], append-nil (kept st.1))
write_all-kept ((io, p) ∷ list) st h =
    let (dropped, e) = write-kept io p st h.0 in
    let (more, e') = write_all-kept list (write io p st) h.1 in
    (
      dropped ++ more,
      sym (append_assoc (kept st.1) p (records list))
          ∙ ap (λ s. s ++ records list) e
          ∙ append_assoc dropped (kept (write io p st).1) (records list)
          ∙ ap (λ s. dropped ++ s) e'
          ∙ sym (append_assoc dropped more _),
    )
