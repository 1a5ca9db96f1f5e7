-- ===== src/Exceptions/Log.antt =====
-- The size of the exception log.
use ha_lua.Base.{
  ℕ, suc, ◌+◌, ◌≤◌, ◌<◌, ◌≡◌, sym, ap₂, subst, Bool, false, ltb, List, [], ◌∷◌, length,
  length-append, All, Text, arith, Option-cases, inl, inr, if-elim, if◌then◌else◌,
}
use ha_lua.Logwriter.{Disk, content, segment, moved, taken, rotate_if_large}
use ha_lua.Logwriter.Budget.{moved_fits, length-taken}
use ha_lua.Exceptions.{Info, Io, entry, append_to_root, log_file, log_all, max_exception_log_bytes}

-- Both files are no longer than a bound.
abbrev pub Within : ℕ → Disk → Type 0
Within big d = (length (content d.active) ≤ big) × (length (content d.backup) ≤ big)

-- A rotation that can see and move the file.
abbrev pub CanMove : Io → Type 0
CanMove io = (io.stat_fails ≡ false) × (io.rename_fails ≡ false)

rotated :
    (total : ℕ) (d : Disk)
    → 1 ≤ segment total
    → rotate_if_large false false total d
      ≡ (if ltb (length (content d.active)) (segment total) then d else moved d)
unfolding rotate_if_large content
rotated total d some_room = elim (Option-cases d.active) [
  | inl gone ↦ ground (arith, gone, some_room)
  | inr (s, there) ↦ ground (arith, there)
]

rotated-Within :
    (big total : ℕ) (d : Disk)
    → 1 ≤ segment total
    → Within big d
    → let d' = rotate_if_large false false total d in
      Within big d' × (length (content d'.active) < segment total)
rotated-Within big total d some_room h =
    let fits = moved_fits big d h.0 h.1 in
    rw (rotated total d some_room) (
      if-elim (λ d'. Within big d' × (length (content d'.active) < segment total))
        (ltb (length (content d.active)) (segment total)) d (moved d)
        (λ small. (h, ground (arith, small)))
        (λ large. ((ground (arith, fits.0), fits.1), ground (arith, fits.0, some_room))))

segment_positive : (total : ℕ) → 1 ≤ segment total
unfolding segment
segment_positive total = omega arith

appended-Within :
    (big : ℕ) (io : Io) (e : Text) (d : Disk)
    → length (content d.active) + length e ≤ big
    → length (content d.backup) ≤ big
    → Within big (append_to_root io e d).0
unfolding append_to_root content
appended-Within big io e d a b =
    if-elim (λ (out : Disk × Bool). Within big out.0) io.open_fails _ _
      (λ failed. (omega (arith, a), b))
      (λ fine. (
        omega (
          arith,
          a,
          length-append (content d.active) (taken io.short e),
          length-taken io.short e,
        ),
        b,
      ))

log_file-Within :
    (big : ℕ) (io : Io) (i : Info) (d : Disk)
    → CanMove io
    → segment max_exception_log_bytes + length (entry i) ≤ suc big
    → Within big d
    → Within big (log_file io i d).0
unfolding log_file
log_file-Within big io i d (stats, renames) room h =
    let (kept, small) =
      rotated-Within big max_exception_log_bytes d (segment_positive max_exception_log_bytes) h in
    let same : rotate_if_large false false max_exception_log_bytes d
        ≡ rotate_if_large io.stat_fails io.rename_fails max_exception_log_bytes d =
      ap₂ (λ a b. rotate_if_large a b max_exception_log_bytes d) (sym stats) (sym renames) in
    if-elim (λ (out : Disk × Bool). Within big out.0) io.mkdir_fails _ _ (λ failed. h)
      (λ fine.
        subst (λ d'. Within big (append_to_root io (entry i) d').0) same
          (appended-Within big io (entry i) (rotate_if_large false false max_exception_log_bytes d)
            (omega (arith, small, room)) kept.1))

-- However long a script goes on failing, neither the log nor its backup grows past the segment by more than one entry, as long as the file can
-- be seen and moved; partial and failing appends included.
pub log_all-Within :
    (big : ℕ) (list : List (Io × Info)) (d : Disk)
    → All (λ x. CanMove x.0 × (segment max_exception_log_bytes + length (entry x.1) ≤ suc big)) list
    → Within big d
    → Within big (log_all list d)
unfolding log_all
log_all-Within big [] d h w = w
log_all-Within big ((io, i) ∷ list) d h w =
    log_all-Within big list (log_file io i d).0 h.1 (log_file-Within big io i d h.0.0 h.0.1 w)
