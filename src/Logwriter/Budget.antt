-- ===== src/Logwriter/Budget.antt =====
-- The size of the two files.
use ha_lua.Base.{
  ℕ, suc, zero, ◌+◌, ◌≤◌, ◌≡◌, refl, sym, ap, Bool, true, false, ◌&&◌, ltb, List, [], ◌∷◌, Option,
  none, some, Text, length, length-append, take, All, arith, Bool-cases, Option-cases, inl, inr,
  if-elim,
}
use ha_lua.Logwriter.{
  Disk, Rotating, Io, content, moved, truncated, open_file, segment, new, rotate, taken, put,
  make_room, ensure_open, write_opened, write, write_all,
}

-- Both files are within a bound, and the size that the writer keeps is the size of the file.
pub record IsBounded (seg big : ℕ) (st : Rotating × Disk) : Type 0 where
  pub same_segment : st.0.seg_max ≡ seg
  pub exact : st.0.size ≡ length (content st.1.active)
  pub idle : st.0.file_open ≡ false → st.0.size ≡ 0
  pub active_fits : length (content st.1.active) ≤ big
  pub backup_fits : length (content st.1.backup) ≤ big

-- A write whose rotation leaves no old bytes in the active file: the rename or else the truncation succeeds.
abbrev pub CanRotate : Io → Type 0
CanRotate io = (io.rename_fails && io.truncate_fails) ≡ false

opened-IsBounded :
    (seg big : ℕ) (io : Io) (st : Rotating × Disk)
    → IsBounded seg big st
    → IsBounded seg big (open_file io st).0
unfolding open_file content
opened-IsBounded seg big io (w, d) v = elim (Bool-cases io.open_fails) [
  | inl failed ↦ rw (failed) v
  | inr fine ↦ elim (Bool-cases io.stat_fails) [
    | inl failed ↦
        rw (fine, failed)
          (record {
            same_segment = v.same_segment;
            exact = v.exact;
            idle = v.idle;
            active_fits = v.active_fits;
            backup_fits = v.backup_fits;
          })
    | inr works ↦
        rw (fine, works)
          (record {
            same_segment = v.same_segment;
            exact = refl;
            idle = λ wrong. cc;
            active_fits = v.active_fits;
            backup_fits = v.backup_fits;
          })
  ]
]

length-take_le : (n : ℕ) (p : Text) → length (take n p) ≤ length p
length-take_le zero p = omega arith
length-take_le (suc n) [] = omega arith
length-take_le (suc n) (c ∷ p) = omega (arith, length-take_le n p)

-- A writer that `New` returns.
new-IsBounded :
    (big : ℕ) (io : Io) (total : ℕ) (d : Disk)
    → (new io total d).1 ≡ false
    → length (content d.active) ≤ big
    → length (content d.backup) ≤ big
    → IsBounded (segment total) big (new io total d).0
unfolding new open_file content
new-IsBounded big io total d works a b = elim (Bool-cases io.open_fails) [
  | inl failed ↦ absurd (ground (arith, failed, works))
  | inr fine ↦ elim (Bool-cases io.stat_fails) [
    | inl failed ↦ absurd (ground (arith, fine, failed, works))
    | inr well ↦
        rw (fine, well)
          (record {
            same_segment = refl;
            exact = refl;
            idle = λ wrong. cc;
            active_fits = a;
            backup_fits = b;
          })
  ]
]

pub moved_fits :
    (big : ℕ) (d : Disk)
    → length (content d.active) ≤ big
    → length (content d.backup) ≤ big
    → (content (moved d).active ≡ []) × (length (content (moved d).backup) ≤ big)
unfolding moved content
moved_fits big d a b = elim (Option-cases d.active) [
  | inl gone ↦ (ground (arith, gone), ground (arith, gone, b))
  | inr (s, there) ↦ (ground (arith, there), ground (arith, there, a))
]

truncated_fits :
    (big : ℕ) (d : Disk)
    → length (content d.backup) ≤ big
    → (content (truncated d).active ≡ []) × (length (content (truncated d).backup) ≤ big)
unfolding truncated content
truncated_fits big d b = elim (Option-cases d.active) [
  | inl gone ↦ (ground (arith, gone), ground (arith, gone, b))
  | inr (s, there) ↦ (ground (arith, there), ground (arith, there, b))
]

-- A writer whose active file was emptied.
emptied-IsBounded :
    (seg big : ℕ) (w : Rotating) (d : Disk)
    → w.seg_max ≡ seg
    → (content d.active ≡ []) × (length (content d.backup) ≤ big)
    → IsBounded seg big (record w { file_open = false; size = 0 }, d)
emptied-IsBounded seg big w d same (empty, fits) = record {
  same_segment = same;
  exact = sym (ap length empty);
  idle = λ shut. refl;
  active_fits = ground (arith, empty);
  backup_fits = fits;
}

rotate-IsBounded :
    (seg big : ℕ) (io : Io) (st : Rotating × Disk)
    → CanRotate io
    → IsBounded seg big st
    → IsBounded seg big (rotate io st) × (content (rotate io st).1.active ≡ [])
unfolding rotate
rotate-IsBounded seg big io (w, d) can v = elim (Bool-cases io.rename_fails) [
  | inr works ↦
      let fits = moved_fits big d v.active_fits v.backup_fits in
      rw (works) (emptied-IsBounded seg big w (moved d) v.same_segment fits, fits.0)
  | inl fails ↦
      let cut_back : io.truncate_fails ≡ false = ground (arith, fails, can) in
      let fits = truncated_fits big d v.backup_fits in
      rw (fails, cut_back) (emptied-IsBounded seg big w (truncated d) v.same_segment fits, fits.0)
]

-- The state is within bounds and the record fits.
room-made :
    (seg big : ℕ) (io : Io) (p : Text) (st : Rotating × Disk)
    → seg ≤ big
    → length p ≤ big
    → CanRotate io
    → IsBounded seg big st
    → IsBounded seg big (make_room io p st)
      × (length (content (make_room io p st).1.active) + length p ≤ big)
unfolding make_room
room-made seg big io p (w, d) s l can v =
    elim (Bool-cases (w.file_open && (ltb 0 w.size && ltb w.seg_max (w.size + length p)))) [
      | inl full ↦
          let (bounded, empty) = rotate-IsBounded seg big io (w, d) can v in
          rw (full) (bounded, ground (arith, empty, l))
      | inr roomy ↦
          rw (roomy) (
            v,
            ground (arith, roomy, v.exact, v.idle, v.same_segment, s, l, Bool-cases w.file_open),
          )
    ]

pub length-taken : (short : Option ℕ) (p : Text) → length (taken short p) ≤ length p
unfolding taken
length-taken none p = omega arith
length-taken (some n) p = length-take_le n p

put-IsBounded :
    (seg big : ℕ) (io : Io) (p : Text) (st : Rotating × Disk)
    → st.0.file_open ≡ true
    → length (content st.1.active) + length p ≤ big
    → IsBounded seg big st
    → IsBounded seg big (put io p st)
unfolding put content
put-IsBounded seg big io p (w, d) up room v = record {
  same_segment = v.same_segment;
  exact = ground (arith, v.exact, length-append (content d.active) (taken io.short p));
  idle = λ shut. cc;
  active_fits =
      omega
        (arith, room, length-append (content d.active) (taken io.short p), length-taken io.short p);
  backup_fits = v.backup_fits;
}

opens :
    (io : Io) (st : Rotating × Disk)
    → (open_file io st).1 ≡ false
    → (open_file io st).0.0.file_open ≡ true
unfolding open_file
opens io (w, d) works = ground (arith, works)

open_content :
    (io : Io) (st : Rotating × Disk) → content (open_file io st).0.1.active ≡ content st.1.active
unfolding open_file content
open_content io (w, d) = ground arith

share : (total big a b : ℕ) → big ≡ segment total → 2 ≤ total → a ≤ big → b ≤ big → a + b ≤ total
unfolding segment
share total big a b tight enough h k = omega (arith, tight, enough, h, k)

-- The file is open or the opening failed; the content stays.
ensured :
    (seg big : ℕ) (io : Io) (st : Rotating × Disk)
    → IsBounded seg big st
    → let (st', failed) = ensure_open io st in
      IsBounded seg big st'
      × (failed ≡ false → st'.0.file_open ≡ true)
      × (content st'.1.active ≡ content st.1.active)
unfolding ensure_open
ensured seg big io (w, d) v =
    if-elim
      (λ out.
        IsBounded seg big out.0
        × (out.1 ≡ false → out.0.0.file_open ≡ true)
        × (content out.0.1.active ≡ content d.active))
      w.file_open ((w, d), false) (open_file io (w, d)) (λ up. (v, λ works. up, refl))
      (λ shut. (opened-IsBounded seg big io (w, d) v, opens io (w, d), open_content io (w, d)))

written-IsBounded :
    (seg big : ℕ) (io : Io) (p : Text) (out : (Rotating × Disk) × Bool)
    → IsBounded seg big out.0
    → (out.1 ≡ false → out.0.0.file_open ≡ true)
    → length (content out.0.1.active) + length p ≤ big
    → IsBounded seg big (write_opened io p out)
unfolding write_opened
written-IsBounded seg big io p (st, true) v up room = v
written-IsBounded seg big io p (st, false) v up room =
    put-IsBounded seg big io p st (up refl) room v

write-IsBounded :
    (seg big : ℕ) (io : Io) (p : Text) (st : Rotating × Disk)
    → seg ≤ big
    → length p ≤ big
    → CanRotate io
    → IsBounded seg big st
    → IsBounded seg big (write io p st)
unfolding write
write-IsBounded seg big io p st s l can v =
    let (roomy, room) = room-made seg big io p st s l can v in
    let (bounded, up, same) = ensured seg big io (make_room io p st) roomy in
    written-IsBounded seg big io p (ensure_open io (make_room io p st)) bounded up
      (ground (arith, same, room))

write_all-IsBounded :
    (seg big : ℕ) (list : List (Io × Text)) (st : Rotating × Disk)
    → seg ≤ big
    → All (λ x. CanRotate x.0 × (length x.1 ≤ big)) list
    → IsBounded seg big st
    → IsBounded seg big (write_all list st)
unfolding write_all
write_all-IsBounded seg big [] st s h v = v
write_all-IsBounded seg big ((io, p) ∷ list) st s h v =
    write_all-IsBounded seg big list (write io p st) s h.1
      (write-IsBounded seg big io p st s h.0.1 h.0.0 v)

-- When neither a record nor one of the files that are there is longer than the segment, the file and its backup never are either, and together
-- they stay within the budget, whichever calls of the operating system fail, unless a rename and the truncation after it both do.
pub write_all-bounded :
    (total : ℕ) (io : Io) (d : Disk) (list : List (Io × Text))
    → 2 ≤ total
    → (new io total d).1 ≡ false
    → length (content d.active) ≤ segment total
    → length (content d.backup) ≤ segment total
    → All (λ x. CanRotate x.0 × (length x.1 ≤ segment total)) list
    → let d' = (write_all list (new io total d).0).1 in
      (length (content d'.active) ≤ segment total)
      × (length (content d'.backup) ≤ segment total)
      × (length (content d'.active) + length (content d'.backup) ≤ total)
write_all-bounded total io d list enough works a b h =
    let seg = segment total in
    let v =
      write_all-IsBounded seg seg list (new io total d).0 (omega arith) h
        (new-IsBounded seg io total d works a b) in
    (v.active_fits, v.backup_fits, share total seg _ _ refl enough v.active_fits v.backup_fits)
