-- ===== src/Logbuf/Ring/Poll.antt =====
-- A poller that passes back the sequence number it last saw.
use ha_lua.Base.{
  ℕ, suc, zero, ◌+◌, ◌-◌, ◌%◌, ◌^◌, ◌<◌, ◌≤◌, ◌≡◌, refl, sym, subst, ap, ap₂, ◌∙◌, ◌≡⟨◌⟩◌, ◌∎, Bool,
  not, ◌&&◌, List, [], ◌∷◌, ◌++◌, arith, Option, ℤ, All, keep, length, drop, length-append, Text,
}
use ha_lua.Logbuf.Ring.{
  Record, Buffer, Query, append, ordered, select, snapshot, too_low, matches_script,
}
use ha_lua.Logbuf.Ring.Window.{
  append_all, number, append_all-window, length-ordered-le, append-next_lt, ordered-append,
  drop-append, numbered,
}

abbrev pub SeenBy : ℕ → Record → Type 0
SeenBy s r = r.seq ≤ s

-- What holds of a buffer between appends: the index is in the ring, and no kept record has a number
-- above the counter.
pub record IsLog (b : Buffer) : Type 0 where
  pub within : b.next < length b.ring
  pub counted : All (SeenBy b.seq) (ordered b)

All-drop : (P : Record → Type 0) (n : ℕ) (rs : List Record) → All P rs → All P (drop n rs)
All-drop P zero rs h = h
All-drop P (suc n) [] h = tt
All-drop P (suc n) (r ∷ rs) h = All-drop P n rs h.1

All-mono : {s t : ℕ} (rs : List Record) → s ≤ t → All (SeenBy s) rs → All (SeenBy t) rs
All-mono [] h a = tt
All-mono (r ∷ rs) h a = (omega arith, All-mono rs h a.1)

All-snoc :
    (P : Record → Type 0) (rs : List Record) (r : Record) → All P rs → P r → All P (rs ++ r ∷ [])
All-snoc P [] r a p = (p, tt)
All-snoc P (x ∷ rs) r a p = (a.0, All-snoc P rs r a.1 p)

append-seq : (b : Buffer) (r : Record) → b.seq + 1 < 2 ^ 64 → (append r b).seq ≡ b.seq + 1
unfolding append
append-seq b r h = omega arith

numbered_seen : (b : Buffer) (r : Record) → SeenBy (append r b).seq (numbered b r)
unfolding append numbered
numbered_seen b r = omega arith

-- Appending keeps the write position inside the ring and every kept record's number at most the counter, as
-- long as the 64-bit counter does not wrap.
pub append-IsLog : (b : Buffer) (r : Record) → b.seq + 1 < 2 ^ 64 → IsLog b → IsLog (append r b)
append-IsLog b r h v = record {
  within = append-next_lt b r v.within;
  counted = subst (All (SeenBy (append r b).seq)) (sym (ordered-append b r v.within)) (
      All-drop (SeenBy (append r b).seq) _ (ordered b ++ numbered b r ∷ []) (
        All-snoc (SeenBy (append r b).seq) (ordered b) (numbered b r)
          (All-mono (ordered b) (omega (arith, append-seq b r h)) v.counted) (numbered_seen b r)));
}

length-number : (s : ℕ) (rs : List Record) → length (number s rs) ≡ length rs
unfolding number
length-number s [] = refl
length-number s (r ∷ rs) = ap suc (length-number ((s + 1) % 2 ^ 64) rs)

-- When no more than the ring holds is appended, all of it is kept, after an end of what was there.
window-fits :
    (recs : List Record) (b : Buffer)
    → b.next < length b.ring
    → length recs ≤ length b.ring
    → (k : ℕ) × (ordered (append_all recs b) ≡ drop k (ordered b) ++ number b.seq recs)
window-fits recs b h fits = (
  length (ordered b ++ number b.seq recs) - length b.ring,
  append_all-window recs b h
      ∙ drop-append _ (ordered b) (number b.seq recs) (
          omega (
            arith,
            length-append (ordered b) (number b.seq recs),
            length-number b.seq recs,
            length-ordered-le b h,
          )),
)

module _ (parse_level : Text → Option ℤ) (q : Query) where
  -- What a query wants of a record besides that it is new.
  pub wanted : Record → Bool
  wanted r = not (too_low parse_level q r) && matches_script q.script r

  select-append :
      (xs ys : List Record)
      → select parse_level q (xs ++ ys) ≡ select parse_level q xs ++ select parse_level q ys
  unfolding select
  select-append [] ys = refl
  select-append (x ∷ xs) ys = ground (arith, select-append xs ys)

  select-seen : (xs : List Record) → All (SeenBy q.since) xs → select parse_level q xs ≡ []
  unfolding select
  select-seen [] h = refl
  select-seen (x ∷ xs) h = ground (arith, select-seen xs h.1)

  select-number :
      (s : ℕ) (rs : List Record)
      → q.since ≤ s
      → s + length rs < 2 ^ 64
      → select parse_level q (number s rs) ≡ keep wanted (number s rs)
  unfolding select number wanted
  select-number s [] h k = refl
  select-number s (r ∷ rs) h k =
      ground (arith, select-number ((s + 1) % 2 ^ 64) rs (omega arith) (omega arith))

  append_all-seq :
      (recs : List Record) (b : Buffer)
      → b.seq + length recs < 2 ^ 64
      → (append_all recs b).seq ≡ b.seq + length recs
  unfolding append_all
  append_all-seq [] b h = omega arith
  append_all-seq (r ∷ rs) b h = omega (
    arith,
    append-seq b r (omega arith),
    append_all-seq rs (append r b) (omega (arith, append-seq b r (omega arith))),
  )

  -- A poller that has seen every record of a log buffer, and polls again before more records
  -- than the ring holds are appended and before the counter wraps, gets exactly the new records
  -- that its query wants, oldest first, and the new counter.
  pub snapshot-append_all :
      (recs : List Record) (b : Buffer)
      → IsLog b
      → q.since ≡ b.seq
      → length recs ≤ length b.ring
      → b.seq + length recs < 2 ^ 64
      → snapshot parse_level q (append_all recs b)
        ≡ (keep wanted (number b.seq recs), b.seq + length recs)
  unfolding snapshot
  snapshot-append_all recs b v e fits bound =
      let (k, window) = window-fits recs b v.within fits in
      ap₂ (λ (l : List Record) (n : ℕ). (l, n))
        (select parse_level q (ordered (append_all recs b))
          ≡⟨ ap (select parse_level q) window ⟩
            select parse_level q (drop k (ordered b) ++ number b.seq recs)
          ≡⟨ select-append (drop k (ordered b)) (number b.seq recs) ⟩
            select parse_level q (drop k (ordered b)) ++ select parse_level q (number b.seq recs)
          ≡⟨ ap₂ ◌++◌ (select-seen (drop k (ordered b)) (old k))
              (select-number b.seq recs (omega (arith, e)) bound) ⟩
            keep wanted (number b.seq recs) ∎)
        (append_all-seq recs b bound)
    where
      old : (k : ℕ) → All (SeenBy q.since) (drop k (ordered b))
      old k =
          All-drop (SeenBy q.since) k (ordered b)
            (All-mono (ordered b) (omega (arith, e)) v.counted)
