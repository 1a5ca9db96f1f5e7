-- ===== src/Logbuf/Ring/Window.antt =====
-- The ring keeps the last records: what `ordered` returns after any number of appends.
use native.Mathlib.Nat.{mod_self, mod-lt}
use native.Mathlib.Numerals.{add-one}
use ha_lua.Base.{
  ℕ, suc, zero, ◌+◌, ◌-◌, ◌%◌, ◌^◌, ◌<◌, ◌≤◌, ◌≡◌, refl, sym, ap, ap₂, ◌∙◌, ◌≡⟨◌⟩◌, ◌∎, ==_iff,
  true, false, ◌==◌, inl, inr, List, [], ◌∷◌, ◌++◌, arith, length, take, drop, set, length-append,
  length-set, length-drop, replicate, append_assoc, append-nil, Bool-cases, ℤ,
}
use ha_lua.Logbuf.Ring.{Record, Buffer, append, ordered, new, zero_record, capacity_of}

module _ {ℓ} {A : Type ℓ} where
  -- The last `n` elements.
  abbrev pub last : ℕ → List A → List A
  last n xs = drop (length xs - n) xs

  take-set :
      (i : ℕ) (v : A) (xs : List A)
      → i < length xs
      → take (suc i) (set xs i v) ≡ take i xs ++ v ∷ []
  take-set i v [] h = elim h [ ]
  take-set zero v (x ∷ xs) h = refl
  take-set (suc i) v (x ∷ xs) h = ap (λ l. x ∷ l) (take-set i v xs (omega arith))

  drop-set : (i : ℕ) (v : A) (xs : List A) → drop (suc i) (set xs i v) ≡ drop (suc i) xs
  drop-set i v [] = refl
  drop-set zero v (x ∷ xs) = refl
  drop-set (suc i) v (x ∷ xs) = drop-set i v xs

  take_all : (n : ℕ) (xs : List A) → length xs ≤ n → take n xs ≡ xs
  take_all zero [] h = refl
  take_all zero (x ∷ xs) h = absurd (omega arith)
  take_all (suc n) [] h = refl
  take_all (suc n) (x ∷ xs) h = ap (λ l. x ∷ l) (take_all n xs (omega arith))

  length-take : (n : ℕ) (xs : List A) → n ≤ length xs → length (take n xs) ≡ n
  length-take zero xs h = refl
  length-take (suc n) [] h = absurd (omega arith)
  length-take (suc n) (x ∷ xs) h = ap suc (length-take n xs (omega arith))

  pub drop-append : (n : ℕ) (xs ys : List A) → n ≤ length xs → drop n (xs ++ ys) ≡ drop n xs ++ ys
  drop-append zero xs ys h = refl
  drop-append (suc n) [] ys h = absurd (omega arith)
  drop-append (suc n) (x ∷ xs) ys h = drop-append n xs ys (omega arith)

  drop-nil : (n : ℕ) → drop {A = A} n [] ≡ []
  drop-nil zero = refl
  drop-nil (suc n) = refl

  drop_all : (n : ℕ) (xs : List A) → length xs ≤ n → drop n xs ≡ []
  drop_all n [] h = drop-nil n
  drop_all zero (x ∷ xs) h = absurd (omega arith)
  drop_all (suc n) (x ∷ xs) h = drop_all n xs (omega arith)

  drop-drop : (m n : ℕ) (xs : List A) → drop m (drop n xs) ≡ drop (n + m) xs
  drop-drop m zero xs = ap (λ k. drop k xs) (omega arith)
  drop-drop m (suc n) [] = drop-nil m ∙ sym (drop-nil (suc n + m))
  drop-drop m (suc n) (x ∷ xs) = drop-drop m n xs ∙ ap (λ k. drop k (x ∷ xs)) (suc_left n m)
    where
      suc_left : (n m : ℕ) → suc (n + m) ≡ suc n + m
      suc_left n m = omega arith

  -- Forgetting before an append does not show in the last `n`.
  pub last-append_last : (n : ℕ) (xs ys : List A) → last n (last n xs ++ ys) ≡ last n (xs ++ ys)
  last-append_last n xs ys =
      rw (← drop-append (length xs - n) xs ys (omega arith), drop-drop)
        (ap (λ k. drop k (xs ++ ys))
          (omega (arith, length-drop (length xs - n) (xs ++ ys), length-append xs ys)))

  last_all : (n : ℕ) (xs : List A) → length xs ≤ n → last n xs ≡ xs
  last_all n xs h = ap (λ k. drop k xs) (zero_of n (length xs) h)
    where
      zero_of : (n l : ℕ) → l ≤ n → l - n ≡ 0
      zero_of n l h = omega arith

-- The buffer after a write at `next`, by where the index goes.
unfoldable pub numbered : Buffer → Record → Record
numbered b rec = record rec { seq = (b.seq + 1) % 2 ^ 64 }

mod_step : (n c : ℕ) → n + 1 < c → (n + 1) % c ≡ suc n
mod_step n c h = grind arith

suc-ne_zero : (n : ℕ) → (suc n == 0) ≡ false
suc-ne_zero n = ground arith

mod_wrap : (n c : ℕ) → n + 1 ≡ c → (n + 1) % c ≡ 0
mod_wrap n c h = rw h (mod_self c)

ordered_full : (b : Buffer) → b.full ≡ true → ordered b ≡ drop b.next b.ring ++ take b.next b.ring
unfolding ordered
ordered_full b f = rw f

ordered_part : (b : Buffer) → b.full ≡ false → ordered b ≡ take b.next b.ring
unfolding ordered
ordered_part b f = rw f

module _ (b : Buffer) (rec : Record) (h : b.next < length b.ring) where
  -- The write reaches the end of the slice.
  ordered-append_wrap :
      b.next + 1 ≡ length b.ring
      → ordered (append rec b) ≡ take b.next b.ring ++ numbered b rec ∷ []
  unfolding ordered append numbered
  ordered-append_wrap e = rw (mod_wrap b.next (length b.ring) e) (
      append-nil _
      ∙ sym (take_all (suc b.next) _ (omega (arith, length-set b.ring b.next (numbered b rec))))
      ∙ take-set b.next (numbered b rec) b.ring h)

  ordered-append_full :
      b.full ≡ true
      → b.next + 1 < length b.ring
      → ordered (append rec b)
        ≡ drop (suc b.next) b.ring ++ (take b.next b.ring ++ numbered b rec ∷ [])
  unfolding ordered append numbered
  ordered-append_full f e =
      rw (mod_step b.next (length b.ring) e, suc-ne_zero b.next, f)
        (ap₂ ◌++◌ (drop-set b.next (numbered b rec) b.ring)
          (take-set b.next (numbered b rec) b.ring h))

  ordered-append_part :
      b.full ≡ false
      → b.next + 1 < length b.ring
      → ordered (append rec b) ≡ take b.next b.ring ++ numbered b rec ∷ []
  unfolding ordered append numbered
  ordered-append_part f e =
      rw (mod_step b.next (length b.ring) e, suc-ne_zero b.next, f)
        (take-set b.next (numbered b rec) b.ring h)

  last-full :
      last (length b.ring) ((drop b.next b.ring ++ take b.next b.ring) ++ numbered b rec ∷ [])
      ≡ drop (suc b.next) b.ring ++ (take b.next b.ring ++ numbered b rec ∷ [])
  last-full =
      last (length b.ring) ((drop b.next b.ring ++ take b.next b.ring) ++ numbered b rec ∷ [])
      ≡⟨ ap (λ k. drop k ((drop b.next b.ring ++ take b.next b.ring) ++ numbered b rec ∷ [])) one ⟩
        drop 1 ((drop b.next b.ring ++ take b.next b.ring) ++ numbered b rec ∷ [])
      ≡⟨ ap (drop 1) (append_assoc (drop b.next b.ring) (take b.next b.ring) _) ⟩
        drop 1 (drop b.next b.ring ++ (take b.next b.ring ++ numbered b rec ∷ []))
      ≡⟨ drop-append 1 (drop b.next b.ring) _ (omega (arith, length-drop b.next b.ring)) ⟩
        drop 1 (drop b.next b.ring) ++ (take b.next b.ring ++ numbered b rec ∷ [])
      ≡⟨ ap (λ l. l ++ (take b.next b.ring ++ numbered b rec ∷ [])) step ⟩
        drop (suc b.next) b.ring ++ (take b.next b.ring ++ numbered b rec ∷ []) ∎
    where
      one :
          length ((drop b.next b.ring ++ take b.next b.ring) ++ numbered b rec ∷ []) - length b.ring
          ≡ 1
      one = omega (
        arith,
        length-append (drop b.next b.ring ++ take b.next b.ring) (numbered b rec ∷ []),
        length-append (drop b.next b.ring) (take b.next b.ring),
        length-drop b.next b.ring,
        length-take b.next b.ring (omega arith),
      )

      step : drop 1 (drop b.next b.ring) ≡ drop (suc b.next) b.ring
      step = drop-drop 1 b.next b.ring ∙ ap (λ k. drop k b.ring) (add-one b.next)

  last-part :
      last (length b.ring) (take b.next b.ring ++ numbered b rec ∷ [])
      ≡ take b.next b.ring ++ numbered b rec ∷ []
  last-part = last_all (length b.ring) _ (
      omega (
        arith,
        length-append (take b.next b.ring) (numbered b rec ∷ []),
        length-take b.next b.ring (omega arith),
      ))

  last-wrap :
      b.next + 1 ≡ length b.ring
      → drop (suc b.next) b.ring ++ (take b.next b.ring ++ numbered b rec ∷ [])
        ≡ take b.next b.ring ++ numbered b rec ∷ []
  last-wrap e =
      ap (λ l. l ++ (take b.next b.ring ++ numbered b rec ∷ []))
        (drop_all (suc b.next) b.ring (omega arith))

  -- One append: the new record comes last, and the oldest goes once the ring is full.
  pub ordered-append :
      ordered (append rec b) ≡ last (length b.ring) (ordered b ++ numbered b rec ∷ [])
  ordered-append = elim (Bool-cases b.full) [
    | inl f ↦ elim (Bool-cases (b.next + 1 == length b.ring)) [
      | inl e ↦
          ordered-append_wrap ((==_iff _ _).0 e)
          ∙ sym (
              ap (λ l. last (length b.ring) (l ++ numbered b rec ∷ [])) (ordered_full b f)
              ∙ last-full
              ∙ last-wrap ((==_iff _ _).0 e))
      | inr e ↦
          ordered-append_full f (ground arith)
          ∙ sym (
              ap (λ l. last (length b.ring) (l ++ numbered b rec ∷ [])) (ordered_full b f)
              ∙ last-full)
    ]
    | inr f ↦ elim (Bool-cases (b.next + 1 == length b.ring)) [
      | inl e ↦
          ordered-append_wrap ((==_iff _ _).0 e)
          ∙ sym (
              ap (λ l. last (length b.ring) (l ++ numbered b rec ∷ [])) (ordered_part b f)
              ∙ last-part)
      | inr e ↦
          ordered-append_part f (ground arith)
          ∙ sym (
              ap (λ l. last (length b.ring) (l ++ numbered b rec ∷ [])) (ordered_part b f)
              ∙ last-part)
    ]
  ]

-- Appends in order, and the records with the numbers that they get.
unfoldable pub append_all : List Record → Buffer → Buffer
append_all [] b = b
append_all (r ∷ rs) b = append_all rs (append r b)

unfoldable pub number : ℕ → List Record → List Record
number s [] = []
number s (r ∷ rs) = record r { seq = (s + 1) % 2 ^ 64 } ∷ number ((s + 1) % 2 ^ 64) rs

pub length-append_ring : (b : Buffer) (r : Record) → length (append r b).ring ≡ length b.ring
unfolding append
length-append_ring b r = length-set b.ring b.next _

pub append-next_lt :
    (b : Buffer) (r : Record)
    → b.next < length b.ring
    → (append r b).next < length (append r b).ring
unfolding append
append-next_lt b r h =
    omega (arith, length-append_ring b r, mod-lt (b.next + 1) {m = length b.ring} (omega arith))

pub length-ordered-le : (b : Buffer) → b.next < length b.ring → length (ordered b) ≤ length b.ring
length-ordered-le b h = elim (Bool-cases b.full) [
  | inl f ↦ omega (
    arith,
    ap length (ordered_full b f),
    length-append (drop b.next b.ring) (take b.next b.ring),
    length-drop b.next b.ring,
    length-take b.next b.ring (omega arith),
  )
  | inr f ↦ omega (arith, ap length (ordered_part b f), length-take b.next b.ring (omega arith))
]

-- For a buffer whose write index is inside the ring, after any appends `ordered` is the end of
-- what it was followed by the new records, as long as the ring.
pub append_all-window :
    (recs : List Record) (b : Buffer)
    → b.next < length b.ring
    → ordered (append_all recs b) ≡ last (length b.ring) (ordered b ++ number b.seq recs)
unfolding append_all number numbered append
append_all-window [] b h = sym (
    ap (last (length b.ring)) (append-nil (ordered b))
    ∙ last_all (length b.ring) (ordered b) (length-ordered-le b h))
append_all-window (r ∷ rs) b h =
    ordered (append_all rs (append r b))
    ≡⟨ append_all-window rs (append r b) (append-next_lt b r h) ⟩
      last (length (append r b).ring) (ordered (append r b) ++ later)
    ≡⟨ ap₂ (λ c l. last c (l ++ later)) (length-append_ring b r) (ordered-append b r h) ⟩
      last (length b.ring) (last (length b.ring) (ordered b ++ numbered b r ∷ []) ++ later)
    ≡⟨ last-append_last (length b.ring) (ordered b ++ numbered b r ∷ []) later ⟩
      last (length b.ring) ((ordered b ++ numbered b r ∷ []) ++ later)
    ≡⟨ ap (last (length b.ring)) (append_assoc (ordered b) (numbered b r ∷ []) later) ⟩
      last (length b.ring) (ordered b ++ number b.seq (r ∷ rs)) ∎
  where
    later : List Record
    later = number (append r b).seq rs

capacity_of_pos : (capacity : ℤ) → 0 < capacity_of capacity
capacity_of_pos (ℤ.pos n) = ground arith
capacity_of_pos (ℤ.negsuc n) = omega arith

length-replicate : (n : ℕ) (r : Record) → length (replicate n r) ≡ n
length-replicate zero r = refl
length-replicate (suc n) r = ap suc (length-replicate n r)

-- After any records are appended to a new buffer, `ordered` returns the last of them, numbered from
-- 1 in the order of their appends, as many as the capacity (500 for one that is not positive).
pub ordered-append_all :
    (capacity : ℤ) (recs : List Record)
    → ordered (append_all recs (new capacity)) ≡ last (capacity_of capacity) (number 0 recs)
unfolding new ordered
ordered-append_all capacity recs =
    unfold new ordered in
    (append_all-window recs (new capacity) positive ∙ ap (λ c. last c (number 0 recs)) size)
  where
    size : length (replicate (capacity_of capacity) zero_record) ≡ capacity_of capacity
    size = length-replicate (capacity_of capacity) zero_record

    positive : 0 < length (replicate (capacity_of capacity) zero_record)
    positive = omega (arith, size, capacity_of_pos capacity)
