-- ===== src/Base/Sorts.antt =====
-- `sort.Strings` and `sort.Slice`: insertion by a strict order.
use mathlib.Core.Path.{◌≡◌, refl}
use mathlib.Core.Bool.{Bool, true, false}
use mathlib.Core.List.{List, [], ◌∷◌}
use native.Mathlib.Omega.{arith}
use ha_lua.Base.Bools.{if◌then◌else◌, Bool-cases}
use ha_lua.Base.Counts.{SameItems}
use ha_lua.Base.Texts.{Text, text_lt}
use mathlib.Core.Logic.{inl, inr}

module _ {ℓ} {A : Type ℓ} (lt : A → A → Bool) where
  unfoldable pub insert_by : A → List A → List A
  insert_by x [] = x ∷ []
  insert_by x (y ∷ ys) = if lt x y then x ∷ y ∷ ys else y ∷ insert_by x ys

  unfoldable pub sort_by : List A → List A
  sort_by [] = []
  sort_by (x ∷ xs) = insert_by x (sort_by xs)

  abbrev pub IsHeadSorted : A → List A → Type 0
  IsHeadSorted x [] = Unit
  IsHeadSorted x (y ∷ ys) = lt y x ≡ false

  -- No element is followed by a lesser one.
  abbrev pub IsSorted : List A → Type 0
  IsSorted [] = Unit
  IsSorted (x ∷ xs) = IsHeadSorted x xs × IsSorted xs

  insert_by-SameItems : (x : A) (xs : List A) → SameItems (insert_by x xs) (x ∷ xs)
  unfolding insert_by
  insert_by-SameItems x [] p = refl
  insert_by-SameItems x (y ∷ ys) p = ground (arith, insert_by-SameItems x ys p)

  pub sort_by-SameItems : (xs : List A) → SameItems (sort_by xs) xs
  unfolding sort_by
  sort_by-SameItems [] p = refl
  sort_by-SameItems (x ∷ xs) p =
      ground (arith, insert_by-SameItems x (sort_by xs) p, sort_by-SameItems xs p)

  insert_by_head :
      (x y : A) (ys : List A) → lt x y ≡ false → IsHeadSorted y ys → IsHeadSorted y (insert_by x ys)
  unfolding insert_by
  insert_by_head x y [] h s = h
  insert_by_head x y (z ∷ zs) h s = elim (Bool-cases (lt x z)) [
    | inl less ↦ rw less h
    | inr other ↦ rw other s
  ]

  insert_by-IsSorted :
      ((a b : A) → lt a b ≡ true → lt b a ≡ false)
      → (x : A) (xs : List A) → IsSorted xs
      → IsSorted (insert_by x xs)
  unfolding insert_by
  insert_by-IsSorted asym x [] s = (tt, tt)
  insert_by-IsSorted asym x (y ∷ ys) s = elim (Bool-cases (lt x y)) [
    | inl less ↦ rw less (asym x y less, s)
    | inr other ↦ rw other (insert_by_head x y ys other s.0, insert_by-IsSorted asym x ys s.1)
  ]

  pub sort_by-IsSorted :
      ((a b : A) → lt a b ≡ true → lt b a ≡ false) → (xs : List A) → IsSorted (sort_by xs)
  unfolding sort_by
  sort_by-IsSorted asym [] = tt
  sort_by-IsSorted asym (x ∷ xs) = insert_by-IsSorted asym x (sort_by xs) (sort_by-IsSorted asym xs)

pub text_lt_asym : (a b : Text) → text_lt a b ≡ true → text_lt b a ≡ false
unfolding text_lt
text_lt_asym a [] h = ground (arith, h)
text_lt_asym [] (y ∷ ys) h = refl
text_lt_asym (x ∷ xs) (y ∷ ys) h = ground (arith, h, text_lt_asym xs ys)
