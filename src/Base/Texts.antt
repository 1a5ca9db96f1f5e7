-- ===== src/Base/Texts.antt =====
-- Go strings: sequences of bytes, with the operations of package strings that the source uses.
use Prim.Native.Char.{code}
use Prim.Native.String.{String}
use Prim.Native.Nat.{ℕ, suc}
use mathlib.Core.Path.{◌≡◌, refl, ap, sym, ◌∙◌}
use mathlib.Core.Logic.{◌↔◌, ◌≢◌}
use mathlib.Core.Bool.{Bool, true, false, ◌&&◌, ◌||◌}
use mathlib.Core.Option.{Option, none, some}
use mathlib.Core.Option as Option
use mathlib.Core.List.{List, [], ◌∷◌, ◌++◌}
use native.Mathlib.Omega.{arith}
use ha_lua.Base.Lists.{length, drop}
use ha_lua.Base.Bools.{◌==◌, ltb, if◌then◌else◌}

abbrev pub Text : Type 0
Text = List ℕ

-- The bytes of an ASCII literal. `String` has its own `[]` and `∷`.
abbrev pub codes : String → Text
codes String.[] = []
codes (String.◌∷◌ c s) = code c ∷ codes s

-- `a == b` on strings
unfoldable pub text_eq : Text → Text → Bool
text_eq [] [] = true
text_eq [] (y ∷ ys) = false
text_eq (x ∷ xs) [] = false
text_eq (x ∷ xs) (y ∷ ys) = x == y && text_eq xs ys

pub text_eq_iff : (a b : Text) → (text_eq a b ≡ true) ↔ (a ≡ b)
unfolding text_eq
text_eq_iff [] [] = ground arith
text_eq_iff [] (y ∷ ys) = ground arith
text_eq_iff (x ∷ xs) [] = ground arith
text_eq_iff (x ∷ xs) (y ∷ ys) = ground (arith, text_eq_iff xs ys)

pub text_eq_refl : (a : Text) → text_eq a a ≡ true
text_eq_refl a = (text_eq_iff a a).1 refl

-- `s == ""`
abbrev pub is_empty : Text → Bool
is_empty [] = true
is_empty (c ∷ s) = false

-- `strings.HasPrefix(s, prefix)`
unfoldable pub has_prefix : Text → Text → Bool
has_prefix s [] = true
has_prefix [] (p ∷ ps) = false
has_prefix (c ∷ s) (p ∷ ps) = c == p && has_prefix s ps

pub has_prefix_iff : (s p : Text) → (has_prefix s p ≡ true) ↔ ((rest : Text) × (s ≡ p ++ rest))
unfolding has_prefix
has_prefix_iff s [] = (λ _. (s, refl), λ _. refl)
has_prefix_iff [] (p ∷ ps) = (λ h. cc, λ h. cc (h.1))
has_prefix_iff (c ∷ s) (p ∷ ps) =
    let (to, from) = has_prefix_iff s ps in
    (
      λ h. let (rest, e) = to (ground arith) in (rest, ground arith),
      λ h. ground (arith, h.1, from (h.0, ground (arith, h.1))),
    )

-- `strings.IndexByte(s, c) >= 0`
unfoldable pub has_byte : ℕ → Text → Bool
has_byte c [] = false
has_byte c (d ∷ s) = d == c || has_byte c s

-- Glues a byte to the first field of a split text.
unfoldable pub glue : ℕ → List Text → List Text
glue d [] = (d ∷ []) ∷ []
glue d (w ∷ ws) = (d ∷ w) ∷ ws

-- `strings.Split(s, sep)` for a separator of one byte
unfoldable pub split : ℕ → Text → List Text
split sep [] = [] ∷ []
split sep (d ∷ s) = if d == sep then [] ∷ split sep s else glue d (split sep s)

-- `strings.Join(fields, sep)`
unfoldable pub join : ℕ → List Text → Text
join sep [] = []
join sep (w ∷ []) = w
join sep (w ∷ v ∷ ws) = w ++ sep ∷ join sep (v ∷ ws)

join-glue :
    (sep d : ℕ) (w : Text) (ws : List Text) → join sep (glue d (w ∷ ws)) ≡ d ∷ join sep (w ∷ ws)
unfolding glue join
join-glue sep d w [] = refl
join-glue sep d w (v ∷ ws) = refl

join-nil-cons : (sep : ℕ) (ws : List Text) → ws ≢ [] → join sep ([] ∷ ws) ≡ sep ∷ join sep ws
unfolding join
join-nil-cons sep [] h = absurd (h refl)
join-nil-cons sep (v ∷ ws) h = refl

join-glue_ne : (sep d : ℕ) (ws : List Text) → ws ≢ [] → join sep (glue d ws) ≡ d ∷ join sep ws
join-glue_ne sep d [] h = absurd (h refl)
join-glue_ne sep d (w ∷ ws) h = join-glue sep d w ws

pub split-ne-nil : (sep : ℕ) (s : Text) → split sep s ≢ []
unfolding split glue
split-ne-nil sep [] = cc
split-ne-nil sep (d ∷ s) = ground (arith, split-ne-nil sep s)

-- Splitting loses nothing.
pub join-split : (sep : ℕ) (s : Text) → join sep (split sep s) ≡ s
unfolding split
join-split sep [] = unfold join in refl
join-split sep (d ∷ s) = ground (
  arith,
  join-split sep s,
  join-nil-cons sep (split sep s) (split-ne-nil sep s),
  join-glue_ne sep d (split sep s) (split-ne-nil sep s),
)

pub split-injective : (sep : ℕ) (s t : Text) → split sep s ≡ split sep t → s ≡ t
split-injective sep s t e = sym (join-split sep s) ∙ ap (join sep) e ∙ join-split sep t

-- `a < b` on strings: byte by byte
unfoldable pub text_lt : Text → Text → Bool
text_lt a [] = false
text_lt [] (y ∷ ys) = true
text_lt (x ∷ xs) (y ∷ ys) = if x == y then text_lt xs ys else ltb x y

-- `strings.Cut(s, sep)` for a separator of one byte: what stands before and after, and whether it was found
unfoldable pub cut : ℕ → Text → Text × Text × Bool
cut sep [] = ([], [], false)
cut sep (d ∷ s) =
    let (before, after, found) = cut sep s in
    if d == sep then ([], s, true) else (d ∷ before, after, found)

-- `strings.IndexByte(s, c)`
unfoldable pub index_byte : ℕ → Text → Option ℕ
index_byte c [] = none
index_byte c (d ∷ s) = if d == c then some 0 else Option.map suc (index_byte c s)

-- `strings.TrimPrefix(s, prefix)`
unfoldable pub trim_prefix : Text → Text → Text
trim_prefix s prefix = if has_prefix s prefix then drop (length prefix) s else s

drop-prefix : (p s : Text) → drop (length p) (p ++ s) ≡ s
drop-prefix [] s = refl
drop-prefix (c ∷ p) s = drop-prefix p s

pub trim_prefix-append : (p s : Text) → trim_prefix (p ++ s) p ≡ s
unfolding trim_prefix
trim_prefix-append p s =
    let has : has_prefix (p ++ s) p ≡ true = (has_prefix_iff (p ++ s) p).1 (s, refl) in
    rw (has, drop-prefix p s) refl

pub cut-append :
    (sep : ℕ) (f s : Text) → has_byte sep f ≡ false → cut sep (f ++ (sep ∷ s)) ≡ (f, s, true)
unfolding cut has_byte
cut-append sep [] s h = ground (arith, h)
cut-append sep (c ∷ f) s h = ground (arith, h, cut-append sep f s)
