-- ===== src/Syslog/Elements.antt =====
-- Structured data of RFC 5424 as a grammar, and what skipping it leaves.
use ha_lua.Base.{
  ℕ, suc, zero, ◌+◌, ◌≤◌, ◌<◌, ◌≡◌, ◌≢◌, refl, ap, ◌∙◌, true, false, List, [], ◌∷◌, ◌++◌,
  append_assoc, none, some, Text, has_prefix, length, length-append, drop, codes, All, arith,
  Option-cases, Bool-cases, length-drop, inl, inr,
}
use ha_lua.Syslog.{element_end_from, element_end, skip_elements, skip_structured_data}

-- What a quoted value holds, and what an element holds between its brackets.
pub data Inner : Type 0 where
  letter escape : ℕ → Inner

pub data Piece : Type 0 where
  bare : ℕ → Piece
  pair : ℕ → Piece
  quotation : List Inner → Piece

-- A bare quote or backslash has its own meaning, and outside of quotes so does a closing bracket.
abbrev pub IsInner : Inner → Type 0
IsInner (letter c) = (c ≢ 34) × (c ≢ 92)
IsInner (escape c) = Unit

abbrev pub IsPiece : Piece → Type 0
IsPiece (bare c) = (c ≢ 34) × (c ≢ 92) × (c ≢ 93)
IsPiece (pair c) = Unit
IsPiece (quotation ps) = All IsInner ps

unfoldable pub print_inner : List Inner → Text
print_inner [] = []
print_inner (letter c ∷ ps) = c ∷ print_inner ps
print_inner (escape c ∷ ps) = 92 ∷ c ∷ print_inner ps

unfoldable pub print_pieces : List Piece → Text
print_pieces [] = []
print_pieces (bare c ∷ ps) = c ∷ print_pieces ps
print_pieces (pair c ∷ ps) = 92 ∷ c ∷ print_pieces ps
print_pieces (quotation inner ∷ ps) = 34 ∷ print_inner inner ++ 34 ∷ print_pieces ps

unfoldable pub print_elements : List (List Piece) → Text
print_elements [] = []
print_elements (ps ∷ es) = 91 ∷ print_pieces ps ++ 93 ∷ print_elements es

-- Structured data: "-" for none, or elements.
unfoldable pub print_data : List (List Piece) → Text
print_data [] = codes "-"
print_data (ps ∷ es) = print_elements (ps ∷ es)

inner-end :
    (ps : List Inner) (i : ℕ) (rest : Text)
    → All IsInner ps
    → element_end_from false true i (print_inner ps ++ rest)
      ≡ element_end_from false true (i + length (print_inner ps)) rest
unfolding print_inner element_end_from
inner-end [] i rest h = ground arith
inner-end (letter c ∷ ps) i rest h = ground (arith, inner-end ps (i + 1) rest h.1, h.0)
inner-end (escape c ∷ ps) i rest h = ground (arith, inner-end ps (i + 1 + 1) rest h.1)

quote_closes :
    (i : ℕ) (rest : Text)
    → element_end_from false true i (34 ∷ rest) ≡ element_end_from false false (i + 1) rest
unfolding element_end_from
quote_closes i rest = refl

pieces-end :
    (ps : List Piece) (i : ℕ) (rest : Text)
    → All IsPiece ps
    → element_end_from false false i (print_pieces ps ++ rest)
      ≡ element_end_from false false (i + length (print_pieces ps)) rest
unfolding print_pieces element_end_from
pieces-end [] i rest h = ground arith
pieces-end (bare c ∷ ps) i rest h = ground (arith, pieces-end ps (i + 1) rest h.1, h.0)
pieces-end (pair c ∷ ps) i rest h = ground (arith, pieces-end ps (i + 1 + 1) rest h.1)
pieces-end (quotation inner ∷ ps) i rest h = ground (
  arith,
  append_assoc (print_inner inner) (34 ∷ print_pieces ps) rest,
  inner-end inner (i + 1) (34 ∷ print_pieces ps ++ rest) h.0,
  quote_closes (i + 1 + length (print_inner inner)) (print_pieces ps ++ rest),
  pieces-end ps (i + 1 + length (print_inner inner) + 1) rest h.1,
  length-append (print_inner inner) (34 ∷ print_pieces ps),
)

-- The bracket that closes an element is the first that is neither quoted nor escaped.
element_end-print :
    (ps : List Piece) (rest : Text)
    → All IsPiece ps
    → element_end (91 ∷ print_pieces ps ++ 93 ∷ rest) ≡ some (1 + length (print_pieces ps))
unfolding element_end
element_end-print ps rest h = pieces-end ps 1 (93 ∷ rest) h ∙ unfold element_end_from in refl

drop-body : (body rest : Text) → drop (suc (length body)) (body ++ 93 ∷ rest) ≡ rest
drop-body [] rest = refl
drop-body (c ∷ body) rest = drop-body body rest

drop-element : (body rest : Text) → drop (1 + length body + 1) (91 ∷ body ++ 93 ∷ rest) ≡ rest
drop-element body rest =
    let count : 1 + length body + 1 ≡ suc (suc (length body)) = omega arith in
    ap (λ n. drop n (91 ∷ body ++ 93 ∷ rest)) count ∙ drop-body body rest

skip_step :
    (fuel i : ℕ) (s : Text)
    → element_end s ≡ some i
    → has_prefix s (codes "[") ≡ true
    → skip_elements (suc fuel) s ≡ skip_elements fuel (drop (i + 1) s)
unfolding skip_elements
skip_step fuel i s e h = ground (arith, e, h)

skip_unclosed :
    (fuel : ℕ) (s : Text)
    → element_end s ≡ none
    → has_prefix s (codes "[") ≡ true
    → skip_elements (suc fuel) s ≡ []
unfolding skip_elements
skip_unclosed fuel s e h = ground (arith, e, h)

skip_left :
    (fuel : ℕ) (s : Text) → has_prefix s (codes "[") ≡ false → skip_elements (suc fuel) s ≡ s
unfolding skip_elements
skip_left fuel s h = ground (arith, h)

skip-print :
    (es : List (List Piece)) (fuel : ℕ) (rest : Text)
    → All (All IsPiece) es
    → has_prefix rest (codes "[") ≡ false
    → length es < fuel
    → skip_elements fuel (print_elements es ++ rest) ≡ rest
unfolding print_elements
skip-print es zero rest h bracket enough = ground arith
skip-print [] (suc fuel) rest h bracket enough = skip_left fuel rest bracket
skip-print (ps ∷ es) (suc fuel) rest h bracket enough =
    let more = print_elements es ++ rest in
    let body = print_pieces ps in
    ap (λ s. skip_elements (suc fuel) (91 ∷ s)) (append_assoc body (93 ∷ print_elements es) rest)
    ∙ skip_step fuel (1 + length body) (91 ∷ body ++ 93 ∷ more) (element_end-print ps more h.0)
        (unfold has_prefix in refl)
    ∙ ap (skip_elements fuel) (drop-element body more)
    ∙ skip-print es fuel rest h.1 bracket (omega (arith, enough))

-- Enough fuel skips every element.
skip_stops :
    (fuel : ℕ) (s : Text) → length s < fuel → has_prefix (skip_elements fuel s) (codes "[") ≡ false
skip_stops zero s enough = ground arith
skip_stops (suc fuel) [] enough =
    rw (skip_left fuel [] (unfold has_prefix in refl)) (unfold has_prefix in refl)
skip_stops (suc fuel) (c ∷ s) enough = elim (Bool-cases (has_prefix (c ∷ s) (codes "["))) [
  | inr other ↦ rw (skip_left fuel (c ∷ s) other) other
  | inl bracket ↦ elim (Option-cases (element_end (c ∷ s))) [
    | inl unclosed ↦ rw (skip_unclosed fuel (c ∷ s) unclosed bracket) (unfold has_prefix in refl)
    | inr (i, closed) ↦ rw (skip_step fuel i (c ∷ s) closed bracket) (
        skip_stops fuel (drop (i + 1) (c ∷ s)) (omega (arith, enough, length-drop (i + 1) (c ∷ s))))
  ]
]

length-print_elements : (es : List (List Piece)) → length es ≤ length (print_elements es)
unfolding print_elements
length-print_elements [] = omega arith
length-print_elements (ps ∷ es) =
    omega
      (arith, length-append (print_pieces ps) (93 ∷ print_elements es), length-print_elements es)

skip_undashed :
    (s : Text)
    → has_prefix s (codes "-") ≡ false
    → skip_structured_data s ≡ skip_elements (suc (length s)) s
unfolding skip_structured_data
skip_undashed s h = ground (arith, h)

pub skip-print_data :
    (es : List (List Piece)) (rest : Text)
    → All (All IsPiece) es
    → has_prefix rest (codes "[") ≡ false
    → skip_structured_data (print_data es ++ rest) ≡ rest
unfolding print_data
skip-print_data [] rest h bracket = unfold skip_structured_data has_prefix in refl
skip-print_data (ps ∷ es) rest h bracket =
    let s = print_elements (ps ∷ es) ++ rest in
    skip_undashed s (unfold print_elements has_prefix in refl)
    ∙ skip-print (ps ∷ es) (suc (length s)) rest h bracket (
        omega
          (arith, length-print_elements (ps ∷ es), length-append (print_elements (ps ∷ es)) rest))

-- Structured data is skipped as a whole, whatever its quoted values hold, when the message after it does not start with a
-- bracket; and for any text that does not start with "-" no element is left at the start.
pub skip_structured_data_lem :
    (es : List (List Piece)) (rest s : Text)
    → All (All IsPiece) es
    → has_prefix rest (codes "[") ≡ false
    → (skip_structured_data (print_data es ++ rest) ≡ rest)
      × (has_prefix s (codes "-") ≡ false → has_prefix (skip_structured_data s) (codes "[") ≡ false)
skip_structured_data_lem es rest s h bracket = (
  skip-print_data es rest h bracket,
  λ dash. rw (skip_undashed s dash) (skip_stops (suc (length s)) s (omega arith)),
)
