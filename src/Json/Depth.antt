-- ===== src/Json/Depth.antt =====
-- Which Lua values have a JSON value.
use ha_lua.Base.{
  ℕ, zero, suc, ◌+◌, ◌≤◌, ◌<◌, pos, negsuc, ◌≡◌, ◌↔◌, refl, ap, ◌∙◌, true, ◌&&◌, ltb, ◌==◌, List,
  [], ◌∷◌, length, All, All-imp, Member, All-member, member-All, arith, Result-cases, inl, inr,
  Result, ok, err, err-ok, subst, dec_le, if-elim,
}
use ha_lua.Json.{
  Value, nil, other, boolean, number, string, table, Key, whole, value, Tables, IsTables, Any,
  Items, item, Members, null, array, object, no_members, Error, put, is_index, all_indices,
  elements, members, as_array, as_object, table_to_any, to_any, lua_to_any,
}

-- Tables nest at most so deep, and every value is of a type that JSON has.
abbrev pub Fits : Tables → ℕ → Value → Type 0
Fits h n nil = Unit
Fits h n other = ⊥
Fits h n (boolean b) = Unit
Fits h n (number x) = Unit
Fits h n (string s) = Unit
Fits h zero (table t) = ⊥
Fits h (suc n) (table t) = All (λ e. Fits h n e.1) (h.entries t)

abbrev IsOk {ℓ} : {A : Type ℓ} → Result Error A → Type ℓ
IsOk {A = A} r = (a : A) × (r ≡ ok a)

array-IsOk : (r : Result Error Items) → IsOk (as_array r) → IsOk r
array-IsOk (err e) (a, bad) = absurd (err-ok bad)
array-IsOk (ok items) good = (items, refl)

object-IsOk : (r : Result Error Members) → IsOk (as_object r) → IsOk r
object-IsOk (err e) (a, bad) = absurd (err-ok bad)
object-IsOk (ok found) good = (found, refl)

module _ (h : Tables) (convert : Value → Result Error Any) where
  members-IsOk :
      (entries : List (Key × Value)) (obj : Members)
      → All (λ e. IsOk (convert e.1)) entries
      → IsOk (members h convert entries obj)
  unfolding members
  members-IsOk [] obj all = (obj, refl)
  members-IsOk ((k, v) ∷ entries) obj all =
      let (a, fine) = all.0 in
      let (found, e) = members-IsOk entries (put (h.key_text k) a obj) all.1 in
      (found, rw (members, fine) e)

  members-All :
      (entries : List (Key × Value)) (obj : Members)
      → IsOk (members h convert entries obj)
      → All (λ e. IsOk (convert e.1)) entries
  unfolding members
  members-All [] obj good = tt
  members-All ((k, v) ∷ entries) obj (found, e) = elim (Result-cases (convert v)) [
    | inl (a, fine) ↦
        ((a, fine), members-All entries (put (h.key_text k) a obj) (found, rw (members, fine) at e))
    | inr (x, bad) ↦ absurd (err-ok (rw (members, bad) at e))
  ]

  elements-IsOk :
      (t i left : ℕ)
      → ((j : ℕ) → i ≤ j → j < i + left → IsOk (convert (h.get_int t j)))
      → IsOk (elements h convert t i left)
  unfolding elements
  elements-IsOk t i zero good = (_, refl)
  elements-IsOk t i (suc left) good =
      let (a, fine) = good i (omega arith) (omega arith) in
      let (items, e) =
        elements-IsOk t (i + 1) left
          (λ j low high. good j (omega (arith, low)) (omega (arith, high))) in
      (item a items, rw (elements, fine, e) refl)

  elements-each :
      (t i left j : ℕ)
      → IsOk (elements h convert t i left)
      → i ≤ j
      → j < i + left
      → IsOk (convert (h.get_int t j))
  unfolding elements
  elements-each t i zero j good low high = absurd (omega (arith, low, high))
  elements-each t i (suc left) j (items, e) low high =
      elim (Result-cases (convert (h.get_int t i))) [
        | inr (x, bad) ↦ absurd (err-ok (rw (elements, bad) at e))
        | inl (a, fine) ↦ elim (Result-cases (elements h convert t (i + 1) left)) [
          | inr (x, bad) ↦ absurd (err-ok (rw (elements, fine, bad) at e))
          | inl (rest, well) ↦ elim (dec_le (i + 1) j) [
            | yes later ↦ elements-each t (i + 1) left j (rest, well) later (omega (arith, high))
            | no now ↦
                let same : i ≡ j = omega (arith, low, now) in
                subst (λ k. IsOk (convert (h.get_int t k))) same (a, fine)
          ]
        ]
      ]

  is_index_lem :
      (n : ℕ) (k : Key) → is_index n k ≡ true → (i : ℕ) × (k ≡ whole (pos i)) × (1 ≤ i) × (i ≤ n)
  unfolding is_index
  is_index_lem n (whole (pos i)) e = (i, refl, ground (arith, e), ground (arith, e))
  is_index_lem n (whole (negsuc i)) e = cc
  is_index_lem n (value v) e = cc

  -- An entry of a table whose keys are all indices.
  index_of :
      (n : ℕ) (entries : List (Key × Value)) (k : Key) (v : Value)
      → all_indices n entries ≡ true
      → Member (k, v) entries
      → (i : ℕ) × (k ≡ whole (pos i)) × (1 ≤ i) × (i ≤ n)
  unfolding all_indices
  index_of n [] k v all m = absurd m
  index_of n ((j, w) ∷ entries) k v all (inl e) =
      let same : k ≡ j = ap (λ (x : Key × Value). x.0) e in
      let (i, whole_key, low, high) = is_index_lem n j (ground (arith, all)) in
      (i, same ∙ whole_key, low, high)
  index_of n ((j, w) ∷ entries) k v all (inr m) = index_of n entries k v (ground (arith, all)) m

  read_ok :
      (t j : ℕ)
      → IsTables h
      → convert nil ≡ ok null
      → All (λ e. IsOk (convert e.1)) (h.entries t)
      → IsOk (convert (h.get_int t j))
  read_ok t j laws none_ok all = elim (laws.read t j) [
    | inl empty ↦ (null, rw empty none_ok)
    | inr m ↦ All-member (λ (e : Key × Value). IsOk (convert e.1)) (h.entries t) all _ m
  ]

  pub table-IsOk :
      (t : ℕ)
      → IsTables h
      → convert nil ≡ ok null
      → All (λ e. IsOk (convert e.1)) (h.entries t)
      → IsOk (table_to_any h convert t)
  unfolding table_to_any
  table-IsOk t laws none_ok all =
      let n = h.max_n t in
      let entries = h.entries t in
      if-elim IsOk (ltb 0 n && (all_indices n entries && (length entries == n))) _ _
        (λ shape.
          let (items, e) = elements-IsOk t 1 n (λ j low high. read_ok t j laws none_ok all) in
          (array items, rw e refl))
        (λ other_shape.
          let (found, e) = members-IsOk entries no_members all in (object found, rw e refl))

  pub table-All :
      (t : ℕ)
      → IsTables h
      → IsOk (table_to_any h convert t)
      → All (λ e. IsOk (convert e.1)) (h.entries t)
  unfolding table_to_any
  table-All t laws =
      let n = h.max_n t in
      let entries = h.entries t in
      if-elim (λ (r : Result Error Any). IsOk r → All (λ e. IsOk (convert e.1)) entries)
        (ltb 0 n && (all_indices n entries && (length entries == n)))
        (as_array (elements h convert t 1 n)) (as_object (members h convert entries no_members))
        (λ shape good. member-All _ entries (λ e m.
          let (i, key, low, high) = index_of n entries e.0 e.1 (ground (arith, shape)) m in
          let listed : Member (whole (pos i), e.1) entries =
            subst (λ k. Member (k, e.1) entries) key m in
          subst (λ v. IsOk (convert v)) (laws.listed t i e.1 listed)
            (elements-each t 1 n i (array-IsOk _ good) low (omega (arith, high)))))
        (λ other_shape good. members-All entries no_members (object-IsOk _ good))

module _ (h : Tables) (laws : IsTables h) where
  nil-ok : (n : ℕ) → to_any h n nil ≡ ok null
  unfolding to_any
  nil-ok n = refl

  to_any_iff : (n : ℕ) (v : Value) → IsOk (to_any h n v) ↔ Fits h n v
  unfolding to_any
  to_any_iff n nil = (λ good. tt, λ fits. (_, refl))
  to_any_iff n other = (λ (a, bad). err-ok bad, λ fits. absurd fits)
  to_any_iff n (boolean b) = (λ good. tt, λ fits. (_, refl))
  to_any_iff n (number x) = (λ good. tt, λ fits. (_, refl))
  to_any_iff n (string s) = (λ good. tt, λ fits. (_, refl))
  to_any_iff zero (table t) = (λ (a, bad). err-ok bad, λ fits. absurd fits)
  to_any_iff (suc n) (table t) = (
    λ good.
        All-imp _ _ (h.entries t) (λ e. (to_any_iff n e.1).0)
          (table-All h (to_any h n) t laws good),
    λ fits.
        table-IsOk h (to_any h n) t laws (nil-ok n)
          (All-imp _ _ (h.entries t) (λ e. (to_any_iff n e.1).1) fits),
  )

  -- Along a chain of tables, each of which holds the next, nothing fits.
  endless :
      (chain : ℕ → ℕ)
      → ((i : ℕ) → (k : Key) × Member (k, table (chain (suc i))) (h.entries (chain i)))
      → (n i : ℕ) → Fits h n (table (chain i))
      → ⊥
  endless chain next zero i fits = fits
  endless chain next (suc n) i fits =
      let (k, m) = next i in
      endless chain next n (suc i)
        (All-member (λ (e : Key × Value). Fits h n e.1) (h.entries (chain i)) fits _ m)

  -- A Lua value is converted exactly when its tables nest at most a hundred deep and hold only types that JSON has; so a table from which
  -- one can go on to further tables without end, as from one that reaches itself, is never converted.
  pub lua_to_any_iff :
      (v : Value)
      → (((a : Any) × (lua_to_any h v ≡ ok a)) ↔ Fits h 100 v)
        × ¬ (
            (a : Any) × (chain : ℕ → ℕ) × (lua_to_any h (table (chain 0)) ≡ ok a)
            × ((i : ℕ) → (k : Key) × Member (k, table (chain (suc i))) (h.entries (chain i))))
  unfolding lua_to_any
  lua_to_any_iff v = (
    to_any_iff 100 v,
    λ (a, chain, good, next).
        endless chain next 100 0 ((to_any_iff 100 (table (chain 0))).0 (a, good)),
  )
