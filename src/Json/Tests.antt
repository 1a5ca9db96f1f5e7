-- ===== src/Json/Tests.antt =====
-- A list of one string, and a table that holds itself.
use ha_lua.Base.{
  ℕ, zero, suc, ◌≡◌, ◌↔◌, ◌⊎◌, refl, ap, ℤ, pos, ◌==◌, List, [], ◌∷◌, codes, Member, inl, inr,
  arith, if◌then◌else◌, Bool-cases, ok,
}
use ha_lua.Json.{Value, nil, string, table, Key, whole, value, Tables, IsTables, Any, lua_to_any}
use ha_lua.Json.Depth.{Fits, lua_to_any_iff}

abbrev entries : ℕ → List (Key × Value)
entries zero = (whole (pos 1), string (codes "x")) ∷ []
entries (suc t) = (value (string (codes "self")), table 1) ∷ []

abbrev get_int : ℕ → ℕ → Value
get_int zero i = if i == 1 then string (codes "x") else nil
get_int (suc t) i = nil

abbrev tables : Tables
tables = record { entries = entries; max_n = λ t. 1; get_int = get_int; key_text = λ k. codes "k" }

abbrev index : Key → ℕ
index (whole (pos i)) = i
index _ = 0

whole-value : {i : ℤ} {v : Value} → whole i ≡ value v → ⊥
whole-value e = cc

listed : (t i : ℕ) (v : Value) → Member (whole (pos i), v) (entries t) → get_int t i ≡ v
listed zero i v (inl e) =
    let one : i ≡ 1 = ap (λ (p : Key × Value). index p.0) e in
    let same : v ≡ string (codes "x") = ap (λ (p : Key × Value). p.1) e in ground (arith, one, same)
listed zero i v (inr m) = absurd m
listed (suc t) i v (inr m) = absurd m
listed (suc t) i v (inl e) = absurd (whole-value (ap (λ (p : Key × Value). p.0) e))

read : (t i : ℕ) → (get_int t i ≡ nil) ⊎ Member (whole (pos i), get_int t i) (entries t)
read zero i = elim (Bool-cases (i == 1)) [
  | inl one ↦ inr (inl (ground (arith, one)))
  | inr more ↦ inl (ground (arith, more))
]
read (suc t) i = inl refl

tables-IsTables : IsTables tables
tables-IsTables = record { listed = listed; read = read }

lua_to_any_iff_example :
    (((a : Any) × (lua_to_any tables (table 0) ≡ ok a)) ↔ Fits tables 100 (table 0))
    × ¬ (
        (a : Any) × (chain : ℕ → ℕ) × (lua_to_any tables (table (chain 0)) ≡ ok a)
        × ((i : ℕ) → (k : Key) × Member (k, table (chain (suc i))) (entries (chain i))))
lua_to_any_iff_example = lua_to_any_iff tables tables-IsTables (table 0)
