-- ===== src/Store/Scopes.antt =====
-- What a read finds after a write, in the same store and in the others.
use ha_lua.Base.{
  ◌≡◌, refl, Bool, false, ◌&&◌, List, [], ◌∷◌, Option, none, some, Text, text_eq, text_eq_iff,
  if◌then◌else◌, ok, arith, Option-cases, inl, inr,
}
use ha_lua.Store.{Row, select, upsert, remove, decoded, get, delete, set}

select-upsert :
    (scope key other k value : Text) (rows : List Row)
    → select other k (upsert scope key value rows)
      ≡ (if text_eq scope other && text_eq key k then some value else select other k rows)
unfolding select upsert
select-upsert scope key other k value [] = refl
select-upsert scope key other k value (r ∷ rows) = ground (
  arith,
  select-upsert scope key other k value rows,
  text_eq_iff scope other,
  text_eq_iff key k,
  text_eq_iff r.scope scope,
  text_eq_iff r.key key,
  text_eq_iff r.scope other,
  text_eq_iff r.key k,
)

select-remove :
    (scope key other k : Text) (rows : List Row)
    → select other k (remove scope key rows)
      ≡ (if text_eq scope other && text_eq key k then none else select other k rows)
unfolding select remove
select-remove scope key other k [] = ground arith
select-remove scope key other k (r ∷ rows) = ground (
  arith,
  select-remove scope key other k rows,
  text_eq_iff scope other,
  text_eq_iff key k,
  text_eq_iff r.scope scope,
  text_eq_iff r.key key,
  text_eq_iff r.scope other,
  text_eq_iff r.key k,
)

module _ {V : Type 0} (encode : V → Option Text) (decode : Text → Option (Option V)) where
  -- Where what is encoded decodes to itself: after a `Set` without an error, a `Get` that can read finds the value
  -- that was set, nil included, under that scope and key, and under any other what it found before.
  pub get-set :
      ((v : V) (t : Text) → encode v ≡ some t → decode t ≡ some (some v))
      → (scope key other k : Text) (value : Option V) (rows rows' : List Row) (fails : Bool)
      → set encode decode fails scope key value rows ≡ (rows', none)
      → get encode decode false other k rows' ≡ (
          if text_eq scope other && text_eq key k
          then ok value
          else get encode decode false other k rows)
  unfolding set get delete decoded
  get-set round scope key other k none rows rows' fails e =
      ground (arith, select-remove scope key other k rows, e)
  get-set round scope key other k (some v) rows rows' fails e = elim (Option-cases (encode v)) [
    | inl bad ↦ absurd (ground (arith, e, bad))
    | inr (t, good) ↦
        ground (arith, e, good, round v t good, select-upsert scope key other k t rows)
  ]
