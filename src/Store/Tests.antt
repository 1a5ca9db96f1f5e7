-- ===== src/Store/Tests.antt =====
-- Two scripts with the same key, where JSON stands for itself.
use ha_lua.Base.{
  ◌≡◌, refl, false, List, [], ◌∷◌, Option, some, Text, codes, text_eq, ◌&&◌, if◌then◌else◌, ok,
}
use ha_lua.Store.{Row, upsert, get, set}
use ha_lua.Store.Scopes.{get-set}

abbrev encode : Text → Option Text
encode t = some t

abbrev decode : Text → Option (Option Text)
decode t = some (some t)

abbrev rows : List Row
rows = record { scope = codes "a"; key = codes "k"; value = codes "1" } ∷ []

abbrev after_set : List Row
after_set =
    record { scope = codes "a"; key = codes "k"; value = codes "1" }
    ∷ record { scope = codes "b"; key = codes "k"; value = codes "2" }
    ∷ []

-- What is encoded decodes to itself.
round : (v t : Text) → encode v ≡ some t → decode t ≡ some (some v)
round v t e = cc

get-set_example : get encode decode false (codes "a") (codes "k") after_set ≡ (
    if text_eq (codes "b") (codes "a") && text_eq (codes "k") (codes "k")
    then ok (some (codes "2"))
    else get encode decode false (codes "a") (codes "k") rows)
unfolding set upsert text_eq
get-set_example =
    get-set encode decode round (codes "b") (codes "k") (codes "a") (codes "k") (some (codes "2"))
      rows after_set false refl
