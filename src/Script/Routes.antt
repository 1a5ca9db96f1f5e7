-- ===== src/Script/Routes.antt =====
-- The handler that a script serves a request with, against the routes that it registered and the router's table.
use ha_lua.Base.{
  ℕ, ◌≤◌, ◌<◌, ◌≡◌, refl, sym, ap, ◌∙◌, Bool, true, false, ◌&&◌, List, [], ◌∷◌, ◌++◌, Option, none,
  some, Text, text_eq, text_eq_refl, has_prefix, length, if◌then◌else◌, arith, Bool-cases, inl, inr,
  All, ◌⊎◌,
}
use ha_lua.Router.{Routes, register, match}
use ha_lua.Router.Table.{offered, match-register}
use ha_lua.Script.{RouteEntry, is_longer, match_route_from, match_route, route_specs}

module _ (method path : Text) where
  -- Whether a route has the method and a prefix of the path.
  unfoldable pub fits : RouteEntry → Bool
  fits e = text_eq e.method method && has_prefix path e.prefix

  -- Routes that fit are no longer than a bound.
  abbrev pub AtMost : ℕ → RouteEntry → Type 0
  AtMost n e = fits e ≡ true → length e.prefix ≤ n

  abbrev pub Below : ℕ → RouteEntry → Type 0
  Below n e = fits e ≡ true → length e.prefix < n

  -- The first of the longest routes that fit.
  pub record IsBest (e : RouteEntry) (routes : List RouteEntry) : Type 0 where
    pub before : List RouteEntry
    pub after : List RouteEntry
    pub splits : routes ≡ before ++ e ∷ after
    pub fitting : fits e ≡ true
    pub shorter : All (Below (length e.prefix)) before
    pub no_longer : All (AtMost (length e.prefix)) after

  fits_lem : (r : RouteEntry) → fits r ≡ (text_eq r.method method && has_prefix path r.prefix)
  unfolding fits
  fits_lem r = refl

  taken_step :
      (r : RouteEntry) (routes : List RouteEntry) (best : Option RouteEntry)
      → fits r ≡ true
      → is_longer best r ≡ true
      → match_route_from method path (r ∷ routes) best
        ≡ match_route_from method path routes (some r)
  unfolding match_route_from fits
  taken_step r routes best f l = ground (arith, f, l)

  left_step :
      (r : RouteEntry) (routes : List RouteEntry) (best : Option RouteEntry)
      → (fits r && is_longer best r) ≡ false
      → match_route_from method path (r ∷ routes) best ≡ match_route_from method path routes best
  unfolding match_route_from fits
  left_step r routes best f = ground (arith, f)

  -- Once a route is found, one is.
  from_some :
      (routes : List RouteEntry) (b : RouteEntry)
      → (e : RouteEntry) × (match_route_from method path routes (some b) ≡ some e)
  unfolding match_route_from
  from_some [] b = (b, refl)
  from_some (r ∷ routes) b = elim (Bool-cases (fits r && is_longer (some b) r)) [
    | inl taken ↦
        let (e, found) = from_some routes r in
        (e, taken_step r routes (some b) (ground (arith, taken)) (ground (arith, taken)) ∙ found)
    | inr left ↦
        let (e, found) = from_some routes b in (e, left_step r routes (some b) left ∙ found)
  ]

  -- The router's hint and the script's own table agree.
  match_route-offered :
      (routes : List RouteEntry)
      → elim (match_route method path routes) [ none ↦ false | some e ↦ true ]
        ≡ offered method path (route_specs routes)
  unfolding match_route is_longer offered route_specs
  match_route-offered [] = unfold match_route_from in refl
  match_route-offered (r ∷ routes) = elim (Bool-cases (fits r)) [
    | inl taken ↦
        let (e, found) = from_some routes r in
        ground (arith, taken, fits_lem r, taken_step r routes none taken refl, found)
    | inr left ↦ ground (
      arith,
      left,
      fits_lem r,
      left_step r routes none (ground (arith, left)),
      match_route-offered routes,
    )
  ]

  Better : List RouteEntry → Option RouteEntry → RouteEntry → Type 0
  Better routes best e =
      ((best ≡ some e) × All (AtMost (length e.prefix)) routes)
      ⊎ (IsBest e routes × ((b : RouteEntry) → best ≡ some b → length b.prefix < length e.prefix))

  taken-Better :
      (r : RouteEntry) (routes : List RouteEntry) (best : Option RouteEntry) (e : RouteEntry)
      → fits r ≡ true
      → is_longer best r ≡ true
      → Better routes (some r) e
      → Better (r ∷ routes) best e
  unfolding Better is_longer
  taken-Better r routes best e f l (inl (same, most)) =
      let own : r ≡ e = ground (arith, same) in
      inr (
        record {
          before = [];
          after = routes;
          splits = ap (λ x. x ∷ routes) own;
          fitting = ap fits (sym own) ∙ f;
          shorter = tt;
          no_longer = most;
        },
        λ b is. ground (arith, own, is, l),
      )
  taken-Better r routes best e f l (inr (found, above)) = inr (
    record {
      before = r ∷ found.before;
      after = found.after;
      splits = ap (λ x. r ∷ x) found.splits;
      fitting = found.fitting;
      shorter = (λ _. above r refl, found.shorter);
      no_longer = found.no_longer;
    },
    λ b is. ground (arith, is, l, above r refl),
  )

  left-Better :
      (r : RouteEntry) (routes : List RouteEntry) (best : Option RouteEntry) (e : RouteEntry)
      → (fits r && is_longer best r) ≡ false
      → Better routes best e
      → Better (r ∷ routes) best e
  unfolding Better is_longer
  left-Better r routes best e l (inl (same, most)) =
      inl (same, (λ f. ground (arith, same, l, f), most))
  left-Better r routes none e l (inr (found, above)) = inr (
    record {
      before = r ∷ found.before;
      after = found.after;
      splits = ap (λ x. r ∷ x) found.splits;
      fitting = found.fitting;
      shorter = (λ f. ground (arith, l, f), found.shorter);
      no_longer = found.no_longer;
    },
    above,
  )
  left-Better r routes (some b) e l (inr (found, above)) = inr (
    record {
      before = r ∷ found.before;
      after = found.after;
      splits = ap (λ x. r ∷ x) found.splits;
      fitting = found.fitting;
      shorter = (λ f. ground (arith, l, f, above b refl), found.shorter);
      no_longer = found.no_longer;
    },
    above,
  )

  from-Better :
      (routes : List RouteEntry) (best : Option RouteEntry) (e : RouteEntry)
      → match_route_from method path routes best ≡ some e
      → Better routes best e
  unfolding Better match_route_from
  from-Better [] best e h = inl (h, tt)
  from-Better (r ∷ routes) best e h = elim (Bool-cases (fits r && is_longer best r)) [
    | inl taken ↦
        let f : fits r ≡ true = ground (arith, taken) in
        let l : is_longer best r ≡ true = ground (arith, taken) in
        unfold Better in
        taken-Better r routes best e f l
          (from-Better routes (some r) e (sym (taken_step r routes best f l) ∙ h))
    | inr left ↦
        unfold Better in
        left-Better r routes best e left
          (from-Better routes best e (sym (left_step r routes best left) ∙ h))
  ]

  abbrev pub Served : List RouteEntry → Option RouteEntry → Type 0
  Served routes none = Unit
  Served routes (some e) = IsBest e routes

  served :
      (routes : List RouteEntry) (found : Option RouteEntry)
      → match_route method path routes ≡ found
      → Served routes found
  unfolding match_route Better
  served routes none h = tt
  served routes (some e) h = elim (from-Better routes none e h) [
    | inl (absent, most) ↦ absurd (cc)
    | inr (found, above) ↦ found
  ]

  -- A request of a script is served by the first of the longest routes that have its method and a prefix of its
  -- path; there is one exactly when the router's table, once it holds the script's routes, lets the request through.
  pub match_route-IsBest :
      (routes : List RouteEntry) (id : Text) (table : Routes)
      → Served routes (match_route method path routes)
        × (elim (match_route method path routes) [ none ↦ false | some e ↦ true ]
            ≡ match id method path (register id (route_specs routes) table))
  unfolding match_route Better
  match_route-IsBest routes id table = (
    served routes (match_route method path routes) refl,
    unfold match_route in
        match_route-offered routes
        ∙ sym (
            match-register id id method path (route_specs routes) table
            ∙ ap
                (λ b.
                  if b
                  then offered method path (route_specs routes)
                  else match id method path table)
                (text_eq_refl id)),
  )
