-- ===== src/Router/Paths.antt =====
-- The path that selects a script, against the text it stands for.
use ha_lua.Base.{
  ◌≡◌, ◌↔◌, refl, sym, ap, ◌∙◌, true, false, [], ◌∷◌, ◌++◌, none, some, Text, has_prefix,
  has_prefix_iff, has_byte, drop, length, arith, Option-cases, Bool-cases, inl, inr, ◌==◌,
}
use ha_lua.Router.{slash, mount, cut_prefix, cut_slash, split_mount}

drop-append : (p rest : Text) → drop (length p) (p ++ rest) ≡ rest
drop-append [] rest = refl
drop-append (c ∷ p) rest = drop-append p rest

cut_slash-some :
    (id tail : Text)
    → has_byte slash id ≡ false
    → cut_slash (id ++ slash ∷ tail) ≡ some (id, slash ∷ tail)
unfolding cut_slash has_byte
cut_slash-some [] tail h = refl
cut_slash-some (c ∷ id) tail h = ground (arith, cut_slash-some id tail)

-- The parts that a cut gives.
pub IsCut : Text → Text → Text → Type 0
IsCut s id rest =
    (has_byte slash id ≡ false) × (tail : Text) × (rest ≡ slash ∷ tail) × (s ≡ id ++ slash ∷ tail)

cut_slash-IsCut : (s id rest : Text) → cut_slash s ≡ some (id, rest) → IsCut s id rest
unfolding cut_slash has_byte IsCut
cut_slash-IsCut [] id rest h = cc
cut_slash-IsCut (c ∷ s) id rest h = elim (Bool-cases (c == slash)) [
  | inl here ↦
      let none_before : id ≡ [] = ground (arith, here) in
      (rw (none_before) refl, s, ground (arith, here), ground (arith, here))
  | inr there ↦ elim (Option-cases (cut_slash s)) [
    | inl never ↦ absurd (ground (arith, there, never))
    | inr ((before, after), found) ↦
        let (clear, tail, from, whole) = cut_slash-IsCut s before after found in
        let own : id ≡ c ∷ before = ground (arith, there, found) in
        let ends : rest ≡ after = ground (arith, there, found) in
        (
          rw (own) (ground (arith, there, clear)),
          tail,
          ends ∙ from,
          rw (own) (ap (λ r. c ∷ r) whole),
        )
  ]
]

cut_slash-none : (s : Text) → has_byte slash s ≡ false → cut_slash s ≡ none
unfolding cut_slash has_byte
cut_slash-none [] h = refl
cut_slash-none (c ∷ s) h = ground (arith, cut_slash-none s)

cut_prefix_append : (p rest : Text) → cut_prefix (p ++ rest) p ≡ some rest
unfolding cut_prefix
cut_prefix_append p rest =
    rw ((has_prefix_iff (p ++ rest) p).1 (rest, refl)) (ap some (drop-append p rest))

cut_prefix-some : (s p rest : Text) → cut_prefix s p ≡ some rest → s ≡ p ++ rest
unfolding cut_prefix
cut_prefix-some s p rest h = elim (Bool-cases (has_prefix s p)) [
  | inl has ↦
      let (tail, e) = (has_prefix_iff s p).0 has in
      let cut : some tail ≡ some rest =
        sym (ap (λ t. cut_prefix t p) e ∙ cut_prefix_append p tail) ∙ h in
      e ∙ ap (λ r. p ++ r) (ground (arith, cut))
  | inr lacks ↦ absurd (ground (arith, lacks))
]

split_mount_slash :
    (path rest id stripped : Text)
    → cut_prefix path mount ≡ some rest
    → cut_slash rest ≡ some (id, stripped)
    → split_mount path ≡ (id, stripped, true)
unfolding split_mount
split_mount_slash path rest id stripped p q = cc

split_mount_no_slash :
    (path rest : Text)
    → cut_prefix path mount ≡ some rest
    → cut_slash rest ≡ none
    → split_mount path ≡ (rest, slash ∷ [], false)
unfolding split_mount
split_mount_no_slash path rest p q = cc

split_mount-none : (path : Text) → cut_prefix path mount ≡ none → split_mount path ≡ ([], [], false)
unfolding split_mount
split_mount-none path p = cc

-- Only a path with a slash behind the script has the flag.
pub split_mount-IsCut :
    (path id stripped : Text)
    → split_mount path ≡ (id, stripped, true)
    → (rest : Text) × (path ≡ mount ++ rest) × IsCut rest id stripped
split_mount-IsCut path id stripped h = elim (Option-cases (cut_prefix path mount)) [
  | inl out ↦ absurd (ground (arith, h, split_mount-none path out))
  | inr (rest, p) ↦ elim (Option-cases (cut_slash rest)) [
    | inl bare ↦ absurd (ground (arith, h, split_mount_no_slash path rest p bare))
    | inr ((before, after), cut) ↦
        let same = split_mount_slash path rest before after p cut in
        let own : before ≡ id = ground (arith, h, same) in
        let ends : after ≡ stripped = ground (arith, h, same) in
        (
          rest,
          cut_prefix-some path mount rest p,
          rw (sym own, sym ends) (cut_slash-IsCut rest before after cut),
        )
  ]
]

-- A path selects the script `id` with the path `slash ∷ tail` behind it exactly when it is the mount, then
-- `id`, then that path, where `id` has no slash.
pub split_mount_iff :
    (path id tail : Text)
    → (split_mount path ≡ (id, slash ∷ tail, true))
      ↔ ((has_byte slash id ≡ false) × (path ≡ mount ++ id ++ slash ∷ tail))
unfolding IsCut
split_mount_iff path id tail = (
  λ h.
      let (rest, whole, cut) = split_mount-IsCut path id (slash ∷ tail) h in
      let (clear, end, from, parts) = cut in
      (clear, whole ∙ ap (λ r. mount ++ r) (parts ∙ ap (λ r. id ++ r) (sym from))),
  λ (clear, whole).
      split_mount_slash path (id ++ slash ∷ tail) id (slash ∷ tail)
        (ap (λ r. cut_prefix r mount) whole ∙ cut_prefix_append mount (id ++ slash ∷ tail))
        (cut_slash-some id tail clear),
)

-- A path of the mount and a script without a slash behind it selects the script, to be redirected.
pub split_mount_bare :
    (id : Text) → has_byte slash id ≡ false → split_mount (mount ++ id) ≡ (id, slash ∷ [], false)
split_mount_bare id h =
    split_mount_no_slash (mount ++ id) id (cut_prefix_append mount id) (cut_slash-none id h)
