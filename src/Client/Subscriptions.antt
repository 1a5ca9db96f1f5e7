-- ===== src/Client/Subscriptions.antt =====
-- Which event types the current connection is subscribed to.
use ha_lua.Base.{
  ℕ, ◌+◌, ◌≡◌, refl, sym, ap, ◌∙◌, Bool, true, false, ◌||◌, List, [], ◌∷◌, ◌++◌, Text, text_eq,
  text_eq_iff, codes, if◌then◌else◌, arith, Bool-cases, inl, inr,
}
use ha_lua.Client.{
  contains, Link, new, mark, add_event_type, publish, mark_all, subscribe_all, hang_up, Move, add,
  connected, subscribe, disconnected, step, run,
}

-- How often a type was sent.
unfoldable pub times : Text → List Text → ℕ
times t [] = 0
times t (u ∷ us) = let n = times t us in if text_eq u t then n + 1 else n

times_last :
    (t u : Text) (us : List Text)
    → times t (us ++ u ∷ []) ≡ times t us + (if text_eq u t then 1 else 0)
unfolding times
times_last t u [] = ground arith
times_last t u (v ∷ us) = ground (arith, times_last t u us)

contains_last :
    (t u : Text) (us : List Text) → contains t (us ++ u ∷ []) ≡ (contains t us || text_eq u t)
unfolding contains
contains_last t u [] = ground arith
contains_last t u (v ∷ us) = ground (arith, contains_last t u us)

-- A type is sent once when it is marked and never when it is not; past the subscribing section of a connection
-- that is up, `state_changed` and every registered type are marked.
pub record IsSubscribed (c : Link) : Type 0 where
  pub once : (t : Text) → times t c.sent ≡ (if contains t c.subscribed then 1 else 0)
  pub all :
      c.up ≡ true
      → c.synced ≡ true
      → (t : Text) → contains t (codes "state_changed" ∷ c.event_types) ≡ true
      → contains t c.subscribed ≡ true

marked_once :
    (u : Text) (c : Link) (t : Text)
    → times t c.sent ≡ (if contains t c.subscribed then 1 else 0)
    → times t (mark u c).sent ≡ (if contains t (mark u c).subscribed then 1 else 0)
unfolding mark
marked_once u c t h = elim (Bool-cases (contains u c.subscribed)) [
  | inl had ↦ rw (had) h
  | inr new_one ↦
      rw (new_one)
        (unfold contains in ground (arith, new_one, h, times_last t u c.sent, text_eq_iff u t))
]

mark_subscribed :
    (u : Text) (c : Link) (t : Text)
    → contains t (mark u c).subscribed ≡ (contains t c.subscribed || text_eq u t)
unfolding mark
mark_subscribed u c t = elim (Bool-cases (contains u c.subscribed)) [
  | inl had ↦ rw (had) (ground (arith, had, text_eq_iff u t))
  | inr new_one ↦ rw (new_one) (unfold contains in ground arith)
]

mark_fields :
    (u : Text) (c : Link)
    → ((mark u c).up ≡ c.up)
      × ((mark u c).synced ≡ c.synced)
      × ((mark u c).event_types ≡ c.event_types)
unfolding mark
mark_fields u c = elim (Bool-cases (contains u c.subscribed)) [
  | inl had ↦ rw (had) (refl, refl, refl)
  | inr new_one ↦ rw (new_one) (refl, refl, refl)
]

mark_all_once :
    (ts : List Text) (c : Link) (t : Text)
    → times t c.sent ≡ (if contains t c.subscribed then 1 else 0)
    → times t (mark_all ts c).sent ≡ (if contains t (mark_all ts c).subscribed then 1 else 0)
unfolding mark_all
mark_all_once [] c t h = h
mark_all_once (u ∷ ts) c t h = mark_all_once ts (mark u c) t (marked_once u c t h)

mark_all_subscribed :
    (ts : List Text) (c : Link) (t : Text)
    → contains t (mark_all ts c).subscribed ≡ (contains t c.subscribed || contains t ts)
unfolding mark_all contains
mark_all_subscribed [] c t = ground arith
mark_all_subscribed (u ∷ ts) c t =
    ground (arith, mark_all_subscribed ts (mark u c) t, mark_subscribed u c t)

mark_all_types : (ts : List Text) (c : Link) → (mark_all ts c).event_types ≡ c.event_types
unfolding mark_all
mark_all_types [] c = refl
mark_all_types (u ∷ ts) c = mark_all_types ts (mark u c) ∙ (mark_fields u c).2

pub new-IsSubscribed : IsSubscribed new
unfolding new times contains
new-IsSubscribed = record { once = λ t. refl; all = λ up. cc }

publish-IsSubscribed : (c : Link) → IsSubscribed (publish c)
unfolding publish times contains
publish-IsSubscribed c = record { once = λ t. refl; all = λ up synced. cc }

subscribe_all-IsSubscribed : (c : Link) → IsSubscribed c → IsSubscribed (subscribe_all c)
unfolding subscribe_all
subscribe_all-IsSubscribed c v =
    let ts = codes "state_changed" ∷ c.event_types in
    record {
      once = λ t. mark_all_once ts c t (v.once t);
      all = λ up synced t known. ground (
        arith,
        mark_all_subscribed ts c t,
        ap (λ es. contains t (codes "state_changed" ∷ es)) (mark_all_types ts c),
        known,
      );
    }

hang_up-IsSubscribed : (c : Link) → IsSubscribed c → IsSubscribed (hang_up c)
unfolding hang_up
hang_up-IsSubscribed c v = record { once = v.once; all = λ up. cc }

added_known :
    (t u : Text) (es : List Text)
    → contains t (codes "state_changed" ∷ es ++ u ∷ [])
      ≡ (contains t (codes "state_changed" ∷ es) || text_eq u t)
unfolding contains
added_known t u es = ground (arith, contains_last t u es)

-- A type that is new, on a connection that is up.
live_add :
    (u : Text) (c : Link)
    → contains u c.event_types ≡ false
    → c.up ≡ true
    → add_event_type u c ≡ mark u (record c { event_types = c.event_types ++ u ∷ [] })
unfolding add_event_type
live_add u c e up = rw (e, up) refl

idle_add :
    (u : Text) (c : Link)
    → contains u c.event_types ≡ false
    → c.up ≡ false
    → add_event_type u c ≡ record c { event_types = c.event_types ++ u ∷ [] }
unfolding add_event_type
idle_add u c e down = rw (e, down) refl

known_add : (u : Text) (c : Link) → contains u c.event_types ≡ true → add_event_type u c ≡ c
unfolding add_event_type
known_add u c e = rw (e) refl

live_add-IsSubscribed :
    (u : Text) (c : Link)
    → IsSubscribed c
    → c.up ≡ true
    → IsSubscribed (mark u (record c { event_types = c.event_types ++ u ∷ [] }))
live_add-IsSubscribed u c v up =
    let added = record c { event_types = c.event_types ++ u ∷ [] } in
    let (same_up, same_synced, same_types) = mark_fields u added in
    record {
      once = λ t. marked_once u added t (v.once t);
      all = λ up' synced t known.
          let was_synced : c.synced ≡ true = sym same_synced ∙ synced in
          let in_added : contains t (codes "state_changed" ∷ c.event_types ++ u ∷ []) ≡ true =
            ap (λ es. contains t (codes "state_changed" ∷ es)) (sym same_types) ∙ known in
          ground (
            arith,
            mark_subscribed u added t,
            added_known t u c.event_types,
            in_added,
            v.all up was_synced t,
          );
    }

add_event_type-IsSubscribed :
    (u : Text) (c : Link) → IsSubscribed c → IsSubscribed (add_event_type u c)
add_event_type-IsSubscribed u c v = elim (Bool-cases (contains u c.event_types)) [
  | inl known ↦ rw (known_add u c known) v
  | inr fresh ↦ elim (Bool-cases c.up) [
    | inl up ↦ rw (live_add u c fresh up) (live_add-IsSubscribed u c v up)
    | inr down ↦ rw (idle_add u c fresh down) (record { once = v.once; all = λ up. cc })
  ]
]

either :
    (b : Bool) {c d : Link} → IsSubscribed c → IsSubscribed d → IsSubscribed (if b then c else d)
either true v w = v
either false v w = w

step-IsSubscribed : (m : Move) (c : Link) → IsSubscribed c → IsSubscribed (step m c)
unfolding step
step-IsSubscribed (add t) c v = add_event_type-IsSubscribed t c v
step-IsSubscribed connected c v = publish-IsSubscribed c
step-IsSubscribed disconnected c v = hang_up-IsSubscribed c v
step-IsSubscribed subscribe c v = either c.up (subscribe_all-IsSubscribed c v) v

-- In whatever order types are registered and connections come, subscribe and go: on the current connection no
-- type is ever sent twice, and one that is up and past its subscribing section has sent `state_changed` and
-- every registered type.
pub run-IsSubscribed : (moves : List Move) (c : Link) → IsSubscribed c → IsSubscribed (run moves c)
unfolding run
run-IsSubscribed [] c v = v
run-IsSubscribed (m ∷ moves) c v = run-IsSubscribed moves (step m c) (step-IsSubscribed m c v)
