-- ===== src/Mqtt/Broker/Covered.antt =====
-- Which filters the broker has been asked for on the connection that is up.
use ha_lua.Base.{
  ℕ, ◌+◌, ◌≡◌, refl, sym, ap, ◌∙◌, true, false, ◌||◌, List, [], ◌∷◌, ◌++◌, none, Text, text_eq,
  text_eq_iff, text_lt, sort_by, sort_by-SameItems, count, count-append, if◌then◌else◌, arith,
  Bool-cases, Option-cases, inl, inr, List-cases, if-true, if-false, subst,
}
use ha_lua.Mqtt.Topic.{validate_filter}
use ha_lua.Mqtt.Broker.{
  contains, remove, Link, new, enabled, filter_list, start, on_connect, resubscribe,
  connection_lost, record_filter, subscribe, hand, hand_late, Move, started, resubscribed, opened,
  lost, asked, handed, handed_late, step, run,
}

-- How often a filter stands in a list.
abbrev pub times : Text → List Text → ℕ
times f fs = count (λ g. text_eq g f) fs

pub record IsCovered (c : Link) : Type 0 where
  pub distinct : (f : Text) → times f c.filters ≡ (if contains f c.filters then 1 else 0)
  pub valid : (f : Text) → contains f c.filters ≡ true → validate_filter f ≡ none
  pub set_up : c.connected ≡ true → c.started ≡ true
  pub once :
      (f : Text)
      → c.connected ≡ true
      → times f c.sent + times f c.pending + times f c.inflight
        ≡ (if contains f c.filters then 1 else 0)

contains-append :
    (f g : Text) (fs : List Text) → contains f (fs ++ g ∷ []) ≡ (contains f fs || text_eq g f)
unfolding contains
contains-append f g [] = ground arith
contains-append f g (h ∷ fs) = ground (arith, contains-append f g fs)

-- Taking out a filter that is there.
times-remove :
    (f g : Text) (fs : List Text)
    → contains g fs ≡ true
    → times f (remove g fs) + (if text_eq g f then 1 else 0) ≡ times f fs
unfolding contains remove
times-remove f g [] h = cc
times-remove f g (x ∷ fs) h = ground (arith, h, times-remove f g fs, text_eq_iff x g)

new-IsCovered : (broker : Text) → IsCovered (new broker)
unfolding new contains
new-IsCovered broker = record { distinct = λ f. refl; valid = λ f. cc; set_up = cc; once = λ f. cc }

start-IsCovered : (c : Link) → IsCovered c → IsCovered (start c)
unfolding start
start-IsCovered c v = elim (Bool-cases (enabled c)) [
  | inl on ↦
      rw (on)
        (record { distinct = v.distinct; valid = v.valid; set_up = λ up. refl; once = v.once })
  | inr off ↦ rw (off) v
]

on_connect-IsCovered :
    (now : ℕ) (c : Link) → c.started ≡ true → IsCovered c → IsCovered (on_connect now c)
unfolding on_connect filter_list
on_connect-IsCovered now c ready v = record {
  distinct = v.distinct;
  valid = v.valid;
  set_up = λ up. ready;
  once = λ f up.
      let same : times f (sort_by text_lt c.filters) ≡ times f c.filters =
        sort_by-SameItems text_lt c.filters (λ g. text_eq g f) in
      omega (arith, same, v.distinct f);
}

resubscribe_once :
    (f g : Text) (sent rest inflight : List Text)
    → times f (sent ++ g ∷ []) + times f rest + times f inflight
      ≡ times f sent + times f (g ∷ rest) + times f inflight
resubscribe_once f g sent rest inflight =
    omega (arith, count-append (λ h. text_eq h f) sent (g ∷ []))

resubscribe_next :
    (c : Link) (g : Text) (rest : List Text)
    → c.pending ≡ g ∷ rest
    → resubscribe c ≡ record c { pending = rest; sent = c.sent ++ g ∷ [] }
unfolding resubscribe
resubscribe_next c g rest e = ground (arith, e)

resubscribe_end : (c : Link) → c.pending ≡ [] → resubscribe c ≡ c
unfolding resubscribe
resubscribe_end c e = ground (arith, e)

resubscribe-IsCovered : (c : Link) → IsCovered c → IsCovered (resubscribe c)
resubscribe-IsCovered c v = elim (List-cases c.pending) [
  | inl over ↦ subst IsCovered (sym (resubscribe_end c over)) v
  | inr (g, rest, more) ↦ subst IsCovered (sym (resubscribe_next c g rest more)) (record {
    distinct = v.distinct;
    valid = v.valid;
    set_up = v.set_up;
    once = λ f up.
        resubscribe_once f g c.sent rest c.inflight
        ∙ ap (λ p. times f c.sent + times f p + times f c.inflight) (sym more)
        ∙ v.once f up;
  })
]

hand-IsCovered : (g : Text) (c : Link) → IsCovered c → IsCovered (hand g c)
unfolding hand
hand-IsCovered g c v = elim (Bool-cases (contains g c.inflight)) [
  | inl there ↦ rw (there) (record {
    distinct = v.distinct;
    valid = v.valid;
    set_up = v.set_up;
    once = λ f up. omega (
      arith,
      v.once f up,
      times-remove f g c.inflight there,
      count-append (λ h. text_eq h f) c.sent (g ∷ []),
    );
  })
  | inr absent ↦ rw (absent) v
]

hand_late-IsCovered : (g : Text) (c : Link) → IsCovered c → IsCovered (hand_late g c)
unfolding hand_late
hand_late-IsCovered g c v = elim (Bool-cases (contains g c.late)) [
  | inl there ↦
      rw (there)
        (record { distinct = v.distinct; valid = v.valid; set_up = v.set_up; once = v.once })
  | inr absent ↦ rw (absent) v
]

recorded_up :
    (g : Text) (c : Link)
    → contains g c.filters ≡ false
    → c.started ≡ true
    → c.connected ≡ true
    → (record_filter g c).0
      ≡ record c { filters = c.filters ++ g ∷ []; inflight = c.inflight ++ g ∷ [] }
unfolding record_filter
recorded_up g c fresh ready up = ground (arith, fresh, ready, up)

recorded_down :
    (g : Text) (c : Link)
    → contains g c.filters ≡ false
    → c.connected ≡ false
    → (record_filter g c).0 ≡ record c { filters = c.filters ++ g ∷ [] }
unfolding record_filter
recorded_down g c fresh down = ground (arith, fresh, down)

record_filter-IsCovered :
    (g : Text) (c : Link) → validate_filter g ≡ none → IsCovered c → IsCovered (record_filter g c).0
unfolding record_filter
record_filter-IsCovered g c fine v = elim (Bool-cases (contains g c.filters)) [
  | inl known ↦ rw (known) v
  | inr fresh ↦
      let distinct : (f : Text)
          → times f (c.filters ++ g ∷ []) ≡ (if contains f (c.filters ++ g ∷ []) then 1 else 0) =
        λ f. ground (
          arith,
          v.distinct f,
          contains-append f g c.filters,
          fresh,
          text_eq_iff g f,
          count-append (λ h. text_eq h f) c.filters (g ∷ []),
        ) in
      let valid : (f : Text) → contains f (c.filters ++ g ∷ []) ≡ true → validate_filter f ≡ none =
        λ f there.
          ground (arith, v.valid f, contains-append f g c.filters, text_eq_iff g f, fine, there) in
      elim (Bool-cases c.connected) [
        | inl up ↦ subst IsCovered (sym (recorded_up g c fresh (v.set_up up) up)) (record {
          distinct = distinct;
          valid = valid;
          set_up = v.set_up;
          once = λ f on. ground (
            arith,
            v.once f on,
            contains-append f g c.filters,
            fresh,
            text_eq_iff g f,
            count-append (λ h. text_eq h f) c.inflight (g ∷ []),
          );
        })
        | inr down ↦
            subst IsCovered (sym (recorded_down g c fresh down))
              (record { distinct = distinct; valid = valid; set_up = v.set_up; once = λ f on. cc })
      ]
]

subscribe-IsCovered : (g : Text) (c : Link) → IsCovered c → IsCovered (subscribe g c).0
unfolding subscribe
subscribe-IsCovered g c v = elim (Bool-cases (enabled c)) [
  | inr off ↦ rw (off) v
  | inl on ↦ elim (Option-cases (validate_filter g)) [
    | inl fine ↦ rw (on, fine) (record_filter-IsCovered g c fine v)
    | inr (e, wrong) ↦ rw (on, wrong) v
  ]
]

step-IsCovered : (m : Move) (c : Link) → IsCovered c → IsCovered (step m c)
unfolding step connection_lost
step-IsCovered started c v = start-IsCovered c v
step-IsCovered resubscribed c v = resubscribe-IsCovered c v
step-IsCovered (opened now) c v = elim (Bool-cases c.started) [
  | inl ready ↦ subst IsCovered (sym (if-true _ _ ready)) (on_connect-IsCovered now c ready v)
  | inr idle ↦ subst IsCovered (sym (if-false _ _ idle)) v
]
step-IsCovered (lost e now) c v = record {
  distinct = v.distinct;
  valid = v.valid;
  set_up = cc;
  once = λ f. cc;
}
step-IsCovered (asked g) c v = subscribe-IsCovered g c v
step-IsCovered (handed g) c v = hand-IsCovered g c v
step-IsCovered (handed_late g) c v = hand_late-IsCovered g c v

run-IsCovered : (ms : List Move) (c : Link) → IsCovered c → IsCovered (run ms c)
unfolding run
run-IsCovered [] c v = v
run-IsCovered (m ∷ ms) c v = run-IsCovered ms (step m c) (step-IsCovered m c v)

-- In every order of connections, losses, subscriptions and sends: while the connection is up, each filter that was accepted is valid and
-- has been handed to the broker exactly once on that connection, or waits to be, once, in the handler's loop or in a
-- call of Subscribe; no other filter has. (Calls that a reconnect overtook may send theirs again.)
pub run-covers :
    (ms : List Move) (broker f : Text)
    → let c = run ms (new broker) in
      c.connected ≡ true
      → (times f c.sent + times f c.pending + times f c.inflight
          ≡ (if contains f c.filters then 1 else 0))
        × (contains f c.filters ≡ true → validate_filter f ≡ none)
run-covers ms broker f up =
    let v = run-IsCovered ms (new broker) (new-IsCovered broker) in (v.once f up, v.valid f)
