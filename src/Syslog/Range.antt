-- ===== src/Syslog/Range.antt =====
-- What holds of every message that is parsed, whatever the datagram.
use ha_lua.Base.{
  ℕ, ◌-◌, ◌/◌, ◌%◌, ◌≤◌, ◌≡◌, refl, Bool, some, Text, ℤ, pos, negsuc, take, drop, index_byte, arith,
  ◌⊎◌, inl, inr, Option-cases,
}
use ha_lua.Syslog.{
  Message, facility, severity, atoi, priority_between, cut_priority, cut_rfc5424, cut_timestamp,
  cut_host, parse_bsd, parse,
}

-- No priority, or one of the 192 of RFC 5424.
pub InRange : ℤ → Type 0
InRange p = (p ≡ negsuc 0) ⊎ ((n : ℕ) × (p ≡ pos n) × (n ≤ 191))

between-InRange :
    (end : ℕ) (s rest : Text) (p : ℤ) → priority_between end s ≡ some (p, rest) → InRange p
unfolding InRange priority_between
between-InRange end s rest p e = elim (Option-cases (atoi (take (end - 1) (drop 1 s)))) [
  | inl bad ↦ absurd (ground (arith, bad, e))
  | inr (pos n, read) ↦ inr (n, ground (arith, read, e), ground (arith, read, e))
  | inr (negsuc n, read) ↦ absurd (ground (arith, read, e))
]

cut-InRange : (s rest : Text) (p : ℤ) → cut_priority s ≡ some (p, rest) → InRange p
cut-InRange s rest p e = elim (Option-cases (index_byte 62 s)) [
  | inl missing ↦ absurd (unfold cut_priority in ground (arith, missing, e))
  | inr (end, found) ↦
      between-InRange end s rest p (unfold cut_priority in ground (arith, found, e))
]

parts :
    (m : Message)
    → InRange m.priority
    → ((facility m ≡ negsuc 0) × (severity m ≡ negsuc 0))
      ⊎ ((f v : ℕ) × (facility m ≡ pos f) × (severity m ≡ pos v) × (f ≤ 23) × (v ≤ 7))
unfolding InRange facility severity
parts m (inl absent) = inl (rw absent refl, rw absent refl)
parts m (inr (n, p, low)) =
    inr (n / 8, n % 8, rw p refl, rw p refl, omega (arith, low), omega arith)

module _ (bsd_time rfc_time : Text → Bool) where
  bsd_keeps :
      (raw : Text) (p : ℤ) (rest : Text)
      → let m = parse_bsd bsd_time rfc_time raw p rest in (m.priority ≡ p) × (m.raw ≡ raw)
  unfolding parse_bsd
  bsd_keeps raw p rest = elim (Option-cases (cut_timestamp bsd_time rfc_time rest)) [
    | inl missing ↦ rw (missing, parse_bsd) (refl, refl)
    | inr (after, found) ↦ elim (Option-cases (cut_host after)) [
      | inl missing ↦ rw (found, missing, parse_bsd) (refl, refl)
      | inr (host, named) ↦ rw (found, named, parse_bsd) (refl, refl)
    ]
  ]

  parse_keeps :
      (raw : Text) → let m = parse bsd_time rfc_time raw in InRange m.priority × (m.raw ≡ raw)
  unfolding parse
  parse_keeps raw = elim (Option-cases (cut_priority raw)) [
    | inl missing ↦
        let (same, whole) = bsd_keeps raw (negsuc 0) raw in
        rw (missing, parse) (unfold InRange in inl same, whole)
    | inr ((p, rest), found) ↦ elim (Option-cases (cut_rfc5424 bsd_time rfc_time rest)) [
      | inl other ↦
          let (same, whole) = bsd_keeps raw p rest in
          rw (found, other, parse) (rw same (cut-InRange raw rest p found), whole)
      | inr (fields, there) ↦ rw (found, there, parse) (cut-InRange raw rest p found, refl)
    ]
  ]

  -- Parsing never rejects: whatever the bytes, they are kept as Raw, and the message has either no priority, with a facility and a
  -- severity of -1, or one with a facility of at most 23 and a severity of at most 7.
  pub parse-InRange :
      (raw : Text)
      → let m = parse bsd_time rfc_time raw in
        (m.raw ≡ raw)
        × (((facility m ≡ negsuc 0) × (severity m ≡ negsuc 0))
            ⊎ ((f v : ℕ) × (facility m ≡ pos f) × (severity m ≡ pos v) × (f ≤ 23) × (v ≤ 7)))
  parse-InRange raw =
      let (range, whole) = parse_keeps raw in (whole, parts (parse bsd_time rfc_time raw) range)
