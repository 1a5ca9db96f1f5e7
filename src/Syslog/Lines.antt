-- ===== src/Syslog/Lines.antt =====
-- A line of RFC 5424, printed and parsed.
use ha_lua.Base.{
  trim_prefix, ℕ, suc, ◌+◌, ◌*◌, ◌/◌, ◌%◌, ◌≤◌, ◌<◌, ◌≡◌, refl, ap, ◌∙◌, Bool, true, false, ◌||◌,
  List, [], ◌∷◌, ◌++◌, Option, none, some, Text, text_eq, text_eq_refl, has_prefix, has_byte, glue,
  index_byte, codes, if◌then◌else◌, ltb, pos, All, arith, Bool-cases, inl, inr,
}
use ha_lua.Syslog.{
  trim, trim_left, trim_right, split_n, digits, atoi, priority_between, cut_priority,
  skip_structured_data, is_rfc3339, cut_fields, cut_rfc5424, parse,
}
use ha_lua.Syslog.Elements.{Piece, IsPiece, print_data, skip-print_data}

-- A number below 1000.
unfoldable pub decimal : ℕ → Text
decimal n =
    if ltb n 10
    then (48 + n) ∷ []
    else (if ltb n 100
        then (48 + n / 10) ∷ (48 + n % 10) ∷ []
        else (48 + n / 100) ∷ (48 + n / 10 % 10) ∷ (48 + n % 10) ∷ [])

one_digit : (a : ℕ) (s : Text) → a < 10 → cut_priority (60 ∷ (48 + a) ∷ 62 ∷ s) ≡ some (pos a, s)
unfolding cut_priority has_prefix index_byte priority_between atoi digits
one_digit a s h = ground arith

two_digits :
    (a b : ℕ) (s : Text)
    → a < 10
    → b < 10
    → cut_priority (60 ∷ (48 + a) ∷ (48 + b) ∷ 62 ∷ s) ≡ some (pos (a * 10 + b), s)
unfolding cut_priority has_prefix index_byte priority_between atoi digits
two_digits a b s h k = ground arith

three_digits :
    (a b c : ℕ) (s : Text)
    → a < 10
    → b < 10
    → c < 10
    → a * 100 + b * 10 + c ≤ 191
    → cut_priority (60 ∷ (48 + a) ∷ (48 + b) ∷ (48 + c) ∷ 62 ∷ s)
      ≡ some (pos (a * 100 + b * 10 + c), s)
unfolding cut_priority has_prefix index_byte priority_between atoi digits
three_digits a b c s h k l m = ground arith

split_n-field :
    (sep n : ℕ) (f s : Text)
    → has_byte sep f ≡ false
    → split_n sep (suc (suc n)) (f ++ (sep ∷ s)) ≡ f ∷ split_n sep (suc n) s
unfolding split_n has_byte glue
split_n-field sep n [] s h = ground arith
split_n-field sep n (c ∷ f) s h = ground (arith, h, split_n-field sep n f s)

split_n_last : (sep : ℕ) (s : Text) → split_n sep 1 s ≡ s ∷ []
unfolding split_n
split_n_last sep s = refl

cut_priority-decimal :
    (n : ℕ) (s : Text) → n ≤ 191 → cut_priority (60 ∷ decimal n ++ 62 ∷ s) ≡ some (pos n, s)
unfolding decimal
cut_priority-decimal n s h = elim (Bool-cases (ltb n 10)) [
  | inl one ↦ rw (one, one_digit n s (ground arith)) refl
  | inr more ↦ elim (Bool-cases (ltb n 100)) [
    | inl two ↦
        let whole : n / 10 * 10 + n % 10 ≡ n = omega arith in
        rw (more, two, two_digits (n / 10) (n % 10) s (ground arith) (omega arith), whole) refl
    | inr three ↦
        let whole : n / 100 * 100 + n / 10 % 10 * 10 + n % 10 ≡ n = omega arith in
        rw
          (
            more,
            three,
            three_digits (n / 100) (n / 10 % 10) (n % 10) s (omega (arith, h)) (omega arith)
                (omega arith) (omega (arith, h)),
            whole,
          )
          refl
  ]
]

-- What a sender writes: HOST, APP-NAME, PROCID and MSGID, each without a space.
pub record Line : Type 0 where
  pub priority : ℕ
  pub time : Text
  pub host : Text
  pub app : Text
  pub proc : Text
  pub id : Text
  pub elements : List (List Piece)
  pub message : Option (Bool × Text)

-- The message part, with or without the byte order mark that announces UTF-8.
abbrev pub message_part : Option (Bool × Text) → Text
message_part none = []
message_part (some (true, body)) = 32 ∷ 239 ∷ 187 ∷ 191 ∷ body
message_part (some (false, body)) = 32 ∷ body

-- The text of the message.
abbrev pub text_of : Option (Bool × Text) → Text
text_of none = []
text_of (some (marked, body)) = trim body

-- A body without a mark before it does not begin with one of its own.
abbrev pub IsMessage : Option (Bool × Text) → Type 0
IsMessage none = Unit
IsMessage (some (true, body)) = Unit
IsMessage (some (false, body)) = has_prefix body (239 ∷ 187 ∷ 191 ∷ []) ≡ false

abbrev pub tail : Line → Text
tail l = print_data l.elements ++ message_part l.message

abbrev field : Text → Text → Text
field f s = f ++ (32 ∷ s)

abbrev pub header : Line → Text
header l =
    field (codes "1")
      (field l.time (field l.host (field l.app (field l.proc (field l.id (tail l))))))

abbrev pub print : Line → Text
print l = 60 ∷ decimal l.priority ++ 62 ∷ header l

module _ (bsd_time rfc_time : Text → Bool) where
  pub record IsLine (l : Line) : Type 0 where
    pub in_range : l.priority ≤ 191
    pub dated : (text_eq l.time (codes "-") || is_rfc3339 bsd_time rfc_time l.time) ≡ true
    pub time_field : has_byte 32 l.time ≡ false
    pub host_field : has_byte 32 l.host ≡ false
    pub app_field : has_byte 32 l.app ≡ false
    pub proc_field : has_byte 32 l.proc ≡ false
    pub id_field : has_byte 32 l.id ≡ false
    pub well_quoted : All (All IsPiece) l.elements
    pub worded : IsMessage l.message

  split-header :
      (l : Line)
      → IsLine l
      → split_n 32 7 (header l) ≡ codes "1" ∷ l.time ∷ l.host ∷ l.app ∷ l.proc ∷ l.id ∷ tail l ∷ []
  split-header l v =
      let id_on = field l.id (tail l) in
      let proc_on = field l.proc id_on in
      let app_on = field l.app proc_on in
      let host_on = field l.host app_on in
      rw
        (
          split_n-field 32 5 (codes "1") (field l.time host_on) (unfold has_byte in refl),
          split_n-field 32 4 l.time host_on v.time_field,
          split_n-field 32 3 l.host app_on v.host_field,
          split_n-field 32 2 l.app proc_on v.app_field,
          split_n-field 32 1 l.proc id_on v.proc_field,
          split_n-field 32 0 l.id (tail l) v.id_field,
          split_n_last 32 (tail l),
        )
        refl

  unmark :
      (m : Option (Bool × Text))
      → IsMessage m
      → trim (trim_prefix (trim_prefix (message_part m) (codes " ")) (239 ∷ 187 ∷ 191 ∷ []))
        ≡ text_of m
  unfolding trim_prefix has_prefix
  unmark none h = unfold trim trim_left trim_right in refl
  unmark (some (true, body)) h = refl
  unmark (some (false, body)) h = ap trim (ground (arith, h))

  closed : (m : Option (Bool × Text)) → has_prefix (message_part m) (codes "[") ≡ false
  unfolding has_prefix
  closed none = refl
  closed (some (true, body)) = refl
  closed (some (false, body)) = refl

  header-fields :
      (l : Line)
      → IsLine l
      → cut_rfc5424 bsd_time rfc_time (header l)
        ≡ some (
          if text_eq l.host (codes "-") then none else some l.host,
          skip_structured_data (tail l),
        )
  unfolding cut_rfc5424
  header-fields l v =
      ap (cut_fields bsd_time rfc_time) (split-header l v)
      ∙ unfold cut_fields in ground (arith, v.dated, text_eq_refl (codes "1"))

  parse_step :
      (raw rest after : Text) (p : ℕ) (host : Option Text)
      → cut_priority raw ≡ some (pos p, rest)
      → cut_rfc5424 bsd_time rfc_time rest ≡ some (host, after)
      → parse bsd_time rfc_time raw ≡ record {
        host = elim host [ none ↦ [] | some h ↦ h ];
        priority = pos p;
        text = trim (trim_prefix (trim_prefix after (codes " ")) (239 ∷ 187 ∷ 191 ∷ []));
        raw = raw;
      }
  unfolding parse
  parse_step raw rest after p host c r = rw (c, r, parse) refl

  -- A line of RFC 5424, with or without a message part, is parsed to its priority and its host, none for `-`, with the line kept as Raw: for a priority
  -- of at most 191, a time that is `-` or that isRFC3339 takes, fields free of spaces, and well quoted structured data. The text is the body without the
  -- blanks at its ends; a byte order mark that announces it is left out, and a body with no such mark before it must not begin with one of its own.
  pub parse-print :
      (l : Line)
      → IsLine l
      → parse bsd_time rfc_time (print l) ≡ record {
        host = if text_eq l.host (codes "-") then [] else l.host;
        priority = pos l.priority;
        text = text_of l.message;
        raw = print l;
      }
  parse-print l v =
      parse_step (print l) (header l) (skip_structured_data (tail l)) l.priority _
        (cut_priority-decimal l.priority (header l) v.in_range) (header-fields l v)
      ∙ rw
          (
            skip-print_data l.elements (message_part l.message) v.well_quoted (closed l.message),
            unmark l.message v.worded,
          )
          (ground arith)
