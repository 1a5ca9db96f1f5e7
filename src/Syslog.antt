-- ===== src/Syslog.antt =====
-- Syslog messages: ha-lua/internal/syslog/parse.go, and the read loop of ha-lua/internal/syslog/listener.go.
pub mod Elements
pub mod Lines
pub mod Range
mod Tests
use ha_lua.Base.{
  ℕ, zero, suc, ◌+◌, ◌-◌, ◌*◌, ◌/◌, ◌%◌, ℤ, pos, negsuc, leb_ℤ, Bool, true, false, not, ◌&&◌, ◌||◌,
  ◌==◌, ltb, leb, List, [], ◌∷◌, ◌++◌, Option, none, some, Text, text_eq, is_empty, has_prefix,
  trim_prefix, has_byte, glue, cut, index_byte, length, take, drop, get_elem?, codes, if◌then◌else◌,
}

-- The fields of `Message` that come from the datagram; -1 is the priority of a message without one.
pub record Message : Type 0 where
  pub host : Text
  pub priority : ℤ
  pub text : Text
  pub raw : Text

unfoldable pub facility : Message → ℤ
facility m = elim (m.priority) [ pos p ↦ pos (p / 8) | negsuc p ↦ negsuc 0 ]

unfoldable pub severity : Message → ℤ
severity m = elim (m.priority) [ pos p ↦ pos (p % 8) | negsuc p ↦ negsuc 0 ]

-- `trim`: the cut set of strings.Trim
unfoldable pub blank : ℕ → Bool
blank c = c == 32 || (c == 9 || (c == 13 || (c == 10 || c == 0)))

unfoldable pub trim_left : Text → Text
trim_left [] = []
trim_left (c ∷ s) = if blank c then trim_left s else c ∷ s

unfoldable pub trim_right : Text → Text
trim_right [] = []
trim_right (c ∷ s) = let rest = trim_right s in if is_empty rest && blank c then [] else c ∷ rest

unfoldable pub trim : Text → Text
trim s = trim_right (trim_left s)

-- `strings.SplitN(s, sep, n)` for n above 0
unfoldable pub split_n : ℕ → ℕ → Text → List Text
split_n sep zero s = []
split_n sep (suc zero) s = s ∷ []
split_n sep (suc (suc n)) [] = [] ∷ []
split_n sep (suc (suc n)) (d ∷ s) =
    if d == sep then [] ∷ split_n sep (suc n) s else glue d (split_n sep (suc (suc n)) s)

-- `strconv.Atoi` on texts that are too short to overflow
unfoldable pub digits : ℕ → Text → Option ℕ
digits n [] = some n
digits n (c ∷ s) =
    let rest = digits (n * 10 + (c - 48)) s in if leb 48 c && leb c 57 then rest else none

unfoldable pub atoi : Text → Option ℤ
atoi [] = none
atoi (c ∷ s) =
    if c == 45 || c == 43
    then (if is_empty s then none else elim (digits 0 s) [
      | none ↦ none
      | some n ↦ some (if c == 45 && not (n == 0) then negsuc (n - 1) else pos n)
    ])
    else elim (digits 0 (c ∷ s)) [ none ↦ none | some n ↦ some (pos n) ]

-- `cutPriority`: the priority and the rest, where there is one.
unfoldable pub priority_between : ℕ → Text → Option (ℤ × Text)
priority_between end s =
    if ltb end 2 || ltb 4 end then none else elim (atoi (take (end - 1) (drop 1 s))) [
      | none ↦ none
      | some pri ↦
          if not (leb_ℤ (pos 0) pri) || not (leb_ℤ pri (pos 191))
          then none
          else some (pri, drop (end + 1) s)
    ]

unfoldable pub cut_priority : Text → Option (ℤ × Text)
cut_priority s =
    if not (has_prefix s (codes "<"))
    then none
    else elim (index_byte 62 s) [ none ↦ none | some end ↦ priority_between end s ]

-- `elementEnd`, with its two flags and the index of the next byte
unfoldable pub element_end_from : Bool → Bool → ℕ → Text → Option ℕ
element_end_from escaped quoted i [] = none
element_end_from escaped quoted i (c ∷ s) =
    let skipped = element_end_from false quoted (i + 1) s in
    let backslash = element_end_from true quoted (i + 1) s in
    let quote = element_end_from false (not quoted) (i + 1) s in
    if escaped
    then skipped
    else (if c == 92
        then backslash
        else (if c == 34 then quote else (if c == 93 && not quoted then some i else skipped)))

unfoldable pub element_end : Text → Option ℕ
element_end s = element_end_from false false 1 (drop 1 s)

-- The loop of `skipStructuredData`, on fuel.
unfoldable pub skip_elements : ℕ → Text → Text
skip_elements zero s = s
skip_elements (suc fuel) s =
    let end = element_end s in
    let rest = skip_elements fuel (elim end [ none ↦ [] | some i ↦ drop (i + 1) s ]) in
    if has_prefix s (codes "[") then elim end [ none ↦ [] | some i ↦ rest ] else s

unfoldable pub skip_structured_data : Text → Text
skip_structured_data s =
    if has_prefix s (codes "-") then drop 1 s else skip_elements (suc (length s)) s

-- `cutHost`
unfoldable pub ends_with : ℕ → Text → Bool
ends_with c [] = false
ends_with c (d ∷ []) = d == c
ends_with c (d ∷ e ∷ s) = ends_with c (e ∷ s)

unfoldable pub cut_host : Text → Option (Text × Text)
cut_host s =
    let (host, after, found) = cut 32 s in
    if not found || (is_empty host || (ends_with 58 host || has_byte 91 host))
    then none
    else some (host, after)

-- `bsd_time` and `rfc_time` tell whether time.Parse takes a text as "Jan _2 15:04:05" and as time.RFC3339Nano.
module _ (bsd_time rfc_time : Text → Bool) where
  -- `isRFC3339`
  unfoldable pub is_rfc3339 : Text → Bool
  is_rfc3339 s = elim (get_elem? s 10) [ none ↦ false | some c ↦ c == 84 && rfc_time s ]

  -- `cutRFC5424`: the host to set, if any, and the rest.
  unfoldable pub cut_fields : List Text → Option (Option Text × Text)
  cut_fields (version ∷ time ∷ host ∷ app ∷ proc ∷ id ∷ rest) =
      if not (text_eq version (codes "1"))
        || (not (text_eq time (codes "-")) && not (is_rfc3339 time))
      then none
      else some (
        if text_eq host (codes "-") then none else some host,
        elim rest [ [] ↦ [] | sd ∷ more ↦ skip_structured_data sd ],
      )
  cut_fields _ = none

  unfoldable pub cut_rfc5424 : Text → Option (Option Text × Text)
  cut_rfc5424 s = cut_fields (split_n 32 7 s)

  -- `cutTimestamp`; the BSD format has 15 bytes.
  unfoldable pub cut_token : Text → Option Text
  cut_token s =
      let (token, after, found) = cut 32 s in if is_rfc3339 token then some after else none

  unfoldable pub cut_timestamp : Text → Option Text
  cut_timestamp s = elim (get_elem? s 15) [
    | none ↦ cut_token s
    | some c ↦ if c == 32 && bsd_time (take 15 s) then some (drop 16 s) else cut_token s
  ]

  -- The part of `Parse` for headers of RFC 3164.
  unfoldable pub parse_bsd : Text → ℤ → Text → Message
  parse_bsd raw priority rest = elim (cut_timestamp rest) [
    | none ↦ record { host = []; priority = priority; text = trim rest; raw = raw }
    | some after ↦ elim (cut_host after) [
      | none ↦ record { host = []; priority = priority; text = trim after; raw = raw }
      | some found ↦ record {
        host = found.0;
        priority = priority;
        text = trim (found.1);
        raw = raw;
      }
    ]
  ]

  unfoldable pub parse : Text → Message
  parse raw = elim (cut_priority raw) [
    | none ↦ parse_bsd raw (negsuc 0) raw
    | some header ↦ elim (cut_rfc5424 (header.1)) [
      | none ↦ parse_bsd raw (header.0) (header.1)
      | some found ↦ record {
        host = elim (found.0) [ none ↦ [] | some host ↦ host ];
        priority = header.0;
        text = trim (trim_prefix (trim_prefix (found.1) (codes " ")) (239 ∷ 187 ∷ 191 ∷ []));
        raw = raw;
      }
    ]
  ]

  -- `Serve`: what one read of the socket gives, and the messages and the count after the reads, up to the close.
  pub data Read : Type 0 where
    failed closed : Read
    datagram : Text → Text → Read

  unfoldable pub serve : List Read → List (Text × Message) × ℕ → List (Text × Message) × ℕ
  serve [] st = st
  serve (closed ∷ reads) st = st
  serve (failed ∷ reads) st = serve reads st
  serve (datagram from bytes ∷ reads) (handed, received) =
      serve reads (handed ++ (from, parse bytes) ∷ [], received + 1)
