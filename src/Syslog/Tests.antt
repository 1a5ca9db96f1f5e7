-- ===== src/Syslog/Tests.antt =====
-- The line "<165>1 - host app - ID47 [id a=\"x]y\"] done" and others.
use ha_lua.Base.{
  some, ℕ, ◌≡◌, ◌≤◌, refl, true, false, List, [], ◌∷◌, pos, negsuc, text_eq, has_prefix, has_byte,
  codes, arith, ◌⊎◌, if◌then◌else◌,
}
use ha_lua.Syslog.{facility, severity, parse, trim, trim_left, trim_right, blank}
use ha_lua.Syslog.Elements.{Piece, bare, quotation, letter}
use ha_lua.Syslog.Lines.{Line, IsLine, print, parse-print}
use ha_lua.Syslog.Range.{parse-InRange}

-- `[a"]"]`: a closing bracket inside quotes
abbrev element : List Piece
element = bare 97 ∷ quotation (letter 93 ∷ []) ∷ []

abbrev line : Line
line = record {
  priority = 165;
  time = codes "-";
  host = codes "host";
  app = codes "app";
  proc = codes "-";
  id = codes "ID47";
  elements = element ∷ [];
  message = some (true, codes " done");
}

line-IsLine : IsLine (λ s. false) (λ s. false) line
unfolding text_eq has_byte has_prefix trim trim_left trim_right blank
line-IsLine = record {
  in_range = omega arith;
  dated = refl;
  time_field = refl;
  host_field = refl;
  app_field = refl;
  proc_field = refl;
  id_field = refl;
  well_quoted = (
    (
      (λ e. omega arith, λ e. omega arith, λ e. omega arith),
      (((λ e. omega arith, λ e. omega arith), tt), tt),
    ),
    tt,
  );
  worded = tt;
}

parse-print_example : parse (λ s. false) (λ s. false) (print line) ≡ record {
  host = if text_eq line.host (codes "-") then [] else line.host;
  priority = pos line.priority;
  text = trim (codes " done");
  raw = print line;
}
parse-print_example = parse-print (λ s. false) (λ s. false) line line-IsLine

parse-InRange_example :
    let m = parse (λ s. true) (λ s. false) (codes "<34>Oct 11 22:14:15 mymachine su: failed") in
    (m.raw ≡ codes "<34>Oct 11 22:14:15 mymachine su: failed")
    × (((facility m ≡ negsuc 0) × (severity m ≡ negsuc 0))
        ⊎ ((f v : ℕ) × (facility m ≡ pos f) × (severity m ≡ pos v) × (f ≤ 23) × (v ≤ 7)))
parse-InRange_example =
    parse-InRange (λ s. true) (λ s. false) (codes "<34>Oct 11 22:14:15 mymachine su: failed")
