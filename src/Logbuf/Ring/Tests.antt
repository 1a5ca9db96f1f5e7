-- ===== src/Logbuf/Ring/Tests.antt =====
-- Tests of the ring on short logs, and the theorems at concrete inputs.
use ha_lua.Base.{
  ◌≡◌, refl, List, [], ◌∷◌, ◌++◌, false, Option, some, arith, codes, Text, ℤ, pos, ℕ, keep, map,
  text_eq, lookup,
}
use ha_lua.Logbuf.Ring.{
  Record, Buffer, Query, new, append, ordered, snapshot, select, matches_script,
}
use ha_lua.Logbuf.Ring.Window.{append_all, number, last, append_all-window, numbered}
use ha_lua.Logbuf.Ring.Poll.{IsLog, snapshot-append_all, wanted}

ring_code : Unit {0}
unfolding new append ordered snapshot select matches_script append_all number numbered text_eq
    lookup
ring_code = tt

abbrev line : ℕ → Record
line t = record { seq = 0; time = t; level = codes "INFO"; msg = codes "m"; attrs = [] }

abbrev lines : List Record
lines = line 1 ∷ line 2 ∷ line 3 ∷ []

abbrev all_info : Text → Option ℤ
all_info level = some (pos 0)

abbrev since : ℕ → Query
since n = record { since = n; level = pos 0; script = [] }

wrapped : map (λ (r : Record). r.time) (ordered (append_all lines (new (pos 2)))) ≡ 2 ∷ 3 ∷ []
unfolding ring_code
wrapped = refl

polled :
    map (λ (r : Record). r.seq) (snapshot all_info (since 2) (append_all lines (new (pos 2)))).0
    ≡ 3 ∷ []
unfolding ring_code
polled = refl

abbrev short : Buffer
short = record { ring = line 0 ∷ line 0 ∷ []; next = 0; seq = 0; full = false }

short-IsLog : IsLog short
unfolding ring_code
short-IsLog = record { within = omega arith; counted = tt }

append_all-window_example :
    ordered (append_all lines short) ≡ last 2 (ordered short ++ number 0 lines)
append_all-window_example = append_all-window lines short (omega arith)

snapshot-append_all_example :
    snapshot all_info (since 0) (append_all (line 1 ∷ line 2 ∷ []) short)
    ≡ (keep (wanted all_info (since 0)) (number 0 (line 1 ∷ line 2 ∷ [])), 2)
snapshot-append_all_example =
    snapshot-append_all all_info (since 0) (line 1 ∷ line 2 ∷ []) short short-IsLog refl
      (omega arith) (omega arith)
