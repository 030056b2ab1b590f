-- ===== src/Dsl/Durations.antt =====
-- `duration_to_milliseconds`, `duration_to_seconds` and `format_duration` of
-- sdk/python/src/helixgrid/dsl.py, with the match of `_DURATION_RE` on a whole text.
pub mod RoundTrip
use helix_grid.Prelude.{
  ℕ, zero, suc, ◌+◌, ◌*◌, ◌/◌, ◌%◌, Bool, not, List, [], ◌∷◌, ◌++◌, Option, none, some, ltb, ◌==◌,
  if◌then◌else◌,
}
use helix_grid.Prelude.Codes.{Codes, codes, same_codes, leading, after, is_digit, number}
use helix_grid.Prelude.Exec.{Result, ok, err}
use helix_grid.Dsl.Types.{DslError, plain_error}

-- The table of units
unfoldable pub multiplier : Codes → Option ℕ
multiplier u =
    if same_codes u (codes "ms")
    then some 1
    else if same_codes u (codes "s")
    then some 1000
    else if same_codes u (codes "m")
    then some 60000
    else if same_codes u (codes "h")
    then some 3600000
    else none

-- What becomes of the two groups of the match; an empty number or no unit is no match.
unfoldable pub scaled : Codes → Option ℕ → ℕ → ℕ → Result DslError ℕ
scaled [] unit line column = err (plain_error "invalid duration" line column)
scaled (d ∷ ds) none line column = err (plain_error "invalid duration" line column)
scaled (d ∷ ds) (some m) line column =
    let result = number (d ∷ ds) * m in
    if ltb 86400000 result
    then err (plain_error "duration exceeds 24 hours" line column)
    else ok result

unfoldable pub duration_to_milliseconds : Codes → ℕ → ℕ → Result DslError ℕ
unfolding multiplier scaled
duration_to_milliseconds value line column =
    scaled (leading is_digit value) (multiplier (after is_digit value)) line column

abbrev pub to_seconds : Result DslError ℕ → ℕ → ℕ → Result DslError ℕ
to_seconds (err e) line column = err e
to_seconds (ok milliseconds) line column =
    if milliseconds % 1000 == 0
    then ok (milliseconds / 1000)
    else err (plain_error "task timeout must resolve to whole seconds" line column)

unfoldable pub duration_to_seconds : Codes → ℕ → ℕ → Result DslError ℕ
duration_to_seconds value line column =
    to_seconds (duration_to_milliseconds value line column) line column

-- `str(n)`. The digits come last first, and a number has at most as many as itself, and one.
unfoldable pub digits_within : ℕ → ℕ → Codes
digits_within zero n = []
digits_within (suc fuel) n =
    let front = digits_within fuel (n / 10) in
    if ltb n 10 then (b'0' + n) ∷ [] else front ++ (b'0' + n % 10) ∷ []

unfoldable pub digits : ℕ → Codes
unfolding digits_within
digits n = digits_within (suc n) n

unfoldable pub format_duration : ℕ → Codes
format_duration ms =
    if ms % 3600000 == 0
    then digits (ms / 3600000) ++ codes "h"
    else if ms % 60000 == 0
    then digits (ms / 60000) ++ codes "m"
    else if ms % 1000 == 0
    then digits (ms / 1000) ++ codes "s"
    else digits ms ++ codes "ms"
