-- ===== src/Api/Cursor.antt =====
-- `_event_cursor` of src/autoswe/api/jobs.py, and the number that `_sse` prints as an event's id.
pub mod RoundTrip
use autonomous_ai_software_e.Prelude.{
  ℕ, zero, suc, ◌+◌, ◌-◌, ◌*◌, ◌/◌, ◌%◌, ◌≡◌, refl, Bool, true, false, not, ◌&&◌, Option, none,
  some, List, [], ◌∷◌, arith, leb, ltb, if◌then◌else◌, length,
}
use autonomous_ai_software_e.Validation.Text.{Text, is_empty, strip}

-- The decimal digits of a number, before those in `out`; a number below the fuel has as many turns as it
-- needs.
unfoldable pub digits_onto : ℕ → ℕ → Text → Text
digits_onto zero n out = out
digits_onto (suc fuel) n out = elim (ltb n 10) [
  | true ↦ (48 + n) ∷ out
  | false ↦ digits_onto fuel (n / 10) ((48 + n % 10) ∷ out)
]

-- `f"{event_id}"`
unfoldable pub decimal : ℕ → Text
unfolding digits_onto
decimal n = digits_onto (suc n) n []

unfoldable pub is_digit : ℕ → Bool
is_digit c = leb 48 c && leb c 57

unfoldable pub all_digits : Text → Bool
unfolding is_digit
all_digits [] = true
all_digits (c ∷ cs) = is_digit c && all_digits cs

-- The value of the digits, read after those that make `n`.
unfoldable pub read_digits : ℕ → Text → ℕ
read_digits n [] = n
read_digits n (c ∷ cs) = read_digits (n * 10 + (c - 48)) cs

-- `int` reads at most so many digits, and raises a ValueError on more.
abbrev pub max_str_digits : ℕ
max_str_digits = 4300

-- `last_event_id or ""`
unfoldable pub header_text : Option Text → Text
header_text none = []
header_text (some t) = t

-- `after or 0`
unfoldable pub start_after : Option ℕ → ℕ
start_after none = 0
start_after (some n) = n

-- `value.isascii() and value.isdecimal()`
unfoldable pub is_decimal : Text → Bool
unfolding all_digits
is_decimal t = not (is_empty t) && all_digits t

-- `none` is the ValueError; `space` is `str.isspace`.
unfoldable pub event_cursor : (ℕ → Bool) → Option Text → Option ℕ → Option ℕ
unfolding header_text start_after is_decimal read_digits strip
event_cursor space last_event_id after =
    let value = strip space (header_text last_event_id) in
    if is_decimal value
    then (if leb (length value) max_str_digits then some (read_digits 0 value) else none)
    else some (start_after after)
