-- ===== src/Api/Cursor/RoundTrip.antt =====
-- The id of an event of src/autoswe/api/jobs.py, printed by `_sse` and sent back as `Last-Event-ID`.
use autonomous_ai_software_e.Prelude.{
  ℕ, zero, suc, ◌+◌, ◌-◌, ◌*◌, ◌/◌, ◌%◌, ◌^◌, ◌≤◌, ◌<◌, ◌≡◌, refl, inl, inr, Bool, true, false,
  Option, some, [], ◌∷◌, arith, ltb, leb, length, Bool-cases, &&-elim,
}
use autonomous_ai_software_e.Validation.Text.{Text, is_empty, trim_left, trim_right, strip}
use autonomous_ai_software_e.Api.Cursor.{
  digits_onto, decimal, is_digit, all_digits, read_digits, max_str_digits, is_decimal, header_text,
  event_cursor,
}

digits_onto-last :
    (fuel n : ℕ) (out : Text) → ltb n 10 ≡ true → digits_onto (suc fuel) n out ≡ (48 + n) ∷ out
unfolding digits_onto
digits_onto-last fuel n out y = rw (y, digits_onto) refl

digits_onto-more :
    (fuel n : ℕ) (out : Text)
    → ltb n 10 ≡ false
    → digits_onto (suc fuel) n out ≡ digits_onto fuel (n / 10) ((48 + n % 10) ∷ out)
unfolding digits_onto
digits_onto-more fuel n out m = rw (m, digits_onto) refl

-- A digit is read as what it was printed for.
read_digits-digits_onto :
    (fuel n : ℕ) (out : Text)
    → n < fuel
    → read_digits 0 (digits_onto fuel n out) ≡ read_digits n out
unfolding digits_onto read_digits
read_digits-digits_onto zero n out h = absurd (omega arith)
read_digits-digits_onto (suc fuel) n out h = elim (Bool-cases (ltb n 10)) [
  | inl y ↦
      let same : 0 * 10 + (48 + n - 48) ≡ n = omega arith in
      rw (digits_onto-last fuel n out y) (rw same refl)
  | inr m ↦
      let small : n / 10 < fuel = ground arith in
      let same : n / 10 * 10 + (48 + n % 10 - 48) ≡ n = omega arith in
      rw (digits_onto-more fuel n out m)
        (rw (read_digits-digits_onto fuel (n / 10) ((48 + n % 10) ∷ out) small) (rw same refl))
]

is_digit-print : (d : ℕ) → d < 10 → is_digit (48 + d) ≡ true
unfolding is_digit
is_digit-print d h = ground arith

all_digits-digits_onto :
    (fuel n : ℕ) (out : Text) → all_digits out ≡ true → all_digits (digits_onto fuel n out) ≡ true
unfolding digits_onto all_digits
all_digits-digits_onto zero n out h = h
all_digits-digits_onto (suc fuel) n out h = elim (Bool-cases (ltb n 10)) [
  | inl y ↦ rw (digits_onto-last fuel n out y) (rw (is_digit-print n (ground arith)) h)
  | inr m ↦ rw (digits_onto-more fuel n out m) (
      all_digits-digits_onto fuel (n / 10) ((48 + n % 10) ∷ out)
        (rw (is_digit-print (n % 10) (omega arith)) h))
]

length-digits_onto :
    (fuel k n : ℕ) (out : Text)
    → n < 10 ^ suc k
    → length (digits_onto fuel n out) ≤ suc k + length out
unfolding digits_onto
length-digits_onto zero k n out h = omega arith
length-digits_onto (suc fuel) zero n out h =
    rw (digits_onto-last fuel n out (ground (arith, h))) (omega arith)
length-digits_onto (suc fuel) (suc j) n out h = elim (Bool-cases (ltb n 10)) [
  | inl y ↦ rw (digits_onto-last fuel n out y) (omega arith)
  | inr m ↦
      let small : n / 10 < 10 ^ suc j = omega arith in
      rw (digits_onto-more fuel n out m)
        (omega (arith, length-digits_onto fuel j (n / 10) ((48 + n % 10) ∷ out) small))
]

not_empty-digits_onto :
    (fuel n : ℕ) (out : Text) → is_empty out ≡ false → is_empty (digits_onto fuel n out) ≡ false
unfolding digits_onto
not_empty-digits_onto zero n out h = h
not_empty-digits_onto (suc fuel) n out h = elim (Bool-cases (ltb n 10)) [
  | inl y ↦ rw (digits_onto-last fuel n out y) refl
  | inr m ↦
      rw (digits_onto-more fuel n out m)
        (not_empty-digits_onto fuel (n / 10) ((48 + n % 10) ∷ out) refl)
]

not_empty-decimal : (n : ℕ) → is_empty (decimal n) ≡ false
unfolding decimal digits_onto
not_empty-decimal n = elim (Bool-cases (ltb n 10)) [
  | inl y ↦ rw (digits_onto-last n n [] y) refl
  | inr m ↦
      rw (digits_onto-more n n [] m) (not_empty-digits_onto n (n / 10) ((48 + n % 10) ∷ []) refl)
]

module _ (space : ℕ → Bool) (solid : (c : ℕ) → is_digit c ≡ true → space c ≡ false) where
  trim_left-digits : (t : Text) → all_digits t ≡ true → trim_left space t ≡ t
  unfolding trim_left all_digits
  trim_left-digits [] h = refl
  trim_left-digits (c ∷ cs) h = rw (solid c (&&-elim (is_digit c) (all_digits cs) h).0) refl

  trim_right-digits : (t : Text) → all_digits t ≡ true → trim_right space t ≡ t
  unfolding trim_right all_digits
  trim_right-digits [] h = refl
  trim_right-digits (c ∷ cs) h =
      let (first, rest) = &&-elim (is_digit c) (all_digits cs) h in
      rw (trim_right-digits cs rest) (ground (arith, solid c first))

  strip-digits : (t : Text) → all_digits t ≡ true → strip space t ≡ t
  unfolding strip
  strip-digits t h = rw (trim_left-digits t h) (trim_right-digits t h)

  -- A client that sends back the id of the last event it has received resumes after that event, whatever
  -- `?after=` says, if the id has at most 4300 digits and no digit is white space.
  pub event_cursor-decimal :
      (n : ℕ) (after : Option ℕ)
      → n < 10 ^ max_str_digits
      → event_cursor space (some (decimal n)) after ≡ some n
  unfolding event_cursor header_text is_decimal decimal
  event_cursor-decimal n after h =
      let digits = all_digits-digits_onto (suc n) n [] refl in
      let short = length-digits_onto (suc n) 4299 n [] h in
      let fits : leb (length (decimal n)) max_str_digits ≡ true = ground (arith, short) in
      rw (strip-digits (decimal n) digits, digits, not_empty-decimal n, fits)
        (rw (read_digits-digits_onto (suc n) n [] (omega arith)) refl)
