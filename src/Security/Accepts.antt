-- ===== src/Security/Accepts.antt =====
-- Which keys src/autoswe/security.py accepts.
use autonomous_ai_software_e.Prelude.{
  ℕ, ◌≡◌, refl, ap, ◌∙◌, inl, inr, Bool, true, false, ◌||◌, Option, none, some, List, [], ◌∷◌,
  arith, ◌==◌, ltb, if◌then◌else◌, length, Bool-cases, Option-cases, &&-elim,
}
use mathlib.Core.Option.{some-injective}
use autonomous_ai_software_e.Validation.Text.{Text, is_empty, text_eq, strip, split}
use autonomous_ai_software_e.Security.{
  Keys, put_key, cut_at, read_entry, read_entries, parsed_api_keys, entries_of, last_match,
  principal_of, authenticate_key,
}

-- `keys.get(key)`
abbrev pub principal_for : Text → Keys → Option Text
principal_for key [] = none
principal_for key ((k, p) ∷ rest) = if text_eq k key then some p else principal_for key rest

text_eq→eq : (a b : Text) → text_eq a b ≡ true → a ≡ b
unfolding text_eq
text_eq→eq [] [] h = refl
text_eq→eq [] (d ∷ ds) h = cc
text_eq→eq (c ∷ cs) [] h = cc
text_eq→eq (c ∷ cs) (d ∷ ds) h =
    let (x, xs) = &&-elim (c == d) (text_eq cs ds) h in
    let head : c ≡ d = ground arith in cc (head, text_eq→eq cs ds xs)

text_eq_refl : (a : Text) → text_eq a a ≡ true
unfolding text_eq
text_eq_refl [] = refl
text_eq_refl (c ∷ cs) = ground (arith, text_eq_refl cs)

-- Every key stands once, and no principal's name is empty.
Sound : Keys → Type 0
Sound [] = Unit
Sound ((k, p) ∷ rest) = (principal_for k rest ≡ none) × (is_empty p ≡ false) × Sound rest

principal_for-put_other :
    (key other principal : Text) (keys : Keys)
    → text_eq other key ≡ false
    → principal_for key (put_key other principal keys) ≡ principal_for key keys
unfolding put_key
principal_for-put_other key other principal [] h = rw h refl
principal_for-put_other key other principal ((k, p) ∷ rest) h =
    elim (Bool-cases (text_eq k other)) [
      | inl y ↦ rw (y, h, text_eq→eq k other y) (rw h refl)
      | inr n ↦ rw n (
          ap (λ (o : Option Text). if text_eq k key then some p else o)
            (principal_for-put_other key other principal rest h))
    ]

not_text_eq_sym : (a b : Text) → text_eq a b ≡ false → text_eq b a ≡ false
not_text_eq_sym a b h = elim (Bool-cases (text_eq b a)) [
  | inr n ↦ n
  | inl y ↦ cc (rw (text_eq→eq b a y, text_eq_refl a) at h)
]

put_key-Sound :
    (key principal : Text) (keys : Keys)
    → is_empty principal ≡ false
    → Sound keys
    → Sound (put_key key principal keys)
unfolding Sound put_key
put_key-Sound key principal [] h s = (refl, h, tt)
put_key-Sound key principal ((k, p) ∷ rest) h s = elim (Bool-cases (text_eq k key)) [
  | inl y ↦ rw y (rw (text_eq→eq k key y) at s.0, h, s.2)
  | inr n ↦ rw n (
    principal_for-put_other k key principal rest (not_text_eq_sym k key n) ∙ s.0,
    s.1,
    put_key-Sound key principal rest h s.2,
  )
]

module _ (space : ℕ → Bool) where
  read_entry-Sound :
      (entry : Option (Text × Text)) (keys : Keys) {more : Keys}
      → Sound keys
      → read_entry space entry keys ≡ some more
      → Sound more
  unfolding read_entry
  read_entry-Sound none keys s h = cc
  read_entry-Sound (some (principal, key)) keys {more} s h =
      elim (Bool-cases (is_empty (strip space principal) || ltb (length (strip space key)) 16)) [
        | inl y ↦ cc (rw (y, read_entry) at h)
        | inr n ↦
            let same = some-injective _ more (rw (n, read_entry) at h) in
            let named : is_empty (strip space principal) ≡ false = ground arith in
            rw (← same) (put_key-Sound (strip space key) (strip space principal) keys named s)
      ]

  read_entries-Sound :
      (parts : List Text) (keys : Keys) {all : Keys}
      → Sound keys
      → read_entries space parts keys ≡ some all
      → Sound all
  unfolding read_entries
  read_entries-Sound [] keys {all} s h = rw (← some-injective keys all h) s
  read_entries-Sound (part ∷ rest) keys {all} s h =
      elim (Bool-cases (is_empty (strip space part))) [
        | inl y ↦ read_entries-Sound rest keys s (rw (y, read_entries) at h)
        | inr n ↦ elim (Option-cases (read_entry space (cut_at 58 (strip space part)) keys)) [
          | inl e ↦ cc (rw (n, e, read_entries) at h)
          | inr (more, e) ↦
              read_entries-Sound rest more
                (read_entry-Sound (cut_at 58 (strip space part)) keys s e)
                (rw (n, e, read_entries) at h)
        ]
      ]

abbrev or_else : Option Text → Option Text → Option Text
or_else none match = match
or_else (some p) match = some p

named_principal :
    (key : Text) (keys : Keys)
    → Sound keys
    → principal_of (principal_for key keys) ≡ principal_for key keys
unfolding Sound principal_of
named_principal key [] s = refl
named_principal key ((k, p) ∷ rest) s = elim (Bool-cases (text_eq k key)) [
  | inl y ↦ rw y (rw s.1 refl)
  | inr n ↦ rw n (named_principal key rest s.2)
]

module _ (digest : Text → Text)
    (apart : (a b : Text) → text_eq (digest a) (digest b) ≡ text_eq a b) where
  last_match-eq :
      (key : Text) (keys : Keys) (match : Option Text)
      → Sound keys
      → last_match digest (digest key) (entries_of digest keys) match
        ≡ or_else (principal_for key keys) match
  unfolding Sound last_match
  last_match-eq key [] match s = refl
  last_match-eq key ((k, p) ∷ rest) match s = elim (Bool-cases (text_eq k key)) [
    | inl y ↦
        let hit = apart k key ∙ y in
        let alone : principal_for key rest ≡ none = rw (text_eq→eq k key y) at s.0 in
        rw (hit, last_match) (rw y (last_match-eq key rest (some p) s.2 ∙ rw alone refl))
    | inr n ↦
        let miss = apart k key ∙ n in
        rw (miss, last_match) (rw n (last_match-eq key rest match s.2))
  ]

  -- With the keys of a configuration that can be read, and no two texts of one digest, a key that is
  -- presented is accepted exactly when it is one of them, as the principal that it stands with.
  pub authenticate_key-eq :
      (space : ℕ → Bool) (raw key : Text) {keys : Keys}
      → parsed_api_keys space raw ≡ some keys
      → is_empty key ≡ false
      → authenticate_key digest false keys (some key) ≡ principal_for key keys
  unfolding parsed_api_keys authenticate_key Sound
  authenticate_key-eq space raw key {keys} h there =
      let s = read_entries-Sound space (split 44 raw) [] {all = keys} tt h in
      rw (there, last_match-eq key keys none s)
        (ap principal_of (or_none (principal_for key keys)) ∙ named_principal key keys s)
    where
      or_none : (o : Option Text) → or_else o none ≡ o
      or_none none = refl
      or_none (some p) = refl
