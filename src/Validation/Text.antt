-- ===== src/Validation/Text.antt =====
-- Python's `str.strip`, `str.rstrip`, `str.split(sep)` and `sep.join`, over the code points.
use Prim.Native.Char.{code}
use autonomous_ai_software_e.Prelude.{
  ℕ, ◌≡◌, refl, ap, ◌∙◌, inl, inr, String, Bool, true, false, List, [], ◌∷◌, ◌&&◌, ◌==◌,
  if◌then◌else◌, arith, Bool-cases, All,
}

abbrev pub Text : Type 0
Text = List ℕ

abbrev pub codes : String → Text
codes String.[] = []
codes (String.◌∷◌ c s) = code c ∷ codes s

abbrev pub is_empty {ℓ} : {A : Type ℓ} → List A → Bool
is_empty [] = true
is_empty (x ∷ xs) = false

unfoldable pub text_eq : Text → Text → Bool
text_eq [] [] = true
text_eq [] (d ∷ ds) = false
text_eq (c ∷ cs) [] = false
text_eq (c ∷ cs) (d ∷ ds) = c == d && text_eq cs ds

-- `c in text`, and `any(test(c) for c in text)`
unfoldable pub any {ℓ} : {A : Type ℓ} → (A → Bool) → List A → Bool
any test [] = false
any test (x ∷ xs) = if test x then true else any test xs

module _ (space : ℕ → Bool) where
  unfoldable pub trim_left : Text → Text
  trim_left [] = []
  trim_left (c ∷ cs) = let rest = trim_left cs in if space c then rest else c ∷ cs

  unfoldable pub trim_right : Text → Text
  trim_right [] = []
  trim_right (c ∷ cs) =
      let rest = trim_right cs in if is_empty rest && space c then [] else c ∷ rest

  unfoldable pub strip : Text → Text
  unfolding trim_left trim_right
  strip t = trim_right (trim_left t)

  trim_right_idem : (t : Text) → trim_right (trim_right t) ≡ trim_right t
  unfolding trim_right
  trim_right_idem [] = refl
  trim_right_idem (c ∷ cs) = elim (Bool-cases (is_empty (trim_right cs) && space c)) [
    | inl y ↦ rw (y, trim_right) refl
    | inr n ↦ rw (n, trim_right) (rw (trim_right_idem cs, n) refl)
  ]

  trim_left-strip : (t : Text) → trim_left (trim_right (trim_left t)) ≡ trim_right (trim_left t)
  unfolding trim_left trim_right
  trim_left-strip [] = refl
  trim_left-strip (c ∷ cs) = elim (Bool-cases (space c)) [
    | inl y ↦ rw (y, trim_left) (trim_left-strip cs)
    | inr n ↦ ground arith
  ]

  pub strip_idem : (t : Text) → strip (strip t) ≡ strip t
  unfolding strip
  strip_idem t = ap trim_right (trim_left-strip t) ∙ trim_right_idem (trim_left t)

-- The parts between the separators; one part more than there are separators.
abbrev pub cons_head : ℕ → List Text → List Text
cons_head c [] = (c ∷ []) ∷ []
cons_head c (p ∷ ps) = (c ∷ p) ∷ ps

unfoldable pub split : ℕ → Text → List Text
split sep [] = [] ∷ []
split sep (c ∷ cs) = let rest = split sep cs in if c == sep then [] ∷ rest else cons_head c rest

unfoldable pub join : ℕ → List Text → Text
join sep [] = []
join sep ([] ∷ []) = []
join sep ([] ∷ p ∷ ps) = sep ∷ join sep (p ∷ ps)
join sep ((c ∷ cs) ∷ ps) = c ∷ join sep (cs ∷ ps)

-- `split` gives at least one part.
pub split-cons : (sep : ℕ) (t : Text) → (p : Text) × (ps : List Text) × (split sep t ≡ p ∷ ps)
unfolding split
split-cons sep [] = ([], [], refl)
split-cons sep (c ∷ cs) =
    let (p, ps, e) = split-cons sep cs in
    elim (Bool-cases (c == sep)) [
      | inl y ↦ ([], split sep cs, rw y refl)
      | inr n ↦ (c ∷ p, ps, rw (n, e) refl)
    ]

-- Joining what was split gives the text back.
pub join-split : (sep : ℕ) (t : Text) → join sep (split sep t) ≡ t
unfolding join split
join-split sep [] = refl
join-split sep (c ∷ cs) =
    let (p, ps, e) = split-cons sep cs in
    let ih : join sep (p ∷ ps) ≡ cs = rw e at (join-split sep cs) in
    elim (Bool-cases (c == sep)) [
      | inl y ↦ let same : c ≡ sep = ground arith in rw (y, e) (cc (ih, same))
      | inr n ↦ rw (n, e) (ap (λ (t : Text). c ∷ t) ih)
    ]

-- No part holds the separator.
abbrev pub Free : ℕ → Text → Type 0
Free sep [] = Unit
Free sep (c ∷ cs) = ((c == sep) ≡ false) × Free sep cs

pub split-Free : (sep : ℕ) (t : Text) → All (Free sep) (split sep t)
unfolding split
split-Free sep [] = (tt, tt)
split-Free sep (c ∷ cs) =
    let (p, ps, e) = split-cons sep cs in
    let ih : All (Free sep) (p ∷ ps) = rw e at (split-Free sep cs) in
    elim (Bool-cases (c == sep)) [
      | inl y ↦ rw y (tt, split-Free sep cs)
      | inr n ↦ rw (n, e) ((n, ih.0), ih.1)
    ]
