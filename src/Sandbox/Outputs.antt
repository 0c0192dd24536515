-- ===== src/Sandbox/Outputs.antt =====
-- What a backend of src/autoswe/sandbox/backends.py makes of the output of a run: `_read_capped`.
use autonomous_ai_software_e.Prelude.{
  ℕ, zero, suc, ◌+◌, ◌-◌, ◌≡◌, refl, ap, inl, inr, Bool, false, ◌||◌, List, [], ◌∷◌, ◌++◌, arith,
  ltb, if◌then◌else◌, length, take, Bool-cases, length-append,
}
use autonomous_ai_software_e.Validation.Text.{Text}
use autonomous_ai_software_e.Sandbox.{concat}

-- The loop of `_read_capped` over the chunks that are read before the end of the stream.
unfoldable pub read_capped : ℕ → ℕ → Bool → List Text → List Text × Bool
read_capped cap size overflow [] = ([], overflow)
read_capped cap size overflow (chunk ∷ rest) =
    let more =
      read_capped cap (size + length chunk) (overflow || ltb cap (size + length chunk)) rest in
    if ltb size cap then (take (cap - size) chunk ∷ more.0, more.1) else more

append_assoc : (xs ys zs : Text) → (xs ++ ys) ++ zs ≡ xs ++ (ys ++ zs)
append_assoc [] ys zs = refl
append_assoc (x ∷ xs) ys zs = ap (λ (t : Text). x ∷ t) (append_assoc xs ys zs)

take-append : (n : ℕ) (xs ys : Text) → take n (xs ++ ys) ≡ take n xs ++ take (n - length xs) ys
take-append zero xs ys = let none_left : 0 - length xs ≡ 0 = omega arith in rw none_left refl
take-append (suc n) [] ys = let whole : suc n - 0 ≡ suc n = omega arith in rw whole refl
take-append (suc n) (x ∷ xs) ys =
    let same : suc n - suc (length xs) ≡ n - length xs = omega arith in
    rw same (ap (λ (t : Text). x ∷ t) (take-append n xs ys))

kept-from :
    (cap size : ℕ) (overflow : Bool) (chunks : List Text)
    → concat (read_capped cap size overflow chunks).0 ≡ take (cap - size) (concat chunks)
unfolding read_capped concat
kept-from cap size overflow [] = take_nil (cap - size)
  where
    take_nil : (n : ℕ) → [] ≡ take {A = ℕ} n []
    take_nil zero = refl
    take_nil (suc n) = refl
kept-from cap size overflow (chunk ∷ rest) =
    let after = size + length chunk in
    let ih = kept-from cap after (overflow || ltb cap after) rest in
    let left : cap - size - length chunk ≡ cap - after = omega arith in
    rw (take-append (cap - size) chunk (concat rest), left)
      (elim (Bool-cases (ltb size cap)) [
        | inl y ↦ rw y (ap (λ (t : Text). take (cap - size) chunk ++ t) ih)
        | inr n ↦ let full : cap - size ≡ 0 = ground arith in rw (n, full) ih
      ])

overflow-from :
    (cap size : ℕ) (overflow : Bool) (chunks : List Text)
    → overflow ≡ ltb cap size
    → (read_capped cap size overflow chunks).1 ≡ ltb cap (size + length (concat chunks))
unfolding read_capped concat
overflow-from cap size overflow [] h = let end : size + 0 ≡ size = omega arith in rw (end, h) refl
overflow-from cap size overflow (chunk ∷ rest) h =
    let after = size + length chunk in
    let over : (overflow || ltb cap after) ≡ ltb cap after = ground arith in
    let ih = overflow-from cap after (overflow || ltb cap after) rest over in
    let total : size + length (chunk ++ concat rest) ≡ after + length (concat rest) =
      omega (arith, length-append chunk (concat rest)) in
    rw total (elim (Bool-cases (ltb size cap)) [ inl y ↦ rw y ih | inr n ↦ rw n ih ])

-- However the output of a run is cut into chunks, what is kept of it is its first `cap` bytes, and it is
-- said to overflow exactly when it has more.
pub read_capped-eq :
    (cap : ℕ) (chunks : List Text)
    → (concat (read_capped cap 0 false chunks).0 ≡ take cap (concat chunks))
      × ((read_capped cap 0 false chunks).1 ≡ ltb cap (length (concat chunks)))
read_capped-eq cap chunks =
    let all : cap - 0 ≡ cap = omega arith in
    let start : 0 + length (concat chunks) ≡ length (concat chunks) = omega arith in
    (
      rw all at (kept-from cap 0 false chunks),
      rw start at (overflow-from cap 0 false chunks (ground arith)),
    )
