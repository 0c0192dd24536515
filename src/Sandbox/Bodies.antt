-- ===== src/Sandbox/Bodies.antt =====
-- The size of a request's body in src/autoswe/sandbox/service.py.
use autonomous_ai_software_e.Prelude.{
  ℕ, ◌+◌, ◌≤◌, ◌≡◌, refl, ap, inl, inr, true, false, Option, none, some, List, [], ◌∷◌, ◌++◌, arith,
  ltb, if◌then◌else◌, length, Bool-cases, length-append,
}
use autonomous_ai_software_e.Validation.Text.{Text}
use autonomous_ai_software_e.Sandbox.{collect, concat, join_body, declared_over, read_body}

append_next :
    (chunks : List Text) (chunk : Text) (rest : List Text)
    → (chunks ++ chunk ∷ []) ++ rest ≡ chunks ++ (chunk ∷ rest)
append_next [] chunk rest = refl
append_next (c ∷ chunks) chunk rest = ap (λ (t : List Text). c ∷ t) (append_next chunks chunk rest)

append_nil : (chunks : List Text) → chunks ++ [] ≡ chunks
append_nil [] = refl
append_nil (c ∷ chunks) = ap (λ (t : List Text). c ∷ t) (append_nil chunks)

collect-eq :
    (max size : ℕ) (chunks rest : List Text)
    → size ≤ max
    → collect max size chunks rest
      ≡ (if ltb max (size + length (concat rest)) then none else some (chunks ++ rest))
unfolding collect concat
collect-eq max size chunks [] h =
    let fits : ltb max (size + 0) ≡ false = ground arith in rw (fits, append_nil chunks) refl
collect-eq max size chunks (chunk ∷ rest) h =
    let after = size + length chunk in
    let total : size + length (chunk ++ concat rest) ≡ after + length (concat rest) =
      omega (arith, length-append chunk (concat rest)) in
    rw total (elim (Bool-cases (ltb max after)) [
      | inl y ↦
          let over : ltb max (after + length (concat rest)) ≡ true = ground arith in
          rw (y, over) refl
      | inr n ↦ rw n (
          rw (← append_next chunks chunk rest)
            (collect-eq max after (chunks ++ chunk ∷ []) rest (ground arith)))
    ])

-- A body is read exactly when its declared length, where there is one, and its own are within the
-- limit, whatever chunks it comes in; it is then the chunks joined.
pub read_body-eq :
    (max : ℕ) (declared : Option ℕ) (chunks : List Text)
    → read_body max declared chunks ≡ (
        if declared_over max declared
        then none
        else if ltb max (length (concat chunks))
        then none
        else some (concat chunks))
unfolding read_body join_body
read_body-eq max declared chunks =
    let start : 0 + length (concat chunks) ≡ length (concat chunks) = omega arith in
    let all = rw start at (collect-eq max 0 [] chunks (omega arith)) in
    elim (Bool-cases (declared_over max declared)) [
      | inl y ↦ rw (y, read_body) refl
      | inr n ↦
          rw (n, read_body)
            (rw all (elim (Bool-cases (ltb max (length (concat chunks)))) [
              | inl y ↦ rw (y, join_body) refl
              | inr m ↦ rw (m, join_body) refl
            ]))
    ]
