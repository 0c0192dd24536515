-- ===== src/Api/Title.antt =====
-- `_title_from_spec` of src/autoswe/api/jobs.py, over the characters of a text. `space` is what
-- Python's `str.isspace` and the regular expression's `\s` say of a code point.
use Prim.Native.Char.{Char, code}
use Prim.Native.Nat.{◌≤◌}
use text.Mathlib.TextBridge.{of_list}
use autonomous_ai_software_e.Prelude.{
  ℕ, zero, suc, ◌-◌, ◌≡◌, refl, ap, inl, inr, String, Bool, false, ◌||◌, ◌&&◌, Option, none, some,
  List, [], ◌∷◌, ◌++◌, arith, ◌==◌, leb, if◌then◌else◌, length, take, Bool-cases, Option-cases,
  length-append,
}
use autonomous_ai_software_e.Validation.Text.{is_empty}

abbrev pub Chars : Type 0
Chars = List Char

unfoldable pub chars : String → Chars
chars String.[] = []
chars (String.◌∷◌ c s) = c ∷ chars s

chars-of_list : (t : Chars) → chars (of_list t) ≡ t
unfolding chars
chars-of_list [] = refl
chars-of_list (c ∷ cs) = ap (λ (u : Chars). c ∷ u) (chars-of_list cs)

-- `text.lstrip(...)` and `text.rstrip(...)` of the characters that pass the test.
unfoldable pub lstrip : (ℕ → Bool) → Chars → Chars
lstrip test [] = []
lstrip test (c ∷ cs) = let rest = lstrip test cs in if test (code c) then rest else c ∷ cs

unfoldable pub rstrip : (ℕ → Bool) → Chars → Chars
rstrip test [] = []
rstrip test (c ∷ cs) =
    let rest = rstrip test cs in if is_empty rest && test (code c) then [] else c ∷ rest

-- The line boundaries of `str.splitlines`.
unfoldable pub line_break : ℕ → Bool
line_break n =
    (leb 10 n && leb n 13) || (leb 28 n && leb n 30) || n == 133 || n == 8232 || n == 8233

-- `text.splitlines()[0]`, of a text that is not empty.
unfoldable pub first_line : Chars → Chars
unfolding line_break
first_line [] = []
first_line (c ∷ cs) = let rest = first_line cs in if line_break (code c) then [] else c ∷ rest

-- `.`, `!`, `?` and `:`
unfoldable pub ends_sentence : ℕ → Bool
ends_sentence n = n == 46 || n == 33 || n == 63 || n == 58

-- `re.split(r"(?<=[.!?:])\s", text, maxsplit=1)[0]`; `after` says that such a character stands before.
unfoldable pub first_sentence : (ℕ → Bool) → Bool → Chars → Chars
unfolding ends_sentence
first_sentence space after [] = []
first_sentence space after (c ∷ cs) =
    let rest = first_sentence space (ends_sentence (code c)) cs in
    if after && space (code c) then [] else c ∷ rest

-- `text.rsplit(" ", 1)[0]`; `none` when there is no space.
unfoldable pub before_last_space : Chars → Option Chars
before_last_space [] = none
before_last_space (c ∷ cs) = elim (before_last_space cs) [
  | some head ↦ some (c ∷ head)
  | none ↦ if code c == 32 then some [] else none
]

unfoldable pub rsplit_space : Chars → Chars
unfolding before_last_space
rsplit_space t = elim (before_last_space t) [ none ↦ t | some head ↦ head ]

abbrev dot_or_colon : ℕ → Bool
dot_or_colon n = n == 46 || n == 58

-- `,`, `;`, `:` and `-`
abbrev joins_clauses : ℕ → Bool
joins_clauses n = n == 44 || n == 59 || n == 58 || n == 45

abbrev ellipsis : Char
ellipsis = Char.char 8230 tt

-- The sentence, cut at a word when it is longer than the limit.
unfoldable pub shorten : ℕ → Chars → Chars
unfolding rstrip rsplit_space
shorten limit sentence =
    if leb (length sentence) limit
    then sentence
    else rstrip joins_clauses (rsplit_space (take (limit - 1) sentence)) ++ ellipsis ∷ []

unfoldable pub title_from_spec : (ℕ → Bool) → ℕ → String → String
unfolding chars lstrip rstrip first_line first_sentence shorten
title_from_spec space limit spec = of_list (
    shorten limit (
      rstrip dot_or_colon
        (first_sentence space false (first_line (rstrip space (lstrip space (chars spec)))))))

length-rstrip : (test : ℕ → Bool) (t : Chars) → length (rstrip test t) ≤ length t
unfolding rstrip
length-rstrip test [] = omega arith
length-rstrip test (c ∷ cs) = ground (arith, length-rstrip test cs)

length-before_last_space :
    (t : Chars) {head : Chars} → before_last_space t ≡ some head → length head ≤ length t
unfolding before_last_space
length-before_last_space [] h = cc
length-before_last_space (c ∷ cs) {head} h = elim (Option-cases (before_last_space cs)) [
  | inl e ↦ ground arith
  | inr (front, e) ↦ ground (arith, length-before_last_space cs {head = front})
]

length-rsplit_space : (t : Chars) → length (rsplit_space t) ≤ length t
unfolding rsplit_space
length-rsplit_space t = elim (Option-cases (before_last_space t)) [
  | inl e ↦ rw (e, rsplit_space) (omega arith)
  | inr (head, e) ↦ rw (e, rsplit_space) (length-before_last_space t e)
]

length-take : (n : ℕ) (t : Chars) → length (take n t) ≤ n
length-take zero t = omega arith
length-take (suc n) [] = omega arith
length-take (suc n) (c ∷ cs) = omega (arith, length-take n cs)

length-shorten : (limit : ℕ) (t : Chars) → 1 ≤ limit → length (shorten limit t) ≤ limit
unfolding shorten
length-shorten limit t h = elim (Bool-cases (leb (length t) limit)) [
  | inl y ↦ ground arith
  | inr n ↦
      let cut = rsplit_space (take (limit - 1) t) in
      rw (n, shorten)
        (omega (
          arith,
          length-append (rstrip joins_clauses cut) (ellipsis ∷ []),
          length-rstrip joins_clauses cut,
          length-rsplit_space (take (limit - 1) t),
          length-take (limit - 1) t,
        ))
]

-- The title that is made of a specification has at most as many characters as the limit, if that is
-- at least one.
pub title_from_spec-Short :
    (space : ℕ → Bool) (limit : ℕ) (spec : String)
    → 1 ≤ limit
    → length (chars (title_from_spec space limit spec)) ≤ limit
unfolding title_from_spec
title_from_spec-Short space limit spec h =
    let sentence =
      rstrip dot_or_colon
        (first_sentence space false (first_line (rstrip space (lstrip space (chars spec))))) in
    rw (chars-of_list (shorten limit sentence)) (length-shorten limit sentence h)
