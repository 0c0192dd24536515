-- ===== src/Validation/Path.antt =====
-- src/autoswe/pipeline/validation.py: `_unsafe_segment`, `normalize_path`, `path_key`. What Python's
-- `unicodedata` and `str` know of Unicode is a parameter.
use autonomous_ai_software_e.Prelude.{
  ℕ, Bool, true, false, Option, none, some, List, [], ◌∷◌, ◌||◌, not, ltb, leb, ◌==◌, if◌then◌else◌,
  length,
}
use autonomous_ai_software_e.Validation.Text.{
  Text, codes, is_empty, text_eq, any, trim_right, strip, split, join,
}

-- `str.isspace`, `str.casefold`, `unicodedata.category(char) == "Cf"`, `unicodedata.normalize("NFC", ...)`.
pub record Unicode : Type 0 where
  pub is_space : ℕ → Bool
  pub casefold : Text → Text
  pub is_format : ℕ → Bool
  pub nfc : Text → Text

abbrev pub member : List Text → Text → Bool
member ts t = any (text_eq t) ts

-- The device names that Windows reserves.
abbrev windows_reserved : List Text
windows_reserved =
    codes "con"
    ∷ codes "prn"
    ∷ codes "aux"
    ∷ codes "nul"
    ∷ codes "com1"
    ∷ codes "com2"
    ∷ codes "com3"
    ∷ codes "com4"
    ∷ codes "com5"
    ∷ codes "com6"
    ∷ codes "com7"
    ∷ codes "com8"
    ∷ codes "com9"
    ∷ codes "lpt1"
    ∷ codes "lpt2"
    ∷ codes "lpt3"
    ∷ codes "lpt4"
    ∷ codes "lpt5"
    ∷ codes "lpt6"
    ∷ codes "lpt7"
    ∷ codes "lpt8"
    ∷ codes "lpt9"
    ∷ []

abbrev git_dir_names : List Text
git_dir_names = codes ".git" ∷ codes "git~1" ∷ []

abbrev pub max_path_depth : ℕ
max_path_depth = 8

-- `[<>:"|?*\x00-\x1f\x7f]`
unfoldable pub invalid_char : ℕ → Bool
invalid_char c =
    leb c 0x1f
    || c == 0x7f
    || c == b'<'
    || c == b'>'
    || c == b':'
    || c == 0x22
    || c == b'|'
    || c == b'?'
    || c == b'*'

unfoldable pub dot_or_space : ℕ → Bool
dot_or_space c = c == b'.' || c == b' '

-- `text.split(".", 1)[0]`
unfoldable pub first_part : List Text → Text
first_part [] = []
first_part (p ∷ ps) = p

unfoldable pub unsafe_segment : Unicode → Text → Bool
unfolding dot_or_space first_part text_eq any
unsafe_segment u part =
    let folded = u.casefold part in
    if member ([] ∷ codes "." ∷ codes ".." ∷ []) part
    then true
    else if not (text_eq part (trim_right dot_or_space part))
    then true
    else member git_dir_names folded || member windows_reserved (first_part (split b'.' folded))

abbrev pub starts_slash : Text → Bool
starts_slash [] = false
starts_slash (c ∷ cs) = c == b'/'

-- The checks after the strip. The path is joined again from its parts, none of which `PurePosixPath`
-- drops or merges: they are not empty and not ".".
unfoldable pub checked_path : Unicode → Text → Option Text
unfolding invalid_char unsafe_segment
checked_path u candidate =
    let parts = split b'/' candidate in
    if is_empty candidate || any (λ c. c == 0x5c) candidate || starts_slash candidate
    then none
    else if any invalid_char candidate
    then none
    else if any u.is_format candidate
    then none
    else if ltb max_path_depth (length parts) || any (unsafe_segment u) parts
    then none
    else some (join b'/' parts)

unfoldable pub normalize_path : Unicode → Text → Option Text
unfolding checked_path strip
normalize_path u raw = checked_path u (strip u.is_space raw)

-- Identity of a path on a case-insensitive file system.
unfoldable pub path_key : Unicode → Text → Text
path_key u path = u.casefold (u.nfc path)
