-- ===== src/Publishing.antt =====
-- `repository_name_problem` of src/autoswe/publishing.py, and what `publish_project` is given and how it
-- ends; its requests to GitHub are not modelled.
use autonomous_ai_software_e.Prelude.{
  ℕ, ◌+◌, String, Bool, true, false, ◌||◌, ◌&&◌, List, [], ◌∷◌, ◌==◌, leb, if◌then◌else◌, length,
}
use autonomous_ai_software_e.Model.{Json, Job}
use autonomous_ai_software_e.Repository.Statements.{GeneratedFile}
use autonomous_ai_software_e.Validation.Text.{Text, is_empty, text_eq, codes}

abbrev between : ℕ → ℕ → ℕ → Bool
between a b c = leb a c && leb c b

-- `[A-Za-z0-9._-]`
unfoldable pub name_char : ℕ → Bool
name_char c =
    between 65 90 c || between 97 122 c || between 48 57 c || c == 46 || c == 95 || c == 45

unfoldable pub all_chars : (ℕ → Bool) → Text → Bool
all_chars test [] = true
all_chars test (c ∷ cs) = test c && all_chars test cs

-- What `$` leaves unread: one newline at the end.
unfoldable pub drop_newline : Text → Text
drop_newline [] = []
drop_newline (c ∷ cs) = if is_empty cs && c == 10 then [] else c ∷ drop_newline cs

-- `REPOSITORY_NAME.match`
unfoldable pub matches_name : Text → Bool
unfolding all_chars name_char drop_newline
matches_name name =
    let t = drop_newline name in all_chars name_char t && leb 1 (length t) && leb (length t) 100

unfoldable pub starts_with_dot : Text → Bool
starts_with_dot [] = false
starts_with_dot (c ∷ cs) = c == 46

-- `str.lower`, where it can make one of the four characters below: the Kelvin sign and its like are
-- not among a matching name's.
unfoldable pub lower : Text → Text
lower [] = []
lower (c ∷ cs) = (if between 65 90 c then c + 32 else c) ∷ lower cs

unfoldable pub ends_with : Text → Text → Bool
unfolding text_eq
ends_with t [] = text_eq t []
ends_with t (c ∷ cs) = if text_eq (c ∷ cs) t then true else ends_with t cs

-- Whether the name is refused.
unfoldable pub repository_name_problem : Text → Bool
unfolding matches_name starts_with_dot lower ends_with
repository_name_problem name =
    if matches_name name
    then (if starts_with_dot name then true else ends_with (codes ".git") (lower name))
    else true

-- The arguments of `publish_project`.
pub record Project : Type 0 where
  pub name : String
  pub visibility : String
  pub description : String
  pub files : List GeneratedFile
  pub branch : String
  pub title : String
  pub body : String

-- It returns the repository's name, the pull request's address and the whole document, or raises a
-- `PublishError` with its text, code and status.
pub data PublishEnd : Type 0 where
  pull_request : String → String → Json → PublishEnd
  publish_error : String → String → ℕ → PublishEnd

-- GitHub, `pull_request_body`, and the JSON text of a failure's document.
pub record Github : Type 0 where
  pub publish_project : Project → PublishEnd
  pub pull_request_body : Job → ℕ → String
  pub failed_document : String → String → Json
