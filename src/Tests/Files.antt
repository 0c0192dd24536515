-- ===== src/Tests/Files.antt =====
-- Paths and file sets through the checks of src/autoswe/pipeline/validation.py, over ASCII.
use autonomous_ai_software_e.Prelude.{
  ◌≡◌, refl, String, false, none, some, List, [], ◌∷◌, ◌==◌, length,
}
use autonomous_ai_software_e.Validation.Text.{codes, strip, split, join}
use autonomous_ai_software_e.Validation.Path.{Unicode, normalize_path}
use autonomous_ai_software_e.Validation.Stable.{
  normalize_path-stable, Contained, normalize_path-Contained,
}
use autonomous_ai_software_e.Validation.Sanitize.{
  Limits, SourceFile, Accepted, values, get, sanitize_files,
}
use autonomous_ai_software_e.Validation.Intake.{Within, sanitize_files-Within}

abbrev ascii : Unicode
ascii = record {
  is_space = λ c. c == b' ';
  casefold = λ t. t;
  is_format = λ c. false;
  nfc = λ t. t;
}

accepted : normalize_path ascii (codes " src/app.py") ≡ some (codes "src/app.py")
unfolding normalize_path split join
accepted = refl

traversal : normalize_path ascii (codes "src/../../app.py") ≡ none
unfolding normalize_path split
traversal = refl

normalize_path-stable_example :
    (codes "src/app.py" ≡ strip ascii.is_space (codes " src/app.py"))
    × (normalize_path ascii (codes "src/app.py") ≡ some (codes "src/app.py"))
normalize_path-stable_example = normalize_path-stable ascii (codes " src/app.py") accepted

normalize_path-Contained_example : Contained (codes "src/app.py")
normalize_path-Contained_example = normalize_path-Contained ascii (codes " src/app.py") accepted

abbrev few : Limits
few = record { max_files = 2; max_file_bytes = 4; max_total_bytes = 6 }

abbrev file : String → String → SourceFile
file path content = record { path = codes path; content = codes content; description = [] }

-- A traversal, two files, a replacement of the first, one that is too large, and one too many.
abbrev handed_in : List SourceFile
handed_in =
    file "../a" "x"
    ∷ file "a" "xx"
    ∷ file "b" "yyy"
    ∷ file " a" "z"
    ∷ file "c" "wwwww"
    ∷ file "d" "v"
    ∷ []

sanitize_files-Within_example :
    (a : Accepted) × (values a ≡ (sanitize_files ascii length few handed_in).0)
    × Within ascii length few a
sanitize_files-Within_example = sanitize_files-Within ascii length few handed_in

kept : (sanitize_files ascii length few handed_in).0 ≡ file "a" "z" ∷ file "b" "yyy" ∷ []
unfolding sanitize_files split join get
kept = refl
