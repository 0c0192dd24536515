-- ===== src/Validation/Sanitize.antt =====
-- src/autoswe/pipeline/validation.py: `sanitize_files`. The size of a text in UTF-8 is a parameter. An
-- issue keeps its severity, rule and file; its wording is left out.
use autonomous_ai_software_e.Prelude.{
  ℕ, ◌+◌, ◌-◌, String, Bool, true, false, Option, none, some, List, [], ◌∷◌, ◌++◌, ltb, leb,
  if◌then◌else◌, length,
}
use autonomous_ai_software_e.Validation.Text.{Text, text_eq}
use autonomous_ai_software_e.Validation.Path.{Unicode, normalize_path, path_key}

pub record Limits : Type 0 where
  pub max_files : ℕ
  pub max_file_bytes : ℕ
  pub max_total_bytes : ℕ

pub record SourceFile : Type 0 where
  pub path : Text
  pub content : Text
  pub description : Text

pub data Severity : Type 0 where
  error warning info : Severity

pub record Issue : Type 0 where
  pub severity : Severity
  pub rule : String
  pub file : Option Text

-- The dictionary `accepted`, in the order of first insertion.
abbrev pub Accepted : Type 0
Accepted = List (Text × SourceFile)

unfoldable pub get : Text → Accepted → Option SourceFile
unfolding text_eq
get key [] = none
get key ((k, f) ∷ rest) = if text_eq k key then some f else get key rest

unfoldable pub put : Text → SourceFile → Accepted → Accepted
unfolding text_eq
put key file [] = (key, file) ∷ []
put key file ((k, f) ∷ rest) =
    if text_eq k key then (key, file) ∷ rest else (k, f) ∷ put key file rest

abbrev pub values : Accepted → List SourceFile
values [] = []
values ((k, f) ∷ rest) = f ∷ values rest

module _ (u : Unicode) (size : Text → ℕ) (limits : Limits) where
  -- The loop's variables; `stopped` is set by `break`.
  pub record Intake : Type 0 where
    pub accepted : Accepted
    pub total : ℕ
    pub issues : List Issue
    pub stopped : Bool

  abbrev pub start : Intake
  start = record { accepted = []; total = 0; issues = []; stopped = false }

  unfoldable pub report : Severity → String → Option Text → Intake → Intake
  report severity rule file s = record s {
    issues = s.issues ++ record { severity = severity; rule = rule; file = file } ∷ [];
  }

  unfoldable pub stop : Intake → Intake
  stop s = record s { stopped = true }

  -- The check of the total, and the insertion.
  unfoldable pub insert_file : Text → Text → SourceFile → Intake → Intake
  unfolding report stop put
  insert_file key path file s =
      if ltb limits.max_total_bytes (s.total + size file.content)
      then stop (report Severity.error "total-size" (some path) s)
      else record s {
        accepted = put key (record file { path = path }) s.accepted;
        total = s.total + size file.content;
      }

  -- A key that is there is replaced; a new one must fit under the number of files.
  unfoldable pub place_file : Text → Text → SourceFile → Option SourceFile → Intake → Intake
  unfolding insert_file
  place_file key path file (some old) s = insert_file key path file (
      report Severity.warning "duplicate-path" (some path)
        (record s { total = s.total - size old.content }))
  place_file key path file none s =
      if leb limits.max_files (length s.accepted)
      then stop (report Severity.error "file-count" none s)
      else insert_file key path file s

  unfoldable pub take_file : SourceFile → Option Text → Intake → Intake
  unfolding place_file get path_key
  take_file file none s = report Severity.error "path-safety" none s
  take_file file (some path) s =
      if ltb limits.max_file_bytes (size file.content)
      then report Severity.error "file-size" (some path) s
      else place_file (path_key u path) path file (get (path_key u path) s.accepted) s

  unfoldable pub take_files : List SourceFile → Intake → Intake
  unfolding take_file normalize_path
  take_files [] s = s
  take_files (f ∷ fs) s =
      let rest = take_files fs (take_file f (normalize_path u f.path) s) in
      if s.stopped then s else rest

  unfoldable pub sanitize_files : List SourceFile → List SourceFile × List Issue
  unfolding take_files
  sanitize_files files = let s = take_files files start in (values s.accepted, s.issues)
