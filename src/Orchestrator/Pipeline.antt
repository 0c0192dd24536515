-- ===== src/Orchestrator/Pipeline.antt =====
-- What the orchestrator and its agents share: `PipelineState`, `StageResult` and the protocol `Agent`
-- of src/autoswe/pipeline/agents.py, as far as src/autoswe/pipeline/orchestrator.py reads and writes them, and
-- what it stores of a stage. An artifact is its JSON document, with the parts that are read beside it.
use Prim.Native.String.{◌++◌ as str_append}
use autonomous_ai_software_e.Prelude.{
  ℕ, zero, suc, String, Bool, Option, none, some, List, [], ◌∷◌, if◌then◌else◌, str_eq, length,
}
use autonomous_ai_software_e.Model.{
  StageStatus, StageName, TokenUsage, Artifacts, StageRun, Db, Json, Value, text, num, null, flag,
  Payload,
}
use autonomous_ai_software_e.Repository.Statements.{GeneratedFile}

pub record Requirements : Type 0 where
  pub project_name : String
  pub document : Json

pub record Report : Type 0 where
  pub passed : Bool
  pub document : Json

pub record Review : Type 0 where
  pub score : ℕ
  pub document : Json

-- The test runs: the last one's status, and what `test_report` makes of all of them.
pub record TestRuns : Type 0 where
  pub status : String
  pub report : Json

-- A dictionary; the order of its entries is not read.
abbrev pub Dict {ℓ} : Type ℓ → Type ℓ
Dict A = List (String × A)

unfoldable pub lookup {ℓ} : {A : Type ℓ} → String → Dict A → Option A
lookup key [] = none
lookup key ((k, a) ∷ rest) = if str_eq k key then some a else lookup key rest

unfoldable pub set_key {ℓ} : {A : Type ℓ} → String → A → Dict A → Dict A
set_key key a [] = (key, a) ∷ []
set_key key a ((k, b) ∷ rest) =
    if str_eq k key then (key, a) ∷ rest else (k, b) ∷ set_key key a rest

pub record PipelineState : Type 0 where
  pub requirements : Option Requirements
  pub architecture : Option Json
  pub files : Dict GeneratedFile
  pub file_origin : Dict StageName
  pub validation : Option Report
  pub review : Option Review
  pub tests : Option TestRuns

pub record StageResult : Type 0 where
  pub summary : String
  pub files : List String

-- How `agent.run` ends: it returns, raises an `LLMError` (its text, whether it is retryable, its code),
-- raises another exception of the named class, or is cancelled with its task.
pub data Attempt : Type 0 where
  answers : StageResult → Attempt
  llm_error : String → Bool → Option String → Attempt
  crashes : String → Attempt
  is_cancelled : Attempt

-- What is there when `agent.run` has ended: the database, into which the agent, its metered calls and
-- every other process may have written, the agent's state, the meter's total and the time.
pub record Ran : Type 0 where
  pub db : Db
  pub state : PipelineState
  pub total : TokenUsage
  pub now : ℕ
  pub duration : ℕ
  pub attempt : Attempt

pub record Agent : Type 0 where
  pub stage : StageName
  pub run : PipelineState → TokenUsage → ℕ → Db → Ran

unfoldable pub stage_label : StageName → String
stage_label StageName.analyze = "Requirements analyst"
stage_label StageName.architect = "Architect"
stage_label StageName.implement = "Code generator"
stage_label StageName.devops = "DevOps engineer"
stage_label StageName.review = "Reviewer"

-- f"{STAGE_LABELS[stage]}: {exc}" and f"{STAGE_LABELS[stage]} crashed ({type(exc).__name__})"
unfoldable pub error_message : StageName → String → String
unfolding stage_label
error_message stage e = str_append (stage_label stage) (str_append ": " e)

unfoldable pub crash_message : StageName → String → String
unfolding stage_label
crash_message stage name =
    str_append (stage_label stage) (str_append " crashed (" (str_append name ")"))

-- `text[:n]`
unfoldable pub clip : ℕ → String → String
clip zero s = ""
clip (suc n) String.[] = ""
clip (suc n) (String.◌∷◌ c s) = String.◌∷◌ c (clip n s)

-- The files with these paths; `none` where `state.files[p]` raises.
unfoldable pub named_files : List String → Dict GeneratedFile → Option (List GeneratedFile)
unfolding lookup
named_files [] files = some []
named_files (p ∷ ps) files = elim (lookup p files) [
  | none ↦ none
  | some f ↦ elim (named_files ps files) [ none ↦ none | some fs ↦ some (f ∷ fs) ]
]

abbrev pub document_of {ℓ} : {A : Type ℓ} → (A → Json) → Option A → Option Json → Option Json
document_of dump none old = old
document_of dump (some a) old = some (dump a)

-- The artifacts that a stage that succeeded has made.
unfoldable pub stage_artifacts : StageName → PipelineState → Artifacts → Artifacts
unfolding clip
stage_artifacts StageName.analyze st a = elim st.requirements [
  | none ↦ a
  | some r ↦ record a {
    requirements = some r.document;
    project_name = some (clip 64 r.project_name);
  }
]
stage_artifacts StageName.architect st a = record a {
  architecture = document_of (λ d. d) st.architecture a.architecture;
}
stage_artifacts StageName.review st a = record a {
  validation = document_of (λ r. r.document) st.validation a.validation;
  review = document_of (λ r. r.document) st.review a.review;
  test_report = elim st.tests [ none ↦ none | some t ↦ some t.report ];
}
stage_artifacts _ st a = a

-- The columns of `_update_stage` when a stage starts, when it fails and when it succeeds.
unfoldable pub start_stage : ℕ → StageRun → StageRun
start_stage now s = record s { status = StageStatus.running; started_at = some now }

unfoldable pub fail_stage : ℕ → String → StageRun → StageRun
fail_stage now message s = record s {
  status = StageStatus.failed;
  finished_at = some now;
  summary = some message;
}

unfoldable pub complete_stage : ℕ → String → TokenUsage → StageRun → StageRun
complete_stage now summary usage s = record s {
  status = StageStatus.succeeded;
  finished_at = some now;
  summary = some summary;
  usage = record s.usage {
    input_tokens = usage.input_tokens;
    output_tokens = usage.output_tokens;
    cache_read_input_tokens = usage.cache_read_input_tokens;
    cache_creation_input_tokens = usage.cache_creation_input_tokens;
    cost_microusd = usage.cost_microusd;
  };
}

abbrev pub optional {ℓ} : {A : Type ℓ} → (A → Value) → Option A → Value
optional f none = null
optional f (some a) = f a

-- The payload of `job.succeeded`.
unfoldable pub success_payload : PipelineState → Payload
success_payload st =
    ("files", num (length st.files))
    ∷ ("validation_passed", optional (λ r. flag r.passed) st.validation)
    ∷ ("tests", optional (λ t. text t.status) st.tests)
    ∷ ("score", optional (λ r. num r.score) st.review)
    ∷ []
