-- ===== src/Model.antt =====
-- The persistent state: src/autoswe/models.py, with the stage names of src/autoswe/pipeline/artifacts.py and
-- the token counts of src/autoswe/llm/base.py. A row is a record with the table's columns; those of
-- `jobs` stand in groups (the submission, the artifacts, the totals). Texts and identifiers are
-- `String`, instants are microseconds since the epoch, a JSON document is its text, and a stage's
-- text value is the stage. An event's payload keeps its keys, with text, numbers, Booleans, lists of text and null as values.
use autonomous_ai_software_e.Prelude.{
  ℕ, ◌+◌, ◌-◌, String, Bool, true, false, Option, none, List, [], ◌∷◌,
}

pub data JobStatus : Type 0 where
  queued running succeeded failed cancelled : JobStatus

-- `JobStatus.terminal`
unfoldable pub terminal : JobStatus → Bool
terminal JobStatus.queued = false
terminal JobStatus.running = false
terminal JobStatus.succeeded = true
terminal JobStatus.failed = true
terminal JobStatus.cancelled = true

unfoldable pub status_eq : JobStatus → JobStatus → Bool
status_eq JobStatus.queued JobStatus.queued = true
status_eq JobStatus.running JobStatus.running = true
status_eq JobStatus.succeeded JobStatus.succeeded = true
status_eq JobStatus.failed JobStatus.failed = true
status_eq JobStatus.cancelled JobStatus.cancelled = true
status_eq _ _ = false

pub data StageStatus : Type 0 where
  pending running succeeded failed skipped : StageStatus

unfoldable pub stage_done : StageStatus → Bool
stage_done StageStatus.succeeded = true
stage_done _ = false

-- `StageStatus.PENDING` or `StageStatus.RUNNING`
unfoldable pub stage_open : StageStatus → Bool
stage_open StageStatus.pending = true
stage_open StageStatus.running = true
stage_open _ = false

pub data StageName : Type 0 where
  analyze architect implement devops review : StageName

abbrev pub stage_order : List StageName
stage_order =
    StageName.analyze ∷ StageName.architect ∷ StageName.implement ∷ StageName.devops
    ∷ StageName.review ∷ []

unfoldable pub stage_eq : StageName → StageName → Bool
stage_eq StageName.analyze StageName.analyze = true
stage_eq StageName.architect StageName.architect = true
stage_eq StageName.implement StageName.implement = true
stage_eq StageName.devops StageName.devops = true
stage_eq StageName.review StageName.review = true
stage_eq _ _ = false

-- The counters are never negative.
pub record TokenUsage : Type 0 where
  pub input_tokens : ℕ
  pub output_tokens : ℕ
  pub cache_read_input_tokens : ℕ
  pub cache_creation_input_tokens : ℕ
  pub cost_microusd : ℕ
  pub unpriced_calls : ℕ

abbrev pub no_usage : TokenUsage
no_usage = record {
  input_tokens = 0;
  output_tokens = 0;
  cache_read_input_tokens = 0;
  cache_creation_input_tokens = 0;
  cost_microusd = 0;
  unpriced_calls = 0;
}

unfoldable pub total_tokens : TokenUsage → ℕ
total_tokens u = u.input_tokens + u.output_tokens

unfoldable pub add_usage : TokenUsage → TokenUsage → TokenUsage
add_usage a b = record {
  input_tokens = a.input_tokens + b.input_tokens;
  output_tokens = a.output_tokens + b.output_tokens;
  cache_read_input_tokens = a.cache_read_input_tokens + b.cache_read_input_tokens;
  cache_creation_input_tokens = a.cache_creation_input_tokens + b.cache_creation_input_tokens;
  cost_microusd = a.cost_microusd + b.cost_microusd;
  unpriced_calls = a.unpriced_calls + b.unpriced_calls;
}

unfoldable pub sub_usage : TokenUsage → TokenUsage → TokenUsage
sub_usage a b = record {
  input_tokens = a.input_tokens - b.input_tokens;
  output_tokens = a.output_tokens - b.output_tokens;
  cache_read_input_tokens = a.cache_read_input_tokens - b.cache_read_input_tokens;
  cache_creation_input_tokens = a.cache_creation_input_tokens - b.cache_creation_input_tokens;
  cost_microusd = a.cost_microusd - b.cost_microusd;
  unpriced_calls = a.unpriced_calls - b.unpriced_calls;
}

abbrev pub Json : Type 0
Json = String

pub data Value : Type 0 where
  null : Value
  text : String → Value
  num : ℕ → Value
  flag : Bool → Value
  texts : List String → Value

abbrev pub Payload : Type 0
Payload = List (String × Value)

-- The columns that the submission fixes.
pub record Submission : Type 0 where
  pub owner : String
  pub title : String
  pub spec : String
  pub provider : String
  pub model : String
  pub request_id : Option String
  pub trace_context : Option Json
  pub stack : String
  pub idempotency_key : Option String
  pub request_hash : Option String

-- What the stages have produced.
pub record Artifacts : Type 0 where
  pub project_name : Option String
  pub requirements : Option Json
  pub architecture : Option Json
  pub validation : Option Json
  pub review : Option Json
  pub test_report : Option Json

abbrev pub no_artifacts : Artifacts
no_artifacts = record {
  project_name = none;
  requirements = none;
  architecture = none;
  validation = none;
  review = none;
  test_report = none;
}

-- The column `publication`: {"status": "publishing"} while it runs, then the outcome's document.
pub data Publication : Type 0 where
  publishing : Publication
  recorded : Json → Publication

pub record Job : Type 0 where
  pub id : String
  pub submission : Submission
  pub open submission use {owner, provider, idempotency_key}
  pub created_at : ℕ
  pub status : JobStatus
  pub current_stage : Option StageName
  pub cancel_requested : Bool
  pub error : Option String
  pub error_code : Option String
  pub artifacts : Artifacts
  pub totals : TokenUsage
  pub tokens_reserved : ℕ
  pub budget_period_start : Option ℕ
  pub publication : Option Publication
  pub worker_id : Option String
  pub retries : ℕ
  pub run_after : Option ℕ
  pub updated_at : ℕ
  pub started_at : Option ℕ
  pub finished_at : Option ℕ
  pub heartbeat_at : Option ℕ

pub record StageRun : Type 0 where
  pub job_id : String
  pub name : StageName
  pub position : ℕ
  pub status : StageStatus
  pub summary : Option String
  pub usage : TokenUsage
  pub started_at : Option ℕ
  pub finished_at : Option ℕ

pub record JobFile : Type 0 where
  pub job_id : String
  pub path : String
  pub content : String
  pub size : ℕ
  pub stage : StageName
  pub description : String

pub record JobEvent : Type 0 where
  pub id : ℕ
  pub job_id : String
  pub kind : String  -- the column `type`
  pub payload : Payload
  pub created_at : ℕ

-- The ledger's row of a principal in a budget period.
pub record PrincipalUsage : Type 0 where
  pub principal : String
  pub period_start : ℕ
  pub used_tokens : ℕ
  pub reserved_tokens : ℕ
  pub totals : TokenUsage
  pub model_calls : ℕ
  pub updated_at : ℕ

-- The database: rows in insertion order, and the next number of the event log's autoincrement.
pub record Db : Type 0 where
  pub jobs : List Job
  pub stages : List StageRun
  pub files : List JobFile
  pub events : List JobEvent
  pub next_event : ℕ
  pub usage : List PrincipalUsage

abbrev pub empty_db : Db
empty_db = record { jobs = []; stages = []; files = []; events = []; next_event = 1; usage = [] }
