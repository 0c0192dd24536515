-- ===== src/Orchestrator/Run.antt =====
-- src/autoswe/pipeline/orchestrator.py: a job's run, from `_run` to the transaction that ends it. Metrics,
-- spans, log lines, wake-ups and the heartbeat's task are left out; other processes may write to the
-- database while an agent runs (`Ran`). The provider registry and pydantic's validation of a stored
-- artifact are parameters, as are the random factors of the retry delays.
use mathlib.Core.Option
use Prim.Native.String.{◌++◌ as str_append}
use autonomous_ai_software_e.Prelude.{
  ℕ, ◌+◌, ◌&&◌, String, Bool, true, false, Option, none, some, List, [], ◌∷◌, if◌then◌else◌, ltb,
  str_eq, find, map, keep_if,
}
use autonomous_ai_software_e.Model.{
  JobStatus, StageName, TokenUsage, Job, JobFile, Db, Json, text, num, texts, stage_eq,
}
use autonomous_ai_software_e.Budget.{has_id}
use autonomous_ai_software_e.Repository.Statements.{
  add_event, cancel_requested, update_job, update_stage, discard_files, done_stages, contains,
}
use autonomous_ai_software_e.Repository.Requeue.{stage_value}
use autonomous_ai_software_e.Orchestrator.Outcomes.{set_stage}
use autonomous_ai_software_e.Orchestrator.Pipeline.{
  Requirements, PipelineState, Attempt, answers, llm_error, crashes, is_cancelled, Ran, Agent,
  set_key, stage_label, error_message, crash_message, start_stage,
}
use autonomous_ai_software_e.Orchestrator.Ends.{
  Flow, succeed, fail, cancelled, handle_interrupt, retry_delay, persist_usage, requeued_or_fail,
  retry_later, persist_stage, goes_on, returns, raises, interrupted,
}

-- What `_run` needs of the registry's provider.
pub record Llm : Type 0 where
  pub name : String
  pub model : String

-- The orchestrator's arguments.
pub record Settings : Type 0 where
  pub agents : List Agent
  pub transient_retries : ℕ
  pub retry_base : ℕ
  pub jitter : ℕ → ℕ
  pub registry : String → Option Llm
  pub valid_requirements : Option Json → Option Requirements
  pub valid_architecture : Option Json → Option Json

unfoldable pub known_stack : String → Bool
known_stack s = contains str_eq ("python" ∷ "typescript" ∷ "go" ∷ []) s

module _ (o : Settings) where
  -- The end of a stage, by how its agent ended.
  unfoldable pub end_stage : String → StageName → TokenUsage → ℕ → Ran → Attempt → Db × Flow
  unfolding fail persist_usage requeued_or_fail retry_later persist_stage retry_delay
  end_stage k stage before retries ran (answers result) = persist_stage k stage result before ran
  end_stage k stage before retries ran (llm_error e retryable code) =
      let db = persist_usage k ran.total ran.now ran.db in
      let message = error_message stage e in
      if retryable && ltb retries o.transient_retries
      then requeued_or_fail k stage message code ran.now (
          retry_later k stage message code
            (retry_delay o.retry_base (o.jitter ran.now) (retries + 1)) ran.now db)
      else (fail k (some stage) message code ran.now db, returns JobStatus.failed)
  end_stage k stage before retries ran (crashes name) = (
    fail k (some stage) (crash_message stage name) none ran.now
        (persist_usage k ran.total ran.now ran.db),
    returns JobStatus.failed,
  )
  end_stage k stage before retries ran is_cancelled = (ran.db, interrupted)

  -- The transactions that announce a stage.
  unfoldable pub begin_stage : String → StageName → ℕ → Db → Db
  unfolding start_stage stage_label
  begin_stage k stage now db =
      add_event k "stage.started"
        (("stage", text (stage_value stage)) ∷ ("label", text (stage_label stage)) ∷ []) now
        (update_stage k stage (start_stage now) (update_job k (set_stage stage) now db))

  -- Where a run stands when it leaves its stages.
  pub record Left : Type 0 where
    pub db : Db
    pub now : ℕ
    pub flow : Flow

  unfoldable pub after_stage : ℕ → (Db → Left) → Db × Flow → Left
  after_stage now go (db, goes_on) = go db
  after_stage now go (db, flow) = record { db = db; now = now; flow = flow }

  unfoldable pub run_stages :
      String → List Agent → List StageName → ℕ → PipelineState → TokenUsage → ℕ → Db → Left
  unfolding begin_stage end_stage after_stage succeed cancelled stage_eq
  run_stages k [] restored retries st total now db = record {
    db = succeed k st now db;
    now = now;
    flow = returns JobStatus.succeeded;
  }
  run_stages k (agent ∷ rest) restored retries st total now db =
      elim (contains stage_eq restored agent.stage) [
        | true ↦ run_stages k rest restored retries st total now db
        | false ↦ elim (cancel_requested k db) [
          | true ↦ record { db = cancelled k now db; now = now; flow = returns JobStatus.cancelled }
          | false ↦
              let ran = agent.run st total now (begin_stage k agent.stage now db) in
              after_stage ran.now (run_stages k rest restored retries ran.state ran.total ran.now)
                (end_stage k agent.stage total retries ran ran.attempt)
        ]
      ]

  -- A checkpoint's artifact, validated again; `none` when it no longer fits its schema.
  unfoldable pub restore_stage : StageName → Job → PipelineState → Option PipelineState
  restore_stage StageName.analyze job st =
      Option.map (λ r. record st { requirements = some r })
        (o.valid_requirements job.artifacts.requirements)
  restore_stage StageName.architect job st =
      Option.map (λ a. record st { architecture = some a })
        (o.valid_architecture job.artifacts.architecture)
  restore_stage _ job st = some st

  -- The stages in order up to the first that did not succeed or no longer fits.
  unfoldable pub restore_stages :
      List Agent → List StageName → Job → PipelineState → PipelineState × List StageName
  unfolding restore_stage stage_eq
  restore_stages [] succeeded job st = (st, [])
  restore_stages (agent ∷ rest) succeeded job st = elim (contains stage_eq succeeded agent.stage) [
    | false ↦ (st, [])
    | true ↦ elim (restore_stage agent.stage job st) [
      | none ↦ (st, [])
      | some st' ↦
          let (st'', more) = restore_stages rest succeeded job st' in (st'', agent.stage ∷ more)
    ]
  ]

  unfoldable pub load_files : List JobFile → PipelineState → PipelineState
  unfolding set_key
  load_files [] st = st
  load_files (f ∷ fs) st = load_files fs (record st {
    files =
        set_key f.path (record { path = f.path; content = f.content; description = f.description })
          st.files;
    file_origin = set_key f.path f.stage st.file_origin;
  })

  -- The files of the restored stages come back into the state, and all others are deleted.
  unfoldable pub take_checkpoint :
      Job
      → List StageName
      → PipelineState × List StageName
      → Db
      → PipelineState × List StageName × Db
  unfolding load_files
  take_checkpoint job [] (st, restored) db = (st, restored, db)
  take_checkpoint job (s ∷ ss) (st, restored) db =
      let kept =
        keep_if (λ f. str_eq f.job_id job.id && contains stage_eq restored f.stage) db.files in
      (load_files kept st, restored, discard_files job.id restored db)

  unfoldable pub restore : Job → PipelineState → Db → PipelineState × List StageName × Db
  unfolding restore_stages take_checkpoint
  restore job st db =
      let succeeded = done_stages job.id db.stages in
      take_checkpoint job succeeded (restore_stages o.agents succeeded job st) db

  -- The event `job.resumed`, if there is something to resume.
  unfoldable pub resumed : Job → List StageName → ℕ → Db → Db
  resumed job [] now db = db
  resumed job (s ∷ ss) now db =
      add_event job.id "job.resumed"
        (("stages", texts (map stage_value (s ∷ ss))) ∷ ("attempt", num (job.retries + 1)) ∷ []) now
        db

  unfoldable pub announce : Job → Llm → List StageName → ℕ → Db → Db
  unfolding resumed
  announce job llm restored now db =
      add_event job.id "job.started" (("provider", text llm.name) ∷ ("model", text llm.model) ∷ [])
        now (resumed job restored now db)

  abbrev pub new_state : PipelineState
  new_state = record {
    requirements = none;
    architecture = none;
    files = [];
    file_origin = [];
    validation = none;
    review = none;
    tests = none;
  }

  unfoldable pub run_job : Job → Llm → ℕ → Db → Left
  unfolding restore announce run_stages
  run_job job llm now db =
      let (st, restored, db') = restore job new_state db in
      run_stages job.id o.agents restored job.retries st job.totals now
        (announce job llm restored now db')

  -- The body of the `try`: an unknown provider or stack raises.
  unfoldable pub try_job : Job → ℕ → Db → Left
  unfolding run_job known_stack
  try_job job now db = elim (o.registry job.provider) [
    | none ↦ record { db = db; now = now; flow = raises "UnknownProviderError" }
    | some llm ↦
        if known_stack job.submission.stack
        then run_job job llm now db
        else record { db = db; now = now; flow = raises "ValueError" }
  ]

  -- The `except` clauses; no status when the cancellation is raised again.
  unfoldable pub settle : String → ℕ → Db → Flow → Db × Option JobStatus
  unfolding handle_interrupt fail
  settle k now db goes_on = (db, none)
  settle k now db (returns status) = (db, some status)
  settle k now db (raises name) =
      (fail k none (str_append "Internal error: " name) none now db, some JobStatus.failed)
  settle k now db interrupted = (handle_interrupt k now db, none)

  unfoldable pub run : String → ℕ → Db → Db × Option JobStatus
  unfolding try_job settle
  run k now db = elim (find (has_id k) db.jobs) [
    | none ↦ (db, some JobStatus.failed)
    | some job ↦ let left = try_job job now db in settle k left.now left.db left.flow
  ]
