-- ===== src/Orchestrator/Ends.antt =====
-- src/autoswe/pipeline/orchestrator.py: the transactions that end a stage or a run, but for the branch that
-- chooses among them (`Run`). Metrics, spans, log lines and wake-ups are left out.
use autonomous_ai_software_e.Prelude.{
  ℕ, ◌*◌, ◌-◌, ◌/◌, ◌^◌, String, Option, none, some, [], ◌∷◌, if◌then◌else◌,
}
use autonomous_ai_software_e.Model.{
  JobStatus, StageName, TokenUsage, Db, text, num, texts, sub_usage, Payload,
}
use autonomous_ai_software_e.Budget.{smaller}
use autonomous_ai_software_e.Repository.Statements.{
  add_event, cancel_requested, update_job, update_stage, skip_pending_stages, upsert_files,
}
use autonomous_ai_software_e.Repository.Queue.{finish}
use autonomous_ai_software_e.Repository.Requeue.{reset_for_retry, schedule_retry, stage_value}
use autonomous_ai_software_e.Orchestrator.Outcomes.{
  Outcome, succeeds, fails, cancels, outcome_event, outcome_payload, outcome_values, set_artifacts,
}
use autonomous_ai_software_e.Orchestrator.Pipeline.{
  PipelineState, StageResult, Ran, named_files, stage_artifacts, fail_stage, complete_stage,
  success_payload,
}

-- A stage or a run goes on, returns a status, raises an exception of the named class, or is cancelled.
pub data Flow : Type 0 where
  goes_on : Flow
  returns : JobStatus → Flow
  raises : String → Flow
  interrupted : Flow

-- `_finish`, whose result its callers drop.
unfoldable pub finish_run : String → Outcome → ℕ → Db → Db
finish_run k o now db =
    (finish k (outcome_event o) (outcome_payload o) (outcome_values now o) now db).0

unfoldable pub succeed : String → PipelineState → ℕ → Db → Db
unfolding finish_run success_payload
succeed k st now db = finish_run k (succeeds (success_payload st)) now db

abbrev pub stage_failed : StageName → String → Payload
stage_failed stage message = ("stage", text (stage_value stage)) ∷ ("error", text message) ∷ []

unfoldable pub fail : String → Option StageName → String → Option String → ℕ → Db → Db
unfolding finish_run fail_stage
fail k none message code now db = finish_run k (fails message code) now (skip_pending_stages k db)
fail k (some stage) message code now db = finish_run k (fails message code) now (
    skip_pending_stages k (
      add_event k "stage.failed" (stage_failed stage message) now
        (update_stage k stage (fail_stage now message) db)))

unfoldable pub cancelled : String → ℕ → Db → Db
unfolding finish_run
cancelled k now db = finish_run k cancels now (skip_pending_stages k db)

unfoldable pub handle_interrupt : String → ℕ → Db → Db
unfolding cancelled
handle_interrupt k now db =
    if cancel_requested k db then cancelled k now db else (reset_for_retry k now db).0

-- Exponential backoff up to ten minutes, in microseconds, times a factor in thousandths.
unfoldable pub retry_delay : ℕ → ℕ → ℕ → ℕ
retry_delay base jitter attempt = smaller (base * 2 ^ (attempt - 1)) 600000000 * jitter / 1000

unfoldable pub persist_usage : String → TokenUsage → ℕ → Db → Db
persist_usage k total now db = update_job k (set_artifacts total (λ a. a)) now db

-- What `_run_stage` makes of `_retry_later`'s result: the job was requeued, or it had left `running`.
unfoldable pub requeued_or_fail :
    String → StageName → String → Option String → ℕ → Db × Option ℕ → Db × Flow
unfolding fail
requeued_or_fail k stage message code now (db, some attempt) = (db, returns JobStatus.queued)
requeued_or_fail k stage message code now (db, none) =
    (fail k (some stage) message code now db, returns JobStatus.failed)

unfoldable pub retry_later :
    String → StageName → String → Option String → ℕ → ℕ → Db → Db × Option ℕ
retry_later k stage message code delay now db =
    schedule_retry k stage delay message code now
      (add_event k "stage.failed" (stage_failed stage message) now db)

-- `_persist_stage`; a path that the state does not hold raises before anything is written.
unfoldable pub persist_stage : String → StageName → StageResult → TokenUsage → Ran → Db × Flow
unfolding named_files stage_artifacts complete_stage
persist_stage k stage result before ran = elim (named_files result.files ran.state.files) [
  | none ↦ (ran.db, raises "KeyError")
  | some files ↦
      let usage = sub_usage ran.total before in
      (
        add_event k "stage.completed"
            (("stage", text (stage_value stage))
              ∷ ("summary", text result.summary)
              ∷ ("duration_s", num ran.duration)
              ∷ ("input_tokens", num usage.input_tokens)
              ∷ ("output_tokens", num usage.output_tokens)
              ∷ ("cache_read_input_tokens", num usage.cache_read_input_tokens)
              ∷ ("cache_creation_input_tokens", num usage.cache_creation_input_tokens)
              ∷ ("cost_usd", num usage.cost_microusd)
              ∷ ("files", texts result.files)
              ∷ [])
            ran.now
            (update_stage k stage (complete_stage ran.now result.summary usage) (
              update_job k (set_artifacts ran.total (stage_artifacts stage ran.state)) ran.now
                (upsert_files k files stage ran.db))),
        goes_on,
      )
]
