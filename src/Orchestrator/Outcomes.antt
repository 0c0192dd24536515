-- ===== src/Orchestrator/Outcomes.antt =====
-- src/autoswe/pipeline/orchestrator.py: the columns that `_succeed`, `_fail` and `_cancelled` have
-- `finish` set, with the event of each.
use autonomous_ai_software_e.Prelude.{ℕ, String, Option, none, some, [], ◌∷◌}
use autonomous_ai_software_e.Model.{
  JobStatus, StageName, TokenUsage, Artifacts, Job, Payload, Value, text, null,
}

-- How a run ends: with the payload of its success, with an error and its code, or cancelled.
pub data Outcome : Type 0 where
  succeeds : Payload → Outcome
  fails : String → Option String → Outcome
  cancels : Outcome

abbrev pub code_value : Option String → Value
code_value none = null
code_value (some c) = text c

unfoldable pub outcome_event : Outcome → String
outcome_event (succeeds p) = "job.succeeded"
outcome_event (fails e c) = "job.failed"
outcome_event cancels = "job.cancelled"

unfoldable pub outcome_payload : Outcome → Payload
outcome_payload (succeeds p) = p
outcome_payload (fails e c) = ("error", text e) ∷ ("code", code_value c) ∷ []
outcome_payload cancels = []

unfoldable pub outcome_values : ℕ → Outcome → Job → Job
outcome_values now (succeeds p) j = record j {
  status = JobStatus.succeeded;
  current_stage = none;
  finished_at = some now;
}
outcome_values now (fails e c) j = record j {
  status = JobStatus.failed;
  error = some e;
  error_code = c;
  current_stage = none;
  finished_at = some now;
}
outcome_values now cancels j = record j {
  status = JobStatus.cancelled;
  current_stage = none;
  finished_at = some now;
}

-- `_update_job(job_id, current_stage=...)`, at the start of a stage.
unfoldable pub set_stage : StageName → Job → Job
set_stage stage j = record j { current_stage = some stage }

-- The job's columns that `_persist_stage` and `_persist_usage` set: the usage, and what the stage made.
unfoldable pub set_artifacts : TokenUsage → (Artifacts → Artifacts) → Job → Job
set_artifacts total made j = record j { totals = total; artifacts = made j.artifacts }
