-- ===== src/Repository/Requeue.antt =====
-- src/autoswe/repository.py: the transactions that put a job back in the queue with its checkpoints:
-- `_requeue`, `reset_for_retry`, `schedule_retry` and `retry_failed`.
use autonomous_ai_software_e.Prelude.{
  ℕ, ◌+◌, String, Bool, true, false, not, ◌&&◌, Option, none, some, List, [], ◌∷◌, if◌then◌else◌,
  str_eq, find, cas, update, update_all, keep_if,
}
use autonomous_ai_software_e.Model.{
  JobStatus, StageStatus, StageName, Artifacts, Job, StageRun, Db, Value, null, text, num,
  status_eq, stage_eq, stage_done,
}
use autonomous_ai_software_e.Budget.{has_id, ensure, try_reserve}
use autonomous_ai_software_e.Repository.Statements.{
  add_event, get_owned, of_job, contains, done_stages,
}
use autonomous_ai_software_e.Repository.Submit.{Reservation}

unfoldable pub back_to_queue : (Job → Job) → ℕ → Job → Job
back_to_queue values now j = values (record j {
  status = JobStatus.queued;
  current_stage = none;
  worker_id = none;
  started_at = none;
  heartbeat_at = none;
  updated_at = now;
})

unfoldable pub reset_stage : StageRun → StageRun
reset_stage s = record s {
  status = StageStatus.pending;
  summary = none;
  started_at = none;
  finished_at = none;
  usage = record s.usage {
    input_tokens = 0;
    output_tokens = 0;
    cache_read_input_tokens = 0;
    cache_creation_input_tokens = 0;
    cost_microusd = 0;
  };
}

-- The artifacts that the stages in `done` have made.
unfoldable pub kept_artifacts : List StageName → Artifacts → Artifacts
kept_artifacts done a = record {
  project_name = if contains stage_eq done StageName.analyze then a.project_name else none;
  requirements = if contains stage_eq done StageName.analyze then a.requirements else none;
  architecture = if contains stage_eq done StageName.architect then a.architecture else none;
  validation = none;
  review = none;
  test_report = none;
}

unfoldable pub clear_artifacts : List StageName → ℕ → Job → Job
unfolding kept_artifacts stage_eq
clear_artifacts done now j = record j {
  artifacts = kept_artifacts done j.artifacts;
  updated_at = now;
}

-- The statements behind the compare-and-set.
unfoldable pub rewind : String → ℕ → Db → Db
unfolding reset_stage clear_artifacts done_stages
rewind k now db =
    let done = done_stages k db.stages in
    record db {
      files =
          keep_if (λ f. not (str_eq f.job_id k && not (contains stage_eq done f.stage))) db.files;
      stages = update_all (λ s. of_job k s && not (stage_done s.status)) reset_stage db.stages;
      jobs = update (has_id k) (clear_artifacts done now) db.jobs;
    }

-- `none` when the job is not in `from`. Does not commit.
unfoldable pub requeue : String → JobStatus → (Job → Job) → ℕ → Db → Option Db
unfolding back_to_queue rewind status_eq
requeue k from values now db =
    elim (cas (has_id k) (λ j. status_eq j.status from) (back_to_queue values now) db.jobs) [
      | none ↦ none
      | some jobs ↦ some (rewind k now (record db { jobs = jobs }))
    ]

unfoldable pub run_at_once : Job → Job
run_at_once j = record j { run_after = none }

unfoldable pub reset_for_retry : String → ℕ → Db → Db × Bool
unfolding requeue run_at_once
reset_for_retry k now db = elim (requeue k JobStatus.running run_at_once now db) [
  | none ↦ (db, false)
  | some db' ↦ (add_event k "job.requeued" [] now db', true)
]

unfoldable pub run_later : ℕ → Job → Job
run_later t j = record j { retries = j.retries + 1; run_after = some t }

-- A JSON value: the text, or null.
abbrev pub text_or_null : Option String → Value
text_or_null none = null
text_or_null (some s) = text s

unfoldable pub stage_value : StageName → String
stage_value StageName.analyze = "analyze"
stage_value StageName.architect = "architect"
stage_value StageName.implement = "implement"
stage_value StageName.devops = "devops"
stage_value StageName.review = "review"

unfoldable pub retries_of : Option Job → ℕ
retries_of none = 0
retries_of (some j) = j.retries

-- `delay` in microseconds; the result is the retry's number.
unfoldable pub schedule_retry :
    String → StageName → ℕ → String → Option String → ℕ → Db → Db × Option ℕ
unfolding requeue run_later stage_value retries_of
schedule_retry k stage delay error code now db =
    elim (requeue k JobStatus.running (run_later (now + delay)) now db) [
      | none ↦ (db, none)
      | some db' ↦
          let attempt = retries_of (find (has_id k) db'.jobs) in
          (
            add_event k "job.retry_scheduled"
                (("stage", text (stage_value stage))
                  ∷ ("attempt", num attempt)
                  ∷ ("delay_s", num delay)
                  ∷ ("error", text error)
                  ∷ ("code", text_or_null code)
                  ∷ ("run_after", num (now + delay))
                  ∷ [])
                now db',
            some attempt,
          )
    ]

pub data Retried : Type 0 where
  retried : Retried
  not_retried : Retried
  retry_refused : Retried

unfoldable pub fresh_attempt : Option Reservation → Job → Job
fresh_attempt none j = record j {
  error = none;
  error_code = none;
  finished_at = none;
  retries = 0;
  run_after = none;
}
fresh_attempt (some r) j = record j {
  error = none;
  error_code = none;
  finished_at = none;
  retries = 0;
  run_after = none;
  budget_period_start = some r.period_start;
  tokens_reserved = elim r.limit [ none ↦ 0 | some _ ↦ r.amount ];
}

-- The reservation that a retry takes; `none` when it is refused.
unfoldable pub reserve_again : String → Option Reservation → ℕ → Db → Option Db
reserve_again owner none now db = some db
reserve_again owner (some r) now db = elim r.limit [
  | none ↦ some (ensure owner r.period_start now db)
  | some limit ↦
      try_reserve owner r.period_start r.amount limit now (ensure owner r.period_start now db)
]

unfoldable pub retry_failed : String → String → Option Reservation → ℕ → Db → Db × Retried
unfolding get_owned requeue fresh_attempt reserve_again
retry_failed k owner reservation now db = elim (get_owned k owner db) [
  | none ↦ (db, not_retried)
  | some _ ↦ elim (requeue k JobStatus.failed (fresh_attempt reservation) now db) [
    | none ↦ (db, not_retried)
    | some db' ↦ elim (reserve_again owner reservation now db') [
      | none ↦ (db, retry_refused)
      | some db'' ↦ (add_event k "job.retried" [] now db'', retried)
    ]
  ]
]
