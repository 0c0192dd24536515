-- ===== src/Repository/Submit.antt =====
-- src/autoswe/repository.py: `create`, which stores a submission as a queued job with its five stages.
use autonomous_ai_software_e.Prelude.{
  ℕ, suc, String, Bool, true, false, ◌&&◌, Option, none, some, List, [], ◌∷◌, ◌++◌, if◌then◌else◌,
  str_eq, find,
}
use autonomous_ai_software_e.Model.{
  JobStatus, StageStatus, StageName, stage_order, no_usage, no_artifacts, Submission, Job, StageRun,
  Db, text,
}
use autonomous_ai_software_e.Budget.{ensure, try_reserve}
use autonomous_ai_software_e.Repository.Statements.{add_event}

pub record Reservation : Type 0 where
  pub period_start : ℕ
  pub amount : ℕ
  pub limit : Option ℕ

-- What `create` returns or raises; `integrity` is the database's own error.
pub data Created : Type 0 where
  created : Job → Created
  budget_refused : Created
  duplicate_submission : Created
  integrity : Created

unfoldable pub new_job : String → Submission → Option ℕ → ℕ → ℕ → Job
new_job id submission period amount now = record {
  id = id;
  submission = submission;
  created_at = now;
  status = JobStatus.queued;
  current_stage = none;
  cancel_requested = false;
  error = none;
  error_code = none;
  artifacts = no_artifacts;
  totals = no_usage;
  tokens_reserved = amount;
  budget_period_start = period;
  publication = none;
  worker_id = none;
  retries = 0;
  run_after = none;
  updated_at = now;
  started_at = none;
  finished_at = none;
  heartbeat_at = none;
}

unfoldable pub stage_rows : String → ℕ → List StageName → List StageRun
stage_rows id position [] = []
stage_rows id position (stage ∷ rest) =
    record {
      job_id = id;
      name = stage;
      position = position;
      status = StageStatus.pending;
      summary = none;
      usage = no_usage;
      started_at = none;
      finished_at = none;
    }
    ∷ stage_rows id (suc position) rest

unfoldable pub same_key : Option String → Option String → Bool
same_key (some a) (some b) = str_eq a b
same_key _ _ = false

unfoldable pub with_key : String → String → Job → Bool
unfolding same_key
with_key owner key j = str_eq j.owner owner && same_key j.idempotency_key (some key)

-- The index makes the row the only one.
unfoldable pub by_idempotency_key : String → String → Db → Option Job
unfolding with_key
by_idempotency_key owner key db = find (with_key owner key) db.jobs

-- The primary key, or the unique index on (owner, idempotency_key), in which NULLs never collide.
unfoldable pub collides : Job → List Job → Bool
unfolding same_key
collides job [] = false
collides job (j ∷ js) =
    if str_eq j.id job.id
    then true
    else if str_eq j.owner job.owner && same_key j.idempotency_key job.idempotency_key
    then true
    else collides job js

-- Takes the reservation, and gives the new job what it holds of it; `none` when it is refused.
unfoldable pub reserve_for : String → Submission → Option Reservation → ℕ → Db → Option (Job × Db)
reserve_for id submission none now db = some (new_job id submission none 0 now, db)
reserve_for id submission (some r) now db = elim r.limit [
  | none ↦ some (
    new_job id submission (some r.period_start) 0 now,
    ensure submission.owner r.period_start now db,
  )
  | some limit ↦
      elim (try_reserve submission.owner r.period_start r.amount limit now
        (ensure submission.owner r.period_start now db)) [
          | none ↦ none
          | some db' ↦ some (new_job id submission (some r.period_start) r.amount now, db')
        ]
]

unfoldable pub insert_job : Job → ℕ → Db → Db
unfolding stage_rows add_event
insert_job job now db =
    add_event job.id "job.queued" (("provider", text job.provider) ∷ []) now (record db {
      jobs = db.jobs ++ job ∷ [];
      stages = db.stages ++ stage_rows job.id 0 stage_order;
    })

unfoldable pub collision : Option String → Created
collision none = integrity
collision (some key) = duplicate_submission

-- A raise rolls the transaction back, its reservation too.
unfoldable pub create : String → Submission → Option Reservation → ℕ → Db → Db × Created
unfolding reserve_for collides insert_job new_job collision
create id submission reservation now db = elim (reserve_for id submission reservation now db) [
  | none ↦ (db, budget_refused)
  | some (job, db') ↦
      if collides job db'.jobs
      then (db, collision submission.idempotency_key)
      else (insert_job job now db', created job)
]
