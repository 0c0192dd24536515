-- ===== src/History.antt =====
-- The transactions of src/autoswe/repository.py and src/autoswe/budget.py as steps of one database, in any
-- order and from any number of API replicas, workers and reapers. Each constructor is one
-- transaction; what its caller has read before may be out of date, so the identifiers, candidates
-- and lists of stale jobs are arbitrary.
pub mod Reservations
pub mod Changes
pub mod Lifecycle
pub mod Keys
pub mod Log
pub mod Final
use autonomous_ai_software_e.Prelude.{
  ℕ, String, ◌≡◌, Option, some, List, Bool, true, false, find, ◌⊎◌,
}
use autonomous_ai_software_e.Model.{
  JobStatus, StageName, Job, StageRun, Artifacts, Publication, Payload, TokenUsage, Submission, Db,
  terminal,
}
use autonomous_ai_software_e.Budget.{BudgetGuard, has_id, before_call, after_call}
use autonomous_ai_software_e.Repository.Statements.{
  GeneratedFile, add_event, update_job, heartbeat, update_stage, skip_pending_stages, upsert_files,
  discard_files, delete, claim_publication, record_publication,
}
use autonomous_ai_software_e.Repository.Submit.{Reservation, create}
use autonomous_ai_software_e.Repository.Queue.{claim, request_cancel, finish, reap}
use autonomous_ai_software_e.Repository.Requeue.{reset_for_retry, schedule_retry, retry_failed}
use autonomous_ai_software_e.Repository.Reservations.Calls.{Synced}
use autonomous_ai_software_e.Orchestrator.Outcomes.{
  Outcome, outcome_event, outcome_payload, outcome_values, set_stage, set_artifacts,
}

pub data Step (db : Db) : Db → Type 0 where
  submits :
      (id : String) (sub : Submission) (r : Option Reservation) (now : ℕ)
      → Step db (create id sub r now db).0
  cancels : (k : String) (now : ℕ) → Step db (request_cancel k now db).0
  retries :
      (k owner : String) (r : Option Reservation) (now : ℕ)
      → Step db (retry_failed k owner r now db).0
  deletes : (k : String) → Step db (delete k db)
  claims : (worker : String) (now : ℕ) (k : String) → Step db (claim worker now k db).0
  progresses :
      (k : String) (stage : StageName) (now : ℕ) → Step db (update_job k (set_stage stage) now db)
  persists :
      (k : String) (total : TokenUsage) (made : Artifacts → Artifacts) (now : ℕ)
      → Step db (update_job k (set_artifacts total made) now db)
  beats : (k : String) (now : ℕ) → Step db (heartbeat k now db)
  finishes :
      (k : String) (o : Outcome) (now : ℕ)
      → Step db (finish k (outcome_event o) (outcome_payload o) (outcome_values now o) now db).0
  interrupts : (k : String) (now : ℕ) → Step db (reset_for_retry k now db).0
  postpones :
      (k : String) (stage : StageName) (delay : ℕ) (error : String) (code : Option String) (now : ℕ)
      → Step db (schedule_retry k stage delay error code now db).0
  reaps : (k : String) (now : ℕ) → Step db (reap k now db)
  emits :
      (k kind : String) (payload : Payload) (now : ℕ) → Step db (add_event k kind payload now db)
  skips : (k : String) → Step db (skip_pending_stages k db)
  stages :
      (k : String) (stage : StageName) (values : StageRun → StageRun)
      → Step db (update_stage k stage values db)
  stores :
      (k : String) (files : List GeneratedFile) (stage : StageName)
      → Step db (upsert_files k files stage db)
  discards : (k : String) (keep : List StageName) → Step db (discard_files k keep db)
  publishes : (k : String) (now : ℕ) → Step db (claim_publication k now db).0
  published :
      (k : String) (value : Option Publication) (kind : String) (payload : Payload) (now : ℕ)
      → Step db (record_publication k value kind payload now db)
  tops_up :
      (g : BudgetGuard) (now : ℕ) (sync : Synced g db)
      → terminal sync.job.status ≡ false
      → Step db (before_call g now db).1
  spends :
      (g : BudgetGuard) (usage : TokenUsage) (now : ℕ)
      → Synced g db
      → Step db (after_call g usage now db).1

pub data Reach (db : Db) : Db → Type 0 where
  here : Reach db db
  next : {d e : Db} → Reach db d → Step d e → Reach db e

pub Reach-trans : {a b c : Db} → Reach a b → Reach b c → Reach a c
Reach-trans r here = r
Reach-trans r (next q s) = next (Reach-trans r q) s

-- A deletion has found that its job, if it is there, has ended; of any other step nothing is asked.
abbrev pub HasEnded : {d e : Db} → Step d e → Type 0
HasEnded {d} (deletes k) = (j : Job) → find (has_id k) d.jobs ≡ some j → terminal j.status ≡ true
HasEnded _ = Unit

-- A history in which no job is deleted before it has ended.
abbrev pub Guarded : {d e : Db} → Reach d e → Type 0
Guarded here = Unit
Guarded (next r s) = Guarded r × HasEnded s

-- A database that such a history reaches from another.
pub record Kept (d e : Db) : Type 0 where
  pub reach : Reach d e
  pub guarded : Guarded reach

Guarded-trans :
    {a b c : Db} (r : Reach a b) (q : Reach b c) → Guarded r → Guarded q → Guarded (Reach-trans r q)
unfolding Reach-trans
Guarded-trans r here g h = g
Guarded-trans r (next q s) g h = (Guarded-trans r q g h.0, h.1)

pub Kept-trans : {a b c : Db} → Kept a b → Kept b c → Kept a c
Kept-trans r q = record {
  reach = Reach-trans r.reach q.reach;
  guarded = Guarded-trans r.reach q.reach r.guarded q.guarded;
}

pub kept_step : {a b c : Db} → Kept a b → (s : Step b c) → HasEnded s → Kept a c
kept_step r s ended = record { reach = next r.reach s; guarded = (r.guarded, ended) }

pub unchanged_Kept : {d : Db} → Kept d d
unchanged_Kept = record { reach = here; guarded = tt }
