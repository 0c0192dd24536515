-- ===== src/Api/Manage.antt =====
-- `cancel_job`, `retry_job` and `delete_job` of src/autoswe/api/jobs.py; `get_owned` is its `_owned_job`.
use autonomous_ai_software_e.Prelude.{
  String, Bool, true, Option, none, some, List, [], ◌∷◌, leb, if◌then◌else◌, find,
}
use autonomous_ai_software_e.Model.{JobStatus, Job, Db, terminal, status_eq}
use autonomous_ai_software_e.Budget.{has_id, state}
use autonomous_ai_software_e.Repository.Statements.{get_owned, count_active, delete}
use autonomous_ai_software_e.Repository.Queue.{CancelOutcome, cancel_flagged, request_cancel}
use autonomous_ai_software_e.Repository.Requeue.{
  Retried, retried, not_retried, retry_refused, retry_failed,
}
use autonomous_ai_software_e.Api.{
  Services, Visit, Signal, queue_changed, job_changed, stop_task, HttpReply, detail, problem,
  no_content, over_budget, server_error, Handled, answer, not_found, reservation_of,
}
use autonomous_ai_software_e.Api.Submit.{get_provider, refreshed}

-- `outcome == "cancel_requested" and services.worker is not None`
unfoldable pub cancel_signals : Bool → String → Option CancelOutcome → List Signal
cancel_signals true k (some cancel_flagged) = stop_task k ∷ job_changed k ∷ []
cancel_signals _ k _ = job_changed k ∷ []

unfoldable pub cancel_reply : Option CancelOutcome → Option Job → HttpReply
cancel_reply outcome none = server_error
cancel_reply none (some job) = problem 409
cancel_reply (some outcome) (some job) = detail job

unfoldable pub after_cancel : Services → Visit → String → Db × Option CancelOutcome → Handled
unfolding cancel_signals cancel_reply
after_cancel sv v k (db, outcome) = record {
  db = v.afterwards db;
  signals = cancel_signals sv.has_worker k outcome;
  reply = cancel_reply outcome (find (has_id k) (v.afterwards db).jobs);
}

unfoldable pub cancel_job : Services → Visit → String → Db → Handled
unfolding after_cancel
cancel_job sv v k db = elim (get_owned k v.principal db) [
  | none ↦ not_found db
  | some job ↦
      if terminal job.status
      then answer db (problem 409)
      else after_cancel sv v k (request_cancel k v.now (v.meanwhile db))
]

unfoldable pub after_retry : Services → Visit → String → Db × Retried → Handled
unfolding refreshed
after_retry sv v k (db, retried) = record {
  db = v.afterwards db;
  signals = job_changed k ∷ queue_changed ∷ [];
  reply = refreshed (find (has_id k) (v.afterwards db).jobs);
}
after_retry sv v k (db, not_retried) = answer (v.afterwards db) (problem 409)
after_retry sv v k (db, retry_refused) =
    answer (v.afterwards db)
      (over_budget (state sv.budget v.principal (sv.period_start v.now) (v.afterwards db)))

unfoldable pub retry_job : Services → Visit → String → Db → Handled
unfolding status_eq get_provider after_retry
retry_job sv v k db = elim (get_owned k v.principal db) [
  | none ↦ not_found db
  | some job ↦
      if status_eq job.status JobStatus.failed
      then if leb sv.max_active (count_active v.principal db)
        then answer db (problem 429)
        else elim (get_provider sv (some job.provider)) [
          | none ↦ answer db (problem 409)
          | some provider ↦ after_retry sv v k (
              retry_failed k v.principal (reservation_of sv v.principal provider v.now) v.now
                (v.meanwhile db))
        ]
      else answer db (problem 409)
]

unfoldable pub delete_job : Visit → String → Db → Handled
delete_job v k db = elim (get_owned k v.principal db) [
  | none ↦ not_found db
  | some job ↦
      if terminal job.status
      then answer (delete k (v.meanwhile db)) no_content
      else answer db (problem 409)
]
