-- ===== src/Api/Replayed.antt =====
-- A submission to src/autoswe/api/jobs.py that is sent again with its idempotency key.
use autonomous_ai_software_e.Prelude.{
  ◌≡◌, refl, sym, ap, ◌∙◌, String, some, str_eq, if◌then◌else◌, find,
}
use autonomous_ai_software_e.Model.{Job, Db, Submission, empty_db}
use autonomous_ai_software_e.Budget.{has_id}
use autonomous_ai_software_e.Repository.Submit.{same_key}
use autonomous_ai_software_e.History.{Reach}
use autonomous_ai_software_e.History.Keys.{by_idempotency_key-only}
use autonomous_ai_software_e.Api.{Provider, JobCreate, Services, Visit, replayed, problem, answer}
use autonomous_ai_software_e.Api.Submit.{existing_job, hash_of, replay, submission_of, create_job}

-- As long as the job of a submission with an idempotency key is there, whatever has happened to it and
-- around it, its owner's submission with that key, by any later request, is answered with the job as it
-- is now when the bodies have the same hash, and refused with 422 when not. It changes nothing.
pub create_job-Replayed :
    (sv : Services) (v w : Visit) (provider : Provider) (k id key : String)
    (payload again : JobCreate) {db : Db} {job : Job}
    → Reach empty_db db
    → find (has_id k) db.jobs ≡ some job
    → job.submission ≡ submission_of sv v (some key) payload provider
    → w.principal ≡ v.principal
    → create_job sv w id (some key) again db
      ≡ answer db (
          if str_eq (sv.request_hash payload) (sv.request_hash again)
          then replayed job
          else problem 422)
unfolding submission_of create_job existing_job hash_of replay same_key
create_job-Replayed sv v w provider k id key payload again {db} {job} r there made who =
    let owners : w.principal ≡ job.owner = who ∙ sym (ap (λ (s : Submission). s.owner) made) in
    let keyed = ap (λ (s : Submission). s.idempotency_key) made in
    rw (owners, by_idempotency_key-only k key r there keyed, create_job) (rw made refl)
