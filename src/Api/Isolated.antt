-- ===== src/Api/Isolated.antt =====
-- The requests of src/autoswe/api/jobs.py that name a job which is not the caller's.
use autonomous_ai_software_e.Prelude.{
  ◌≡◌, ◌≢◌, refl, inl, inr, String, none, some, find, str_eq, eq_iff, Option-cases, Bool-cases,
}
use autonomous_ai_software_e.Model.{Job, Db}
use autonomous_ai_software_e.Budget.{has_id}
use autonomous_ai_software_e.Repository.Statements.{get_owned}
use autonomous_ai_software_e.Publishing.{Github}
use autonomous_ai_software_e.Api.{Services, Visit, HttpReply, not_found}
use autonomous_ai_software_e.Api.Manage.{cancel_job, retry_job, delete_job}
use autonomous_ai_software_e.Api.Reading.{
  of_owned, get_job, get_requirements, get_architecture, get_review, get_test_report, list_files,
  get_file, download_archive, stream_events,
}
use autonomous_ai_software_e.Api.Publish.{publish_job}
use autonomous_ai_software_e.Api.Routes.{
  JobRequest, shows, cancels, retries, deletes, requirements, architecture, review, tests,
  publishes, files, file, archive, follows, handle,
}

-- The rows of other owners, and those that are not there, are not found.
get_owned-foreign :
    (k owner : String) (db : Db)
    → ((j : Job) → find (has_id k) db.jobs ≡ some j → j.owner ≢ owner)
    → get_owned k owner db ≡ none
unfolding get_owned
get_owned-foreign k owner db foreign = elim (Option-cases (find (has_id k) db.jobs)) [
  | inl e ↦ rw (e, get_owned) refl
  | inr (j, e) ↦ elim (Bool-cases (str_eq j.owner owner)) [
    | inl y ↦ absurd (foreign j e ((eq_iff j.owner owner).0 y))
    | inr n ↦ rw (e, get_owned) (rw n refl)
  ]
]

module _ (v : Visit) (k : String) (db : Db)
    (foreign : (j : Job) → find (has_id k) db.jobs ≡ some j → j.owner ≢ v.principal) where
  unowned : get_owned k v.principal db ≡ none
  unowned = get_owned-foreign k v.principal db foreign

  of_owned-foreign : (reply : Job → HttpReply) → of_owned reply v k db ≡ not_found db
  unfolding of_owned
  of_owned-foreign reply = rw (unowned, of_owned) refl

  -- Whatever is asked of a job whose row is not there or has another owner than the caller, reading it, cancelling, retrying,
  -- deleting, publishing or following it, is answered with 404, changes nothing and signals nothing.
  pub handle-Isolated :
      (sv : Services) (github : Github) (r : JobRequest) → handle sv github r v k db ≡ not_found db
  unfolding handle get_job get_requirements get_architecture get_review get_test_report list_files
      get_file download_archive stream_events cancel_job retry_job delete_job publish_job
  handle-Isolated sv github shows = of_owned-foreign _
  handle-Isolated sv github cancels = rw (unowned, cancel_job) refl
  handle-Isolated sv github retries = rw (unowned, retry_job) refl
  handle-Isolated sv github deletes = rw (unowned, delete_job) refl
  handle-Isolated sv github requirements = of_owned-foreign _
  handle-Isolated sv github architecture = of_owned-foreign _
  handle-Isolated sv github review = of_owned-foreign _
  handle-Isolated sv github tests = of_owned-foreign _
  handle-Isolated sv github (publishes payload) = rw (unowned, publish_job) refl
  handle-Isolated sv github files = of_owned-foreign _
  handle-Isolated sv github (file path) = of_owned-foreign _
  handle-Isolated sv github archive = of_owned-foreign _
  handle-Isolated sv github (follows last_event_id after) = of_owned-foreign _
