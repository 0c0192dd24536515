-- ===== src/Api/Refines.antt =====
-- The handlers of src/autoswe/api/jobs.py over the transactions of the service.
use mathlib.Core.Option.{some-injective}
use autonomous_ai_software_e.Prelude.{
  ◌≡◌, refl, ap, sym, ◌∙◌, inl, inr, String, Bool, true, false, Option, some, leb, Bool-cases,
  Option-cases,
}
use autonomous_ai_software_e.Model.{JobStatus, Job, Db, terminal, status_eq}
use autonomous_ai_software_e.Repository.Statements.{get_owned, count_active}
use autonomous_ai_software_e.Repository.Submit.{
  Created, created, budget_refused, duplicate_submission, integrity,
}
use autonomous_ai_software_e.Repository.Reservations.Retry.{get_owned-eq-some}
use autonomous_ai_software_e.Repository.Requeue.{retried, not_retried, retry_refused, Retried}
use autonomous_ai_software_e.Validation.Text.{codes}
use autonomous_ai_software_e.Publishing.{
  Github, PublishEnd, pull_request, publish_error, repository_name_problem,
}
use autonomous_ai_software_e.History.{
  Step, HasEnded, Kept, Kept-trans, kept_step, unchanged_Kept, submits, cancels, retries, deletes,
  publishes, published,
}
use autonomous_ai_software_e.Api.{Services, Visit, JobCreate, HttpReply}
use autonomous_ai_software_e.Api.Submit.{
  existing_job, get_provider, after_create, winner, replay, create_job,
}
use autonomous_ai_software_e.Api.Manage.{
  after_cancel, cancel_job, after_retry, retry_job, delete_job,
}
use autonomous_ai_software_e.Api.Reading.{
  of_owned, get_job, get_requirements, get_architecture, get_review, get_test_report, list_files,
  get_file, download_archive, stream_events,
}
use autonomous_ai_software_e.Api.Publish.{PublishRequest, after_publish, after_claim, publish_job}
use autonomous_ai_software_e.Api.Routes
use autonomous_ai_software_e.Api.Routes.{JobRequest, Request, handle, serve}

-- What the other processes write during the request is transactions of the service that delete only jobs
-- that have ended.
pub record Beside (v : Visit) : Type 0 where
  pub meanwhile : (d : Db) → Kept d (v.meanwhile d)
  pub afterwards : (d : Db) → Kept d (v.afterwards d)

module _ (sv : Services) (v : Visit) (beside : Beside v) where
  then-Step : {db d : Db} (s : Step (v.meanwhile db) d) → HasEnded s → Kept db d
  then-Step {db} s ended = kept_step (beside.meanwhile db) s ended

  after_create-Kept :
      (key hash : Option String) (d : Db) (c : Created)
      → Kept d (after_create sv v key hash (d, c)).db
  unfolding after_create winner replay
  after_create-Kept key hash d (created job) = beside.afterwards d
  after_create-Kept key hash d budget_refused = beside.afterwards d
  after_create-Kept key hash d integrity = unchanged_Kept
  after_create-Kept key hash d duplicate_submission =
      elim (Option-cases (existing_job key v.principal (v.afterwards d))) [
        | inl e ↦ rw e (beside.afterwards d)
        | inr (job, e) ↦ rw e (beside.afterwards d)
      ]

  create_job-Kept :
      (id : String) (key : Option String) (payload : JobCreate) (db : Db)
      → Kept db (create_job sv v id key payload db).db
  unfolding create_job replay
  create_job-Kept id key payload db = elim (Option-cases (existing_job key v.principal db)) [
    | inr (job, e) ↦ rw (e, create_job) unchanged_Kept
    | inl e ↦ elim (Option-cases (get_provider sv payload.provider)) [
      | inl n ↦ rw (e, n, create_job) unchanged_Kept
      | inr (provider, p) ↦ elim (Bool-cases (leb sv.max_active (count_active v.principal db))) [
        | inl y ↦ rw (e, p, y, create_job) unchanged_Kept
        | inr n ↦
            rw (e, p, n, create_job)
              (Kept-trans (then-Step (submits id _ _ v.now) tt) (after_create-Kept key _ _ _))
      ]
    ]
  ]

  cancel_job-Kept : (k : String) (db : Db) → Kept db (cancel_job sv v k db).db
  unfolding cancel_job after_cancel
  cancel_job-Kept k db = elim (Option-cases (get_owned k v.principal db)) [
    | inl e ↦ rw (e, cancel_job) unchanged_Kept
    | inr (job, e) ↦ elim (Bool-cases (terminal job.status)) [
      | inl y ↦ rw (e, y, cancel_job) unchanged_Kept
      | inr n ↦
          rw (e, n, cancel_job) (Kept-trans (then-Step (cancels k v.now) tt) (beside.afterwards _))
    ]
  ]

  after_retry-Kept : (k : String) (d : Db) (o : Retried) → Kept d (after_retry sv v k (d, o)).db
  unfolding after_retry
  after_retry-Kept k d retried = beside.afterwards d
  after_retry-Kept k d not_retried = beside.afterwards d
  after_retry-Kept k d retry_refused = beside.afterwards d

  retry_job-Kept : (k : String) (db : Db) → Kept db (retry_job sv v k db).db
  unfolding retry_job
  retry_job-Kept k db = elim (Option-cases (get_owned k v.principal db)) [
    | inl e ↦ rw (e, retry_job) unchanged_Kept
    | inr (job, e) ↦ elim (Bool-cases (status_eq job.status JobStatus.failed)) [
      | inr n ↦ rw (e, n, retry_job) unchanged_Kept
      | inl y ↦ elim (Bool-cases (leb sv.max_active (count_active v.principal db))) [
        | inl m ↦ rw (e, y, m, retry_job) unchanged_Kept
        | inr m ↦ elim (Option-cases (get_provider sv (some job.provider))) [
          | inl p ↦ rw (e, y, m, p, retry_job) unchanged_Kept
          | inr (provider, p) ↦
              rw (e, y, m, p, retry_job)
                (Kept-trans (then-Step (retries k v.principal _ v.now) tt) (after_retry-Kept k _ _))
        ]
      ]
    ]
  ]

  delete_job-Kept : (k : String) (db : Db) → v.meanwhile db ≡ db → Kept db (delete_job v k db).db
  unfolding delete_job get_owned
  delete_job-Kept k db still = elim (Option-cases (get_owned k v.principal db)) [
    | inl e ↦ rw (e, delete_job) unchanged_Kept
    | inr (job, e) ↦ elim (Bool-cases (terminal job.status)) [
      | inr n ↦ rw (e, n, delete_job) unchanged_Kept
      | inl y ↦
          rw (e, y, still, delete_job)
            (kept_step unchanged_Kept (deletes k) (λ j there.
              let found = (get_owned-eq-some k v.principal db e).0 in
              rw (some-injective j job (sym there ∙ found)) y))
    ]
  ]

  after_publish-Kept :
      (github : Github) (k : String) (end : PublishEnd) (d : Db)
      → Kept d (after_publish github v k end d).db
  unfolding after_publish
  after_publish-Kept github k (pull_request repository url document) d =
      kept_step unchanged_Kept (published k _ _ _ v.now) tt
  after_publish-Kept github k (publish_error message code status) d =
      kept_step unchanged_Kept (published k _ _ _ v.now) tt

  after_claim-Kept :
      (github : Github) (payload : PublishRequest) (k : String) (job : Job) (d : Db) (won : Bool)
      → Kept d (after_claim github v payload k job (d, won)).db
  unfolding after_claim
  after_claim-Kept github payload k job d false = unchanged_Kept
  after_claim-Kept github payload k job d true =
      Kept-trans (beside.afterwards d) (after_publish-Kept github k _ _)

  publish_job-Kept :
      (github : Github) (payload : PublishRequest) (k : String) (db : Db)
      → Kept db (publish_job sv github payload v k db).db
  unfolding publish_job
  publish_job-Kept github payload k db = elim (Option-cases (get_owned k v.principal db)) [
    | inl e ↦ rw (e, publish_job) unchanged_Kept
    | inr (job, e) ↦ elim (Bool-cases sv.publishing_enabled) [
      | inr n ↦ rw (e, n, publish_job) unchanged_Kept
      | inl y ↦ elim (Bool-cases (repository_name_problem (codes payload.repository))) [
        | inl p ↦ rw (e, y, p, publish_job) unchanged_Kept
        | inr p ↦ elim (Bool-cases (status_eq job.status JobStatus.succeeded)) [
          | inr n ↦ rw (e, y, p, n, publish_job) unchanged_Kept
          | inl s ↦
              rw (e, y, p, s, publish_job)
                (Kept-trans (then-Step (publishes k v.now) tt)
                  (after_claim-Kept github payload k job _ _))
        ]
      ]
    ]
  ]

  of_owned-Kept :
      (reply : Job → HttpReply) (k : String) (db : Db) → Kept db (of_owned reply v k db).db
  unfolding of_owned
  of_owned-Kept reply k db = elim (Option-cases (get_owned k v.principal db)) [
    | inl e ↦ rw (e, of_owned) unchanged_Kept
    | inr (job, e) ↦ rw (e, of_owned) unchanged_Kept
  ]

  handle-Kept :
      (github : Github) (r : JobRequest) (k : String) (db : Db)
      → (r ≡ Routes.deletes → v.meanwhile db ≡ db)
      → Kept db (handle sv github r v k db).db
  unfolding handle get_job get_requirements get_architecture get_review get_test_report list_files
      get_file download_archive stream_events
  handle-Kept github Routes.shows k db still = of_owned-Kept _ k db
  handle-Kept github Routes.cancels k db still = cancel_job-Kept k db
  handle-Kept github Routes.retries k db still = retry_job-Kept k db
  handle-Kept github Routes.deletes k db still = delete_job-Kept k db (still refl)
  handle-Kept github Routes.requirements k db still = of_owned-Kept _ k db
  handle-Kept github Routes.architecture k db still = of_owned-Kept _ k db
  handle-Kept github Routes.review k db still = of_owned-Kept _ k db
  handle-Kept github Routes.tests k db still = of_owned-Kept _ k db
  handle-Kept github (Routes.publishes payload) k db still = publish_job-Kept github payload k db
  handle-Kept github Routes.files k db still = of_owned-Kept _ k db
  handle-Kept github (Routes.file path) k db still = of_owned-Kept _ k db
  handle-Kept github Routes.archive k db still = of_owned-Kept _ k db
  handle-Kept github (Routes.follows last_event_id after) k db still = of_owned-Kept _ k db

  -- All that a request writes is transactions of the service, of which none deletes a job that has not
  -- ended, if that is so of what other processes write meanwhile, and if between the check and the removal
  -- of a deletion they write nothing.
  pub serve-Kept :
      (github : Github) (r : Request) (db : Db)
      → ((k : String) → r ≡ Routes.about k Routes.deletes → v.meanwhile db ≡ db)
      → Kept db (serve sv github r v db).db
  unfolding serve
  serve-Kept github (Routes.submits id key payload) db still = create_job-Kept id key payload db
  serve-Kept github (Routes.about k r) db still =
      handle-Kept github r k db (λ e. still k (ap (Routes.about k) e))
