-- ===== src/Api/Bounded.antt =====
-- `max_active_jobs_per_owner` in `create_job` and `retry_job` of src/autoswe/api/jobs.py.
use autonomous_ai_software_e.Prelude.{
  ℕ, ◌+◌, ◌≤◌, ◌≡◌, refl, inl, inr, String, Bool, false, Option, some, List, [], ◌∷◌, ◌++◌, arith,
  leb, length, keep_if, update, remove, Bool-cases, Option-cases,
}
use autonomous_ai_software_e.Model.{JobStatus, Job, Db, empty_db, status_eq}
use autonomous_ai_software_e.Budget.{has_id}
use autonomous_ai_software_e.Repository.Statements.{get_owned, delete, is_active, count_active}
use autonomous_ai_software_e.Repository.Submit.{
  Created, created, budget_refused, duplicate_submission, integrity,
}
use autonomous_ai_software_e.Repository.Requeue.{Retried, retried, not_retried, retry_refused}
use autonomous_ai_software_e.History.{Step, Reach, submits, retries}
use autonomous_ai_software_e.History.Reservations.{Reach-Sound}
use autonomous_ai_software_e.History.Changes.{Change, unchanged, updated, inserted}
use autonomous_ai_software_e.History.Changes.Steps.{Step-Change}
use autonomous_ai_software_e.Api.{Services, Visit, JobCreate, reservation_of}
use autonomous_ai_software_e.Api.Submit.{
  existing_job, get_provider, after_create, winner, replay, create_job, submission_of,
}
use autonomous_ai_software_e.Api.Manage.{after_retry, retry_job}

module _ (p : Job → Bool) where
  count-update :
      (is : Job → Bool) (f : Job → Job) (js : List Job)
      → length (keep_if p (update is f js)) ≤ length (keep_if p js) + 1
  unfolding update
  count-update is f [] = omega arith
  count-update is f (j ∷ js) = ground (arith, count-update is f js)

  count-append :
      (job : Job) (js : List Job) → length (keep_if p (js ++ job ∷ [])) ≤ length (keep_if p js) + 1
  count-append job [] = ground arith
  count-append job (j ∷ js) = ground (arith, count-append job js)

  count-remove :
      (is : Job → Bool) (js : List Job) → length (keep_if p (remove is js)) ≤ length (keep_if p js)
  unfolding remove
  count-remove is [] = omega arith
  count-remove is (j ∷ js) = ground (arith, count-remove is js)

-- One transaction makes at most one more job active.
Change-active :
    (owner : String) {a b : List Job}
    → Change a b
    → length (keep_if (is_active owner) b) ≤ length (keep_if (is_active owner) a) + 1
Change-active owner unchanged = omega arith
Change-active owner {a} (updated k f same edge) = count-update (is_active owner) (has_id k) f a
Change-active owner {a} (inserted j fresh q) = count-append (is_active owner) j a

Step-active :
    (owner : String) {db db' : Db}
    → Reach empty_db db
    → Step db db'
    → count_active owner db' ≤ count_active owner db + 1
unfolding count_active delete
Step-active owner {db} r s = elim (Step-Change s (Reach-Sound r)) [
  | inl c ↦ Change-active owner c
  | inr (k, e) ↦ rw e (omega (arith, count-remove (is_active owner) (has_id k) db.jobs))
]

below_limit : (a b n : ℕ) → leb n a ≡ false → b ≤ a + 1 → b ≤ n
below_limit a b n h k = ground arith

-- No other process writes during the request.
pub record Alone (v : Visit) : Type 0 where
  pub meanwhile : (d : Db) → v.meanwhile d ≡ d
  pub afterwards : (d : Db) → v.afterwards d ≡ d

module _ (sv : Services) (v : Visit) (alone : Alone v) where
  db-after_create :
      (key hash : Option String) (c : Db × Created) → (after_create sv v key hash c).db ≡ c.0
  unfolding after_create winner replay
  db-after_create key hash (d, created job) = alone.afterwards d
  db-after_create key hash (d, budget_refused) = alone.afterwards d
  db-after_create key hash (d, integrity) = refl
  db-after_create key hash (d, duplicate_submission) =
      elim (Option-cases (existing_job key v.principal (v.afterwards d))) [
        | inl e ↦ rw e (alone.afterwards d)
        | inr (job, e) ↦ rw e (alone.afterwards d)
      ]

  db-after_retry : (k : String) (o : Db × Retried) → (after_retry sv v k o).db ≡ o.0
  unfolding after_retry
  db-after_retry k (d, retried) = alone.afterwards d
  db-after_retry k (d, not_retried) = alone.afterwards d
  db-after_retry k (d, retry_refused) = alone.afterwards d

  after_create-within :
      {n : ℕ} (key hash : Option String) (c : Db × Created)
      → count_active v.principal c.0 ≤ n
      → count_active v.principal (after_create sv v key hash c).db ≤ n
  after_create-within key hash c h = rw (db-after_create key hash c) h

  after_retry-within :
      {n : ℕ} (k : String) (o : Db × Retried)
      → count_active v.principal o.0 ≤ n
      → count_active v.principal (after_retry sv v k o).db ≤ n
  after_retry-within k o h = rw (db-after_retry k o) h

  module _ (db : Db) (reached : Reach empty_db db)
      (within : count_active v.principal db ≤ sv.max_active) where
    create_job-Bounded :
        (id : String) (key : Option String) (payload : JobCreate)
        → count_active v.principal (create_job sv v id key payload db).db ≤ sv.max_active
    unfolding create_job replay
    create_job-Bounded id key payload = elim (Option-cases (existing_job key v.principal db)) [
      | inr (job, e) ↦ rw (e, create_job) within
      | inl e ↦ elim (Option-cases (get_provider sv payload.provider)) [
        | inl n ↦ rw (e, n, create_job) within
        | inr (provider, p) ↦ elim (Bool-cases (leb sv.max_active (count_active v.principal db))) [
          | inl y ↦ rw (e, p, y, create_job) within
          | inr n ↦
              let step = Step-active v.principal reached (
                submits id (submission_of sv v key payload provider)
                  (reservation_of sv v.principal provider v.now) v.now) in
              rw (e, p, n, alone.meanwhile db, create_job)
                (after_create-within key _ _ (below_limit _ _ _ n step))
        ]
      ]
    ]

    retry_job-Bounded :
        (k : String) → count_active v.principal (retry_job sv v k db).db ≤ sv.max_active
    unfolding retry_job
    retry_job-Bounded k = elim (Option-cases (get_owned k v.principal db)) [
      | inl e ↦ rw (e, retry_job) within
      | inr (job, e) ↦ elim (Bool-cases (status_eq job.status JobStatus.failed)) [
        | inr n ↦ rw (e, n, retry_job) within
        | inl y ↦ elim (Bool-cases (leb sv.max_active (count_active v.principal db))) [
          | inl m ↦ rw (e, y, m, retry_job) within
          | inr m ↦ elim (Option-cases (get_provider sv (some job.provider))) [
            | inl p ↦ rw (e, y, m, p, retry_job) within
            | inr (provider, p) ↦
                let step =
                  Step-active v.principal reached
                    (retries k v.principal (reservation_of sv v.principal provider v.now) v.now) in
                rw (e, y, m, p, alone.meanwhile db, retry_job)
                  (after_retry-within k _ (below_limit _ _ _ m step))
          ]
        ]
      ]
    ]

    -- A submission or a retry leaves the caller with at most `max_active` queued or running jobs, if
    -- there were no more before and no other process writes during the request.
    pub active-Bounded :
        (id k : String) (key : Option String) (payload : JobCreate)
        → (count_active v.principal (create_job sv v id key payload db).db ≤ sv.max_active)
          × (count_active v.principal (retry_job sv v k db).db ≤ sv.max_active)
    active-Bounded id k key payload = (create_job-Bounded id key payload, retry_job-Bounded k)
