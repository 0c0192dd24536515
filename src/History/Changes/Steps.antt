-- ===== src/History/Changes/Steps.antt =====
-- Every step of the history is one change of the table of jobs.
use mathlib.Core.Path.{subst}
use mathlib.Core.Option.{some-injective}
use autonomous_ai_software_e.Prelude.{
  ℕ, ◌≡◌, refl, sym, ap, ◌∙◌, inl, inr, ◌⊎◌, String, Option, none, some, List, [], ◌∷◌, ◌++◌, arith,
  ◌&&◌, Bool, true, false, ◌==◌, ltb, cas, update, Option-cases, Bool-cases,
}
use autonomous_ai_software_e.Model.{
  JobStatus, StageName, Job, publishing, TokenUsage, Submission, Db, status_eq, total_tokens,
}
use autonomous_ai_software_e.Budget.{
  BudgetGuard, has_id, try_reserve, add_reserved, extend, record_usage, top_up, under_limit,
  before_call, after_call, reservation_for, smaller,
}
use autonomous_ai_software_e.Budget.Transfer.{Leak, try_reserve-Granted, jobs-Granted}
use autonomous_ai_software_e.Repository.Statements.{
  GeneratedFile, add_event, update_job, heartbeat, beat, update_stage, skip_pending_stages,
  upsert_files, discard_files, claim_publication, record_publication, set_publication, is_none,
  delete, get_owned,
}
use autonomous_ai_software_e.Repository.Requeue.{
  requeue, fresh_attempt, reserve_again, retry_failed,
}
use autonomous_ai_software_e.Repository.Submit.{
  Reservation, new_job, reserve_for, collides, insert_job, create,
}
use autonomous_ai_software_e.Repository.Reservations.{Sound}
use autonomous_ai_software_e.Repository.Reservations.Admission.{jobs-ensure, reserve_for-Taken}
use autonomous_ai_software_e.Orchestrator.Outcomes.{set_stage, set_artifacts}
use autonomous_ai_software_e.History.{
  Step, submits, cancels, retries, deletes, claims, progresses, persists, beats, finishes,
  interrupts, postpones, reaps, emits, skips, stages, stores, discards, publishes, published,
  tops_up, spends,
}
use autonomous_ai_software_e.History.Changes.{
  stays, revived, SameRow, Change, unchanged, updated, inserted, cas-Change, claim-Change,
  request_cancel-Change, finish-Change, reap-Change, requeue-Change, reset_for_retry-Change,
  schedule_retry-Change,
}

-- An update that leaves identifier and status alone.
plain :
    (k : String) (f : Job → Job) (jobs : List Job)
    → ((j : Job) → SameRow (f j) j)
    → ((j : Job) → (f j).status ≡ j.status)
    → Change jobs (update (has_id k) f jobs)
plain k f jobs ids same = updated k f ids (λ j e. rw same (stays j.status))

reserve_for-queued :
    (id : String) (sub : Submission) (r : Option Reservation) (now : ℕ) (db : Db) {job : Job}
    {db' : Db}
    → reserve_for id sub r now db ≡ some (job, db')
    → job.status ≡ JobStatus.queued
unfolding reserve_for new_job
reserve_for-queued id sub none now db h = ground arith
reserve_for-queued id sub (some r) now db h = ground arith

create-Change :
    (id : String) (sub : Submission) (r : Option Reservation) (now : ℕ) (db : Db)
    → Change db.jobs (create id sub r now db).0.jobs
unfolding create insert_job
create-Change id sub r now db = elim (Option-cases (reserve_for id sub r now db)) [
  | inl e ↦ rw (e, create) unchanged
  | inr ((job, db'), e) ↦ elim (Bool-cases (collides job db'.jobs)) [
    | inl y ↦ rw (e, create) (rw y unchanged)
    | inr n ↦
        let kept = (reserve_for-Taken id sub r now db e).jobs in
        rw (e, create)
          (rw n (
            subst (λ (js : List Job). Change js (db'.jobs ++ job ∷ [])) kept
              (inserted job n (reserve_for-queued id sub r now db e))))
  ]
]

jobs-reserve_again :
    (owner : String) (r : Option Reservation) (now : ℕ) (db : Db) {db' : Db}
    → reserve_again owner r now db ≡ some db'
    → db'.jobs ≡ db.jobs
unfolding reserve_again
jobs-reserve_again owner none now db h = ground arith
jobs-reserve_again owner (some r) now db h = elim (Option-cases r.limit) [
  | inl e ↦
      ap (λ (d : Db). d.jobs) (sym (some-injective _ _ (rw (e, reserve_again) at h)))
      ∙ jobs-ensure owner r.period_start now db
  | inr (l, e) ↦
      jobs-Granted owner r.period_start r.amount l now
        (try_reserve-Granted owner r.period_start r.amount l now _ (rw (e, reserve_again) at h))
      ∙ jobs-ensure owner r.period_start now db
]

fresh_attempt_keeps :
    (r : Option Reservation) (j : Job)
    → SameRow (fresh_attempt r j) j × ((fresh_attempt r j).status ≡ j.status)
unfolding fresh_attempt
fresh_attempt_keeps none j = ((refl, refl), refl)
fresh_attempt_keeps (some r) j = ((refl, refl), refl)

retry_failed-Change :
    (k owner : String) (r : Option Reservation) (now : ℕ) (db : Db)
    → Change db.jobs (retry_failed k owner r now db).0.jobs
unfolding retry_failed add_event
retry_failed-Change k owner r now db = elim (Option-cases (get_owned k owner db)) [
  | inl e ↦ rw (e, retry_failed) unchanged
  | inr (j, e) ↦ elim (Option-cases (requeue k JobStatus.failed (fresh_attempt r) now db)) [
    | inl n ↦ rw (e, retry_failed) (rw n unchanged)
    | inr (db', q) ↦ elim (Option-cases (reserve_again owner r now db')) [
      | inl n ↦ rw (e, retry_failed) (rw q (rw n unchanged))
      | inr (db'', g) ↦
          rw (e, retry_failed)
            (rw q (
              rw g (
                rw (jobs-reserve_again owner r now db' g) (
                  requeue-Change k JobStatus.failed (fresh_attempt r) now db revived
                    (λ i. (fresh_attempt_keeps r i).0) (λ i. (fresh_attempt_keeps r i).1) q))))
    ]
  ]
]

extend-Change :
    (k p : String) (s amount limit now : ℕ) (db : Db)
    → Change db.jobs (extend k p s amount limit now db).0.jobs
unfolding extend
extend-Change k p s amount limit now db =
    elim (Option-cases (try_reserve p s amount limit now db)) [
      | inl e ↦ rw (e, extend) unchanged
      | inr (db', e) ↦
          rw (e, extend)
            (rw (jobs-Granted p s amount limit now (try_reserve-Granted p s amount limit now db e))
              (plain k (add_reserved amount now) db.jobs (λ j. (refl, refl)) (λ j. refl)))
    ]

under_limit-Change :
    (g : BudgetGuard) (o : Option ℕ) (now : ℕ) (db : Db)
    → Change db.jobs (under_limit g o now db).1.jobs
unfolding under_limit top_up
under_limit-Change g none now db = unchanged
under_limit-Change g (some l) now db = elim (Bool-cases (ltb 0 g.reserved)) [
  | inl y ↦ rw (y, under_limit) unchanged
  | inr n ↦
      rw (n, under_limit)
        (topped _ (
          extend-Change g.job_id g.principal g.period_start (reservation_for g.policy g.limit) l now
            db))
]
  where
    topped :
        (r : Db × Bool)
        → Change db.jobs r.0.jobs
        → Change db.jobs (top_up g l (reservation_for g.policy g.limit) r).1.jobs
    topped (d, true) w = w
    topped (d, false) w = w

after_call-Change :
    (g : BudgetGuard) (usage : TokenUsage) (now : ℕ) (db : Db)
    → Change db.jobs (after_call g usage now db).1.jobs
unfolding after_call record_usage
after_call-Change g usage now db =
    elim (Bool-cases (smaller (total_tokens usage) g.reserved == 0)) [
      | inl z ↦ rw z unchanged
      | inr n ↦ rw n (plain g.job_id _ db.jobs (λ j. (refl, refl)) (λ j. refl))
    ]

claim_publication-Change :
    (k : String) (now : ℕ) (db : Db) → Change db.jobs (claim_publication k now db).0.jobs
unfolding claim_publication
claim_publication-Change k now db =
    elim (Option-cases (cas (has_id k) claims_it (set_publication (some publishing) now) db.jobs)) [
      | inl e ↦ rw (e, claim_publication) unchanged
      | inr (jobs, e) ↦
          rw (e, claim_publication)
            (cas-Change claims_it _ k db.jobs e (λ j. (refl, refl)) (λ j g. stays j.status))
    ]
  where
    claims_it : Job → Bool
    claims_it j = status_eq j.status JobStatus.succeeded && is_none j.publication

upsert_files-Change :
    (k : String) (files : List GeneratedFile) (stage : StageName) (db : Db)
    → Change db.jobs (upsert_files k files stage db).jobs
unfolding upsert_files
upsert_files-Change k [] stage db = unchanged
upsert_files-Change k (f ∷ fs) stage db = unchanged

-- A deletion takes one row away, whatever it finds there.
pub Step-Change :
    {db db' : Db} {L : Leak}
    → Step db db'
    → Sound L db
    → Change db.jobs db'.jobs ⊎ ((k : String) × (db' ≡ delete k db))
unfolding update_job heartbeat delete record_publication add_event skip_pending_stages update_stage
    discard_files before_call
Step-Change {db} (submits id sub r now) v = inl (create-Change id sub r now db)
Step-Change {db} (cancels k now) v = inl (request_cancel-Change k now db v)
Step-Change {db} (retries k owner r now) v = inl (retry_failed-Change k owner r now db)
Step-Change (deletes k) v = inr (k, refl)
Step-Change {db} (claims worker now k) v = inl (claim-Change worker now k db)
Step-Change {db} (progresses k stage now) v = inl (
    plain k (λ j. set_stage stage (record j { updated_at = now })) db.jobs
      (λ j. unfold set_stage in (refl, refl)) (λ j. unfold set_stage in refl))
Step-Change {db} (persists k total made now) v = inl (
    plain k (λ j. set_artifacts total made (record j { updated_at = now })) db.jobs
      (λ j. unfold set_artifacts in (refl, refl)) (λ j. unfold set_artifacts in refl))
Step-Change {db} (beats k now) v = inl (plain k (beat now) db.jobs (λ j. (refl, refl)) (λ j. refl))
Step-Change {db} (finishes k o now) v = inl (finish-Change k _ _ o now db v)
Step-Change {db} (interrupts k now) v = inl (reset_for_retry-Change k now db)
Step-Change {db} (postpones k stage delay error code now) v =
    inl (schedule_retry-Change k stage delay error code now db)
Step-Change {db} (reaps k now) v = inl (reap-Change k now db v)
Step-Change {db} (emits k kind payload now) v = inl (unfold add_event in unchanged)
Step-Change {db} (skips k) v = inl (unchanged)
Step-Change {db} (stages k stage values) v = inl (unchanged)
Step-Change {db} (stores k files stage) v = inl (upsert_files-Change k files stage db)
Step-Change {db} (discards k keep) v = inl (unchanged)
Step-Change {db} (publishes k now) v = inl (claim_publication-Change k now db)
Step-Change {db} (published k value kind payload now) v = inl (
    plain k (set_publication value now) db.jobs (λ j. unfold set_publication in (refl, refl))
      (λ j. unfold set_publication in refl))
Step-Change {db} (tops_up g now sync alive) v = inl (under_limit-Change g g.limit now db)
Step-Change {db} (spends g usage now sync) v = inl (after_call-Change g usage now db)
