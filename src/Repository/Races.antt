-- ===== src/Repository/Races.antt =====
-- The compare-and-sets of src/autoswe/repository.py: of two transactions that race for a job one wins.
use autonomous_ai_software_e.Prelude.{
  ℕ, ◌≡◌, ◌≢◌, refl, sym, ap, ◌∙◌, inl, inr, String, Option, none, some, List, arith, ◌&&◌, not,
  Bool, true, false, if◌then◌else◌, ◌==◌, find, cas, update, Option-cases, Bool-cases, cas-find,
  cas-update, cas_lem, find-update_self, find-passes,
}
use mathlib.Core.Path.{subst}
use mathlib.Core.Option.{some-injective}
use autonomous_ai_software_e.Model.{JobStatus, Job, Db, publishing, status_eq}
use autonomous_ai_software_e.Budget.{has_id, release, release_held, clear_reserved}
use autonomous_ai_software_e.Repository.Statements.{
  claim_publication, set_publication, is_none, status_of, add_event,
}
use autonomous_ai_software_e.Orchestrator.Outcomes.{
  Outcome, succeeds, fails, cancels, outcome_values,
}
use autonomous_ai_software_e.Repository.Queue.{
  claimable, start, claim, cancel_queued, request_cancel, cancel_running, flag_cancel, skip_stages,
  with_values, CancelOutcome, was_cancelled,
}

module _ (k : String) (guard guard' : Job → Bool) (f f' : Job → Job)
    (ids : (j : Job) → (f j).id ≡ j.id)
    (closes : (j : Job) → guard j ≡ true → guard' (f j) ≡ false) where
  -- A compare-and-set whose guard the first has closed matches nothing.
  second_loses :
      (jobs : List Job) {t : List Job}
      → cas (has_id k) guard f jobs ≡ some t
      → cas (has_id k) guard' f' t ≡ none
  second_loses jobs {t} e =
      let (r, found, passed) = cas-find (has_id k) guard f jobs e in
      let there : find (has_id k) (update (has_id k) f jobs) ≡ some (f r) =
        find-update_self (has_id k) f jobs found (rw ids (find-passes (has_id k) jobs found)) in
      rw (cas-update (has_id k) guard f jobs e)
        (cas_lem (has_id k) guard' f' (update (has_id k) f jobs) ∙ rw (there, closes r passed) refl)

-- A release leaves the status alone.
pub status_of-release :
    (k : String) (now : ℕ) (db : Db) → status_of k (release k now db) ≡ status_of k db
unfolding status_of release clear_reserved release_held
status_of-release k now db = elim (Option-cases (find (has_id k) db.jobs)) [
  | inl e ↦ rw (e, release) refl
  | inr (j, e) ↦ rw (e, release) (held_job j e j.budget_period_start ∙ sym (rw (e, status_of) refl))
]
  where
    held_job :
        (j : Job)
        → find (has_id k) db.jobs ≡ some j
        → (o : Option ℕ) → status_of k (release_held k now j o db) ≡ some j.status
    held_job j e none = rw (e, status_of) refl
    held_job j e (some s) = elim (Bool-cases (j.tokens_reserved == 0)) [
      | inl z ↦ rw (z, release_held) (rw (e, status_of) refl)
      | inr z ↦
          rw (z, release_held)
            (rw
              (
                find-update_self (has_id k) (clear_reserved now) db.jobs e
                    (find-passes (has_id k) db.jobs e),
                status_of,
              )
              refl)
    ]

-- What the updated row's status is.
pub status_of-cas :
    (guard : Job → Bool) (f : Job → Job) (k : String) (db : Db) {jobs : List Job} (s : JobStatus)
    → cas (has_id k) guard f db.jobs ≡ some jobs
    → ((j : Job) → (f j).id ≡ j.id)
    → ((j : Job) → (f j).status ≡ s)
    → status_of k (record db { jobs = jobs }) ≡ some s
unfolding status_of
status_of-cas guard f k db s e ids same =
    let (r, found, passed) = cas-find (has_id k) guard f db.jobs e in
    rw (cas-update (has_id k) guard f db.jobs e) (
      rw
        (
          find-update_self (has_id k) f db.jobs found
              (rw ids (find-passes (has_id k) db.jobs found)),
          status_of,
        )
        (ap some (same r)))

-- A guard on the status fails on another status.
pub cas-none :
    (guard : Job → Bool) (f : Job → Job) (k : String) (db : Db) (s : JobStatus)
    → status_of k db ≡ some s
    → ((j : Job) → j.status ≡ s → guard j ≡ false)
    → cas (has_id k) guard f db.jobs ≡ none
unfolding status_of
cas-none guard f k db s h closed =
    cas_lem (has_id k) guard f db.jobs ∙ row (find (has_id k) db.jobs) h
  where
    row :
        (o : Option Job)
        → elim o [ none ↦ none | some j ↦ some j.status ] ≡ some s
        → elim o [
          | none ↦ none
          | some r ↦ if guard r then some (update (has_id k) f db.jobs) else none
        ]
          ≡ none
    row none q = refl
    row (some j) q = rw (closed j (some-injective j.status s q)) refl

cancel_running-flags :
    (k : String) (now : ℕ) (db : Db) → (cancel_running k now db).1 ≢ some was_cancelled
unfolding cancel_running
cancel_running-flags k now db h =
    elim (Option-cases (
      cas (has_id k) (λ j. status_eq j.status JobStatus.running && not j.cancel_requested)
        (flag_cancel now) db.jobs)) [
          | inl e ↦ elim (Option-cases (status_of k db)) [
            | inl n ↦ cc (rw (e, n, cancel_running) at h)
            | inr (s, n) ↦ elim (Bool-cases (status_eq s JobStatus.running)) [
              | inl y ↦ cc (rw (e, n, y, cancel_running) at h)
              | inr y ↦ cc (rw (e, n, y, cancel_running) at h)
            ]
          ]
          | inr (jobs, e) ↦ cc (rw (e, cancel_running) at h)
        ]

-- A claim that directly follows the cancellation of the job while it waited loses, and changes nothing.
pub cancel-claim :
    (worker : String) (now later : ℕ) (k : String) (db : Db) {db' : Db}
    → request_cancel k now db ≡ (db', some was_cancelled)
    → claim worker later k db' ≡ (db', none)
unfolding request_cancel cancel_running cancel_queued add_event skip_stages claimable status_eq
    claim
cancel-claim worker now later k db {db'} h =
    elim (Option-cases
      (cas (has_id k) (λ j. status_eq j.status JobStatus.queued) (cancel_queued now) db.jobs)) [
        | inl e ↦ absurd (not_here e)
        | inr (jobs, e) ↦
            subst (λ d. claim worker later k d ≡ (d, none))
              (ap (λ (r : Db × Option CancelOutcome). r.0) (rw (e, request_cancel) at h))
              (rw
                (
                  cas-none (claimable later) (start worker later) k
                      (release k now (record db { jobs = jobs })) JobStatus.cancelled
                      (status_of-release k now _
                        ∙ status_of-cas _ (cancel_queued now) k db JobStatus.cancelled e (λ j. refl)
                            (λ j. refl))
                      (λ j q. rw q refl),
                  claim,
                )
                refl)
      ]
  where
    not_here :
        cas (has_id k) (λ j. status_eq j.status JobStatus.queued) (cancel_queued now) db.jobs ≡ none
        → ⊥
    not_here e =
        cancel_running-flags k now db
          (ap (λ (r : Db × Option CancelOutcome). r.1) (rw (e, request_cancel) at h))

-- A claim of a job's publication that directly follows one that has won it loses, and changes nothing.
pub claim_publication_once :
    (now later : ℕ) (k : String) (db : Db) {db' : Db}
    → claim_publication k now db ≡ (db', true)
    → claim_publication k later db' ≡ (db', false)
unfolding claim_publication status_eq is_none set_publication
claim_publication_once now later k db {db'} h =
    elim (Option-cases (cas (has_id k) free (set_publication (some publishing) now) db.jobs)) [
      | inl e ↦ cc (rw (e, claim_publication) at h)
      | inr (jobs, e) ↦
          subst (λ d. claim_publication k later d ≡ (d, false))
            (ap (λ (r : Db × Bool). r.0) (rw (e, claim_publication) at h))
            (rw
              (
                second_loses k free free (set_publication (some publishing) now)
                    (set_publication (some publishing) later) (λ j. refl) (λ j g. taken j) db.jobs
                    e,
                claim_publication,
              )
              refl)
    ]
  where
    free : Job → Bool
    free j = status_eq j.status JobStatus.succeeded && is_none j.publication

    taken : (j : Job) → free (set_publication (some publishing) now j) ≡ false
    taken j = ground arith

pub outcome_values-id :
    (now : ℕ) (o : Outcome) (j : Job) → (with_values (outcome_values now o) now j).id ≡ j.id
unfolding outcome_values with_values
outcome_values-id now (succeeds p) j = refl
outcome_values-id now (fails e c) j = refl
outcome_values-id now cancels j = refl

abbrev pub outcome_status : Outcome → JobStatus
outcome_status (succeeds p) = JobStatus.succeeded
outcome_status (fails e c) = JobStatus.failed
outcome_status cancels = JobStatus.cancelled

pub outcome_values-status :
    (now : ℕ) (o : Outcome) (j : Job)
    → (with_values (outcome_values now o) now j).status ≡ outcome_status o
unfolding outcome_values with_values
outcome_values-status now (succeeds p) j = refl
outcome_values-status now (fails e c) j = refl
outcome_values-status now cancels j = refl

pub outcome_not_running : (o : Outcome) → status_eq (outcome_status o) JobStatus.running ≡ false
unfolding status_eq
outcome_not_running (succeeds p) = refl
outcome_not_running (fails e c) = refl
outcome_not_running cancels = refl
