-- ===== src/Repository/Leaving.antt =====
-- The transactions of src/autoswe/repository.py that take a job out of `running`.
use autonomous_ai_software_e.Prelude.{
  ℕ, ◌+◌, ◌≡◌, ◌≢◌, refl, sym, ap, ◌∙◌, inl, inr, String, Bool, false, if◌then◌else◌, Option, none,
  some, find, cas, update, Option-cases, cas_lem, find-update_self, find-passes, update-none,
}
use mathlib.Core.Path.{subst}
use mathlib.Core.Option.{some-injective}
use autonomous_ai_software_e.Model.{JobStatus, Job, StageName, Db, status_eq}
use autonomous_ai_software_e.Budget.{has_id}
use autonomous_ai_software_e.Repository.Statements.{status_of, add_event, done_stages}
use autonomous_ai_software_e.Repository.Requeue.{
  back_to_queue, clear_artifacts, rewind, requeue, run_at_once, reset_for_retry, run_later,
  schedule_retry,
}
use autonomous_ai_software_e.Repository.Races.{status_of-cas}

abbrev pub Settled : String → Db → Type 0
Settled k db = status_of k db ≢ some JobStatus.running

abbrev pub is_running : Job → Bool
is_running j = status_eq j.status JobStatus.running

-- A compare-and-set from `running` that matches nothing.
pub cas-Settled :
    (k : String) (f : Job → Job) (db : Db)
    → cas (has_id k) is_running f db.jobs ≡ none
    → Settled k db
unfolding status_of status_eq
cas-Settled k f db e h =
    row (find (has_id k) db.jobs) h (sym (cas_lem (has_id k) is_running f db.jobs) ∙ e)
  where
    row :
        (o : Option Job)
        → elim o [ none ↦ none | some j ↦ some j.status ] ≡ some JobStatus.running
        → elim o [
          | none ↦ none
          | some r ↦ if is_running r then some (update (has_id k) f db.jobs) else none
        ]
          ≡ none
        → ⊥
    row none q z = cc
    row (some j) q z =
        let same : j.status ≡ JobStatus.running = some-injective j.status JobStatus.running q in
        cc (rw same at z)

pub status-Settled :
    (k : String) (db : Db) (s : JobStatus)
    → status_of k db ≡ some s
    → status_eq s JobStatus.running ≡ false
    → Settled k db
unfolding status_eq
status-Settled k db s e n h =
    let same : s ≡ JobStatus.running = some-injective s JobStatus.running (sym e ∙ h) in
    cc (rw same at n)

-- An update that leaves identifiers and statuses alone.
status_of-update :
    (k : String) (f : Job → Job) (db db' : Db)
    → db'.jobs ≡ update (has_id k) f db.jobs
    → ((j : Job) → (f j).id ≡ j.id)
    → ((j : Job) → (f j).status ≡ j.status)
    → status_of k db' ≡ status_of k db
unfolding status_of
status_of-update k f db db' same ids keeps =
    rw (same, status_of)
      (elim (Option-cases (find (has_id k) db.jobs)) [
        | inl e ↦ rw (update-none (has_id k) f db.jobs e) refl
        | inr (j, e) ↦
            rw (find-update_self (has_id k) f db.jobs e (rw ids (find-passes (has_id k) db.jobs e)))
              (ap some (keeps j) ∙ sym (rw (e, status_of) refl))
      ])

requeue-Settled :
    (k : String) (values : Job → Job) (now : ℕ) (db : Db)
    → ((j : Job) → (values j).id ≡ j.id)
    → ((j : Job) → (values j).status ≡ j.status)
    → {d : Db} → requeue k JobStatus.running values now db ≡ some d
    → status_of k d ≡ some JobStatus.queued
unfolding requeue
requeue-Settled k values now db ids keeps {d} h =
    elim (Option-cases (cas (has_id k) is_running (back_to_queue values now) db.jobs)) [
      | inl e ↦ cc (rw (e, requeue) at h)
      | inr (jobs, e) ↦
          subst (λ (d : Db). status_of k d ≡ some JobStatus.queued)
            (some-injective _ _ (rw (e, requeue) at h))
            (unfold rewind in
              (status_of-update k (clear_artifacts (done_stages k db.stages) now)
                  (record db { jobs = jobs }) _ refl (λ j. unfold clear_artifacts in refl)
                  (λ j. unfold clear_artifacts in refl)
                ∙ status_of-cas is_running (back_to_queue values now) k db JobStatus.queued e
                    (λ j. unfold back_to_queue in ids _) (λ j. unfold back_to_queue in keeps _)))
    ]

requeue-none :
    (k : String) (values : Job → Job) (now : ℕ) (db : Db)
    → requeue k JobStatus.running values now db ≡ none
    → Settled k db
unfolding requeue
requeue-none k values now db h =
    elim (Option-cases (cas (has_id k) is_running (back_to_queue values now) db.jobs)) [
      | inl e ↦ cas-Settled k (back_to_queue values now) db e
      | inr (jobs, e) ↦ cc (rw (e, requeue) at h)
    ]

pub reset-Settled : (k : String) (now : ℕ) (db : Db) → Settled k (reset_for_retry k now db).0
unfolding reset_for_retry add_event status_of
reset-Settled k now db = elim (Option-cases (requeue k JobStatus.running run_at_once now db)) [
  | inl e ↦ rw (e, reset_for_retry) (requeue-none k run_at_once now db e)
  | inr (d, e) ↦
      rw (e, reset_for_retry)
        (status-Settled k d JobStatus.queued
          (requeue-Settled k run_at_once now db (λ j. unfold run_at_once in refl)
            (λ j. unfold run_at_once in refl) e)
          refl)
]

pub schedule_retry-Settled :
    (k : String) (stage : StageName) (delay : ℕ) (message : String) (code : Option String) (now : ℕ)
    (db : Db) {n : ℕ}
    → (schedule_retry k stage delay message code now db).1 ≡ some n
    → Settled k (schedule_retry k stage delay message code now db).0
unfolding schedule_retry status_of add_event
schedule_retry-Settled k stage delay message code now db h =
    elim (Option-cases (requeue k JobStatus.running (run_later (now + delay)) now db)) [
      | inl e ↦ cc (rw (e, schedule_retry) at h)
      | inr (d, e) ↦
          rw (e, schedule_retry)
            (status-Settled k d JobStatus.queued
              (requeue-Settled k (run_later (now + delay)) now db (λ j. unfold run_later in refl)
                (λ j. unfold run_later in refl) e)
              refl)
    ]
