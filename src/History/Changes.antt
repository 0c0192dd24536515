-- ===== src/History/Changes.antt =====
-- What one transaction of src/autoswe/repository.py does to the table of jobs: nothing, one row's update
-- along an edge of the status diagram, or one fresh row. A deletion is told apart.
pub mod Steps
use mathlib.Core.Option.{some-injective}
use mathlib.Core.Path.{subst}
use autonomous_ai_software_e.Prelude.{
  ℕ, ◌+◌, ◌≡◌, refl, sym, ap, ◌∙◌, inl, inr, String, Option, none, some, List, [], ◌∷◌, ◌++◌, arith,
  ◌&&◌, not, Bool, true, false, ◌==◌, Bool-cases, str_eq, find, cas, update, remove, Option-cases,
  cas-find, cas-update, update-update, &&-elim,
}
use autonomous_ai_software_e.Model.{JobStatus, StageName, Job, Payload, Db, terminal, status_eq}
use autonomous_ai_software_e.Budget.{has_id, release, clear_reserved}
use autonomous_ai_software_e.Budget.Transfer.{Leak, free_up}
use autonomous_ai_software_e.Repository.Statements.{add_event, done_stages, status_of}
use autonomous_ai_software_e.Repository.Submit.{collides}
use autonomous_ai_software_e.Repository.Queue.{
  claimable, start, claim, cancel_queued, flag_cancel, cancel_running, request_cancel, with_values,
  finish, abandon, reap,
}
use autonomous_ai_software_e.Repository.Requeue.{
  back_to_queue, clear_artifacts, rewind, requeue, run_at_once, run_later, reset_for_retry,
  schedule_retry,
}
use autonomous_ai_software_e.Repository.Reservations.{Sound, Leaves, jobs-ending}
use autonomous_ai_software_e.Repository.Reservations.Moves.{with_values-Leaves}
use autonomous_ai_software_e.Orchestrator.Outcomes.{
  Outcome, succeeds, fails, cancels, outcome_values,
}

-- The status diagram of a job.
pub data Edge : JobStatus → JobStatus → Type 0 where
  stays : (s : JobStatus) → Edge s s
  claimed : Edge JobStatus.queued JobStatus.running
  dropped : Edge JobStatus.queued JobStatus.cancelled
  succeeded : Edge JobStatus.running JobStatus.succeeded
  broke : Edge JobStatus.running JobStatus.failed
  stopped : Edge JobStatus.running JobStatus.cancelled
  requeued : Edge JobStatus.running JobStatus.queued
  revived : Edge JobStatus.failed JobStatus.queued

-- The row of the same submission under the same identifier.
abbrev pub SameRow : Job → Job → Type 0
SameRow a b = (a.id ≡ b.id) × (a.submission ≡ b.submission)

pub data Change (jobs : List Job) : List Job → Type 0 where
  unchanged : Change jobs jobs
  updated :
      (k : String) (f : Job → Job)
      → ((j : Job) → SameRow (f j) j)
      → ((j : Job) → find (has_id k) jobs ≡ some j → Edge j.status (f j).status)
      → Change jobs (update (has_id k) f jobs)
  inserted :
      (j : Job)
      → collides j jobs ≡ false
      → j.status ≡ JobStatus.queued
      → Change jobs (jobs ++ j ∷ [])

pub status_eq→eq : (a b : JobStatus) → status_eq a b ≡ true → a ≡ b
unfolding status_eq
status_eq→eq a b h = ground arith

-- A change that keeps the status.
same_status : (a b : JobStatus) → b ≡ a → Edge a b
same_status a b h = rw h (stays a)

-- The edge out of a status that a guard has tested.
from_status : (a b s : JobStatus) → status_eq s a ≡ true → Edge a b → Edge s b
from_status a b s h e = rw (status_eq→eq s a h) e

pub cas-Change :
    (guard : Job → Bool) (f : Job → Job) (k : String) (jobs : List Job) {t : List Job}
    → cas (has_id k) guard f jobs ≡ some t
    → ((j : Job) → SameRow (f j) j)
    → ((j : Job) → guard j ≡ true → Edge j.status (f j).status)
    → Change jobs t
cas-Change guard f k jobs e ids edge =
    let (r, found, passed) = cas-find (has_id k) guard f jobs e in
    rw (cas-update (has_id k) guard f jobs e)
      (updated k f ids (λ j q. edge j (rw (some-injective j r (sym q ∙ found)) passed)))

free_up-status : (now : ℕ) (j : Job) → (free_up now j).status ≡ j.status
unfolding clear_reserved
free_up-status now j = ground arith

free_up-SameRow : (now : ℕ) (j : Job) → SameRow (free_up now j) j
unfolding clear_reserved
free_up-SameRow now j = elim (Bool-cases (j.tokens_reserved == 0)) [
  | inl y ↦ rw y (refl, refl)
  | inr n ↦ rw n (refl, refl)
]

-- The same with the release that ends the transaction.
cas_ending-Change :
    {L : Leak} (guard : Job → Bool) (f : Job → Job) (k : String) (now : ℕ) (db : Db) {t : List Job}
    → cas (has_id k) guard f db.jobs ≡ some t
    → Leaves f
    → Sound L db
    → ((j : Job) → guard j ≡ true → Edge j.status (f j).status)
    → Change db.jobs (release k now (record db { jobs = t })).jobs
cas_ending-Change guard f k now db e l v edge =
    let (r, found, passed) = cas-find (has_id k) guard f db.jobs e in
    rw (cas-update (has_id k) guard f db.jobs e) (
      rw (jobs-ending f k now db l v) (
        updated k (λ j. free_up now (f j))
          (λ j. let kept = free_up-SameRow now (f j) in (kept.0 ∙ l.id j, kept.1 ∙ l.submission j))
          (λ j q. rw free_up-status (edge j (rw (some-injective j r (sym q ∙ found)) passed)))))

pub claim-Change :
    (worker : String) (now : ℕ) (k : String) (db : Db)
    → Change db.jobs (claim worker now k db).0.jobs
unfolding claim claimable
claim-Change worker now k db =
    elim (Option-cases (cas (has_id k) (claimable now) (start worker now) db.jobs)) [
      | inl e ↦ rw (e, claim) unchanged
      | inr (jobs, e) ↦
          rw (e, claim)
            (cas-Change (claimable now) (start worker now) k db.jobs e (λ j. (refl, refl))
              (λ j g.
                from_status JobStatus.queued JobStatus.running j.status (&&-elim _ _ g).0 claimed))
    ]

is_running : Job → Bool
is_running j = status_eq j.status JobStatus.running

cancel_running-Change :
    (k : String) (now : ℕ) (db : Db) → Change db.jobs (cancel_running k now db).0.jobs
unfolding cancel_running add_event
cancel_running-Change k now db =
    elim (Option-cases (
      cas (has_id k) (λ j. status_eq j.status JobStatus.running && not j.cancel_requested)
        (flag_cancel now) db.jobs)) [
          | inl e ↦ elim (Option-cases (status_of k db)) [
            | inl n ↦ rw (e, cancel_running) (rw n unchanged)
            | inr (s, n) ↦ rw (e, cancel_running) (rw n unchanged)
          ]
          | inr (jobs, e) ↦
              rw (e, cancel_running)
                (cas-Change (λ j. status_eq j.status JobStatus.running && not j.cancel_requested)
                  (flag_cancel now) k db.jobs e (λ j. (refl, refl)) (λ j g. stays j.status))
        ]

pub request_cancel-Change :
    {L : Leak} (k : String) (now : ℕ) (db : Db)
    → Sound L db
    → Change db.jobs (request_cancel k now db).0.jobs
unfolding request_cancel add_event
request_cancel-Change k now db v =
    elim (Option-cases
      (cas (has_id k) (λ j. status_eq j.status JobStatus.queued) (cancel_queued now) db.jobs)) [
        | inl e ↦ rw (e, request_cancel) (cancel_running-Change k now db)
        | inr (jobs, e) ↦
            rw (e, request_cancel)
              (cas_ending-Change (λ j. status_eq j.status JobStatus.queued) (cancel_queued now) k
                now db e
                (record {
                  id = λ j. refl;
                  submission = λ j. refl;
                  period = λ j. refl;
                  reserved = λ j. refl;
                })
                v (λ j g. from_status JobStatus.queued JobStatus.cancelled j.status g dropped))
      ]

outcome-Edge :
    (now : ℕ) (o : Outcome) (j : Job)
    → is_running j ≡ true
    → Edge j.status (with_values (outcome_values now o) now j).status
unfolding outcome_values with_values is_running
outcome-Edge now (succeeds p) j g = from_status JobStatus.running _ j.status g succeeded
outcome-Edge now (fails e c) j g = from_status JobStatus.running _ j.status g broke
outcome-Edge now cancels j g = from_status JobStatus.running _ j.status g stopped

pub finish-Change :
    {L : Leak} (k kind : String) (payload : Payload) (o : Outcome) (now : ℕ) (db : Db)
    → Sound L db
    → Change db.jobs (finish k kind payload (outcome_values now o) now db).0.jobs
unfolding finish add_event is_running
finish-Change k kind payload o now db v =
    elim (Option-cases
      (cas (has_id k) is_running (with_values (outcome_values now o) now) db.jobs)) [
        | inl e ↦ rw (e, finish) unchanged
        | inr (jobs, e) ↦
            rw (e, finish)
              (cas_ending-Change is_running _ k now db e (with_values-Leaves now o) v
                (outcome-Edge now o))
      ]

pub reap-Change :
    {L : Leak} (k : String) (now : ℕ) (db : Db) → Sound L db → Change db.jobs (reap k now db).jobs
unfolding reap add_event is_running
reap-Change k now db v = elim (Option-cases (cas (has_id k) is_running (abandon now) db.jobs)) [
  | inl e ↦ rw (e, reap) unchanged
  | inr (jobs, e) ↦
      rw (e, reap)
        (cas_ending-Change is_running (abandon now) k now db e
          (record {
            id = λ j. refl;
            submission = λ j. refl;
            period = λ j. refl;
            reserved = λ j. refl;
          })
          v (λ j g. from_status JobStatus.running JobStatus.failed j.status g broke))
]

-- A requeue, from either status.
pub requeue-Change :
    (k : String) (from : JobStatus) (values : Job → Job) (now : ℕ) (db : Db) {db' : Db}
    → Edge from JobStatus.queued
    → ((j : Job) → SameRow (values j) j)
    → ((j : Job) → (values j).status ≡ j.status)
    → requeue k from values now db ≡ some db'
    → Change db.jobs db'.jobs
unfolding requeue
requeue-Change k from values now db {db'} edge ids same h =
    elim (Option-cases
      (cas (has_id k) (λ j. status_eq j.status from) (back_to_queue values now) db.jobs)) [
        | inl e ↦ cc (rw (e, requeue) at h)
        | inr (jobs, e) ↦
            subst (λ (d : Db). Change db.jobs d.jobs) (some-injective _ _ (rw (e, requeue) at h))
              (moved jobs e)
      ]
  where
    moved :
        (jobs : List Job)
        → cas (has_id k) (λ j. status_eq j.status from) (back_to_queue values now) db.jobs
          ≡ some jobs
        → Change db.jobs (rewind k now (record db { jobs = jobs })).jobs
    moved jobs e =
        let (r, found, passed) = cas-find (has_id k) _ _ db.jobs e in
        rw (cas-update (has_id k) _ _ db.jobs e) (
          rw
            (update-update (has_id k) (back_to_queue values now)
              (clear_artifacts (done_stages k db.stages) now) db.jobs
              (λ j. ap (λ i. str_eq i k) (ids _).0))
            (updated k _ (λ j. ids _)
              (λ j q. rw same (
                from_status from JobStatus.queued j.status
                  (rw (some-injective j r (sym q ∙ found)) passed) edge))))

pub reset_for_retry-Change :
    (k : String) (now : ℕ) (db : Db) → Change db.jobs (reset_for_retry k now db).0.jobs
unfolding reset_for_retry add_event
reset_for_retry-Change k now db =
    elim (Option-cases (requeue k JobStatus.running run_at_once now db)) [
      | inl e ↦ rw (e, reset_for_retry) unchanged
      | inr (db', e) ↦
          rw (e, reset_for_retry)
            (requeue-Change k JobStatus.running run_at_once now db requeued (λ j. (refl, refl))
              (λ j. refl) e)
    ]

pub schedule_retry-Change :
    (k : String) (stage : StageName) (delay : ℕ) (error : String) (code : Option String) (now : ℕ)
    (db : Db)
    → Change db.jobs (schedule_retry k stage delay error code now db).0.jobs
unfolding schedule_retry add_event
schedule_retry-Change k stage delay error code now db =
    elim (Option-cases (requeue k JobStatus.running (run_later (now + delay)) now db)) [
      | inl e ↦ rw (e, schedule_retry) unchanged
      | inr (db', e) ↦
          rw (e, schedule_retry)
            (requeue-Change k JobStatus.running (run_later (now + delay)) now db requeued
              (λ j. (refl, refl)) (λ j. refl) e)
    ]
