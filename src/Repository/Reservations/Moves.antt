-- ===== src/Repository/Reservations/Moves.antt =====
-- The moves of a job's status keep the reservations sound (src/autoswe/repository.py).
use autonomous_ai_software_e.Prelude.{
  ℕ, ◌+◌, ◌≡◌, refl, sym, ◌∙◌, inl, inr, String, Bool, true, not, ◌&&◌, Option, some, List, [], cas,
  Option-cases, cas-find, cas-update,
}
use mathlib.Core.Option.{some-injective}
use mathlib.Core.Bool.{false≢true}
use mathlib.Core.Path.{subst}
use autonomous_ai_software_e.Model.{Job, JobStatus, Db, Payload, StageName, terminal, status_eq}
use autonomous_ai_software_e.Budget.Transfer.{Leak}
use autonomous_ai_software_e.Budget.{has_id, release}
use autonomous_ai_software_e.Repository.Statements.{add_event, status_of, done_stages}
use autonomous_ai_software_e.Repository.Queue.{
  claimable, start, claim, cancel_queued, flag_cancel, cancel_running, skip_stages, request_cancel,
  with_values, finish, abandon, reap,
}
use autonomous_ai_software_e.Repository.Requeue.{
  back_to_queue, clear_artifacts, rewind, requeue, run_at_once, run_later, reset_for_retry,
  schedule_retry,
}
use autonomous_ai_software_e.Repository.Reservations.{
  Holds, Sound, Leaves, update-Sound, ending-Sound,
}
use autonomous_ai_software_e.Orchestrator.Outcomes.{
  Outcome, succeeds, fails, cancels, outcome_values,
}

-- A compare-and-set that leaves the budget alone, and settles what it ends.
pub cas-Sound :
    {L : Leak} (guard : Job → Bool) (f : Job → Job) (k : String) (db : Db) {jobs : List Job}
    → cas (has_id k) guard f db.jobs ≡ some jobs
    → Leaves f
    → ((j : Job) → guard j ≡ true → Holds j → Holds (f j))
    → Sound L db
    → Sound L (record db { jobs = jobs })
cas-Sound guard f k db e l keeps v =
    let (r, found, passed) = cas-find (has_id k) guard f db.jobs e in
    rw (cas-update (has_id k) guard f db.jobs e) (
      update-Sound f k db l (λ j q h. keeps j (rw (some-injective j r (sym q ∙ found)) passed) h) v)

cas_ending-Sound :
    {L : Leak} (guard : Job → Bool) (f : Job → Job) (k : String) (now : ℕ) (db : Db)
    {jobs : List Job}
    → cas (has_id k) guard f db.jobs ≡ some jobs
    → Leaves f
    → Sound L db
    → Sound L (release k now (record db { jobs = jobs }))
cas_ending-Sound guard f k now db e l v =
    rw (cas-update (has_id k) guard f db.jobs e) (ending-Sound f k now db l v)

pub add_event-Sound :
    {L : Leak} (k kind : String) (payload : Payload) (now : ℕ) (db : Db)
    → Sound L db
    → Sound L (add_event k kind payload now db)
unfolding add_event
add_event-Sound k kind payload now db v = record { conserved = v.conserved; holds = v.holds }

pub claim-Sound :
    {L : Leak} (worker : String) (now : ℕ) (k : String) (db : Db)
    → Sound L db
    → Sound L (claim worker now k db).0
unfolding claim terminal
claim-Sound worker now k db v =
    elim (Option-cases (cas (has_id k) (claimable now) (start worker now) db.jobs)) [
      | inl e ↦ rw (e, claim) v
      | inr (jobs, e) ↦
          rw (e, claim)
            (cas-Sound (claimable now) (start worker now) k db e
              (record {
                id = λ j. refl;
                submission = λ j. refl;
                period = λ j. refl;
                reserved = λ j. refl;
              })
              (λ j g h. record { settled = λ t. cc; backed = h.backed }) v)
    ]

cancel_running-Sound :
    {L : Leak} (k : String) (now : ℕ) (db : Db) → Sound L db → Sound L (cancel_running k now db).0
unfolding cancel_running
cancel_running-Sound k now db v =
    elim (Option-cases (
      cas (has_id k) (λ j. status_eq j.status JobStatus.running && not j.cancel_requested)
        (flag_cancel now) db.jobs)) [
          | inl e ↦ elim (Option-cases (status_of k db)) [
            | inl n ↦ rw (e, cancel_running) (rw n v)
            | inr (s, n) ↦ rw (e, cancel_running) (rw n v)
          ]
          | inr (jobs, e) ↦
              rw (e, cancel_running)
                (add_event-Sound k "job.cancel_requested" [] now _ (
                  cas-Sound (λ j. status_eq j.status JobStatus.running && not j.cancel_requested)
                    (flag_cancel now) k db e
                    (record {
                      id = λ j. refl;
                      submission = λ j. refl;
                      period = λ j. refl;
                      reserved = λ j. refl;
                    })
                    (λ j g h. record { settled = h.settled; backed = h.backed }) v))
        ]

pub request_cancel-Sound :
    {L : Leak} (k : String) (now : ℕ) (db : Db) → Sound L db → Sound L (request_cancel k now db).0
unfolding request_cancel
request_cancel-Sound {L} k now db v =
    elim (Option-cases
      (cas (has_id k) (λ j. status_eq j.status JobStatus.queued) (cancel_queued now) db.jobs)) [
        | inl e ↦ rw (e, request_cancel) (cancel_running-Sound k now db v)
        | inr (jobs, e) ↦
            rw (e, request_cancel)
              (add_event-Sound k "job.cancelled" [] now _ (
                skip_stages-Sound k _ (
                  cas_ending-Sound (λ j. status_eq j.status JobStatus.queued) (cancel_queued now) k
                    now db e
                    (record {
                      id = λ j. refl;
                      submission = λ j. refl;
                      period = λ j. refl;
                      reserved = λ j. refl;
                    })
                    v)))
      ]
  where
    skip_stages-Sound : (k : String) (d : Db) → Sound L d → Sound L (skip_stages k d)
    skip_stages-Sound k d v = record { conserved = v.conserved; holds = v.holds }

pub with_values-Leaves : (now : ℕ) (o : Outcome) → Leaves (with_values (outcome_values now o) now)
unfolding with_values outcome_values
with_values-Leaves now (succeeds p) = record {
  id = λ j. refl;
  submission = λ j. refl;
  period = λ j. refl;
  reserved = λ j. refl;
}
with_values-Leaves now (fails e c) = record {
  id = λ j. refl;
  submission = λ j. refl;
  period = λ j. refl;
  reserved = λ j. refl;
}
with_values-Leaves now cancels = record {
  id = λ j. refl;
  submission = λ j. refl;
  period = λ j. refl;
  reserved = λ j. refl;
}

pub finish-Sound :
    {L : Leak} (k kind : String) (payload : Payload) (o : Outcome) (now : ℕ) (db : Db)
    → Sound L db
    → Sound L (finish k kind payload (outcome_values now o) now db).0
unfolding finish
finish-Sound k kind payload o now db v =
    elim (Option-cases (
      cas (has_id k) (λ j. status_eq j.status JobStatus.running)
        (with_values (outcome_values now o) now) db.jobs)) [
          | inl e ↦ rw (e, finish) v
          | inr (jobs, e) ↦
              rw (e, finish)
                (add_event-Sound k kind payload now _ (
                  cas_ending-Sound (λ j. status_eq j.status JobStatus.running) _ k now db e
                    (with_values-Leaves now o) v))
        ]

pub reap-Sound : {L : Leak} (k : String) (now : ℕ) (db : Db) → Sound L db → Sound L (reap k now db)
unfolding reap
reap-Sound k now db v =
    add_event-Sound k _ _ now _
      (elim (Option-cases
        (cas (has_id k) (λ j. status_eq j.status JobStatus.running) (abandon now) db.jobs)) [
          | inl e ↦ rw e v
          | inr (jobs, e) ↦ rw e (
              cas_ending-Sound (λ j. status_eq j.status JobStatus.running) (abandon now) k now db e
                (record {
                  id = λ j. refl;
                  submission = λ j. refl;
                  period = λ j. refl;
                  reserved = λ j. refl;
                })
                v)
        ])

-- The rest of a requeue is not about the budget.
pub rewind-Sound :
    {L : Leak} (k : String) (now : ℕ) (db : Db) → Sound L db → Sound L (rewind k now db)
unfolding rewind
rewind-Sound k now db v =
    let w =
      update-Sound (clear_artifacts (done_stages k db.stages) now) k db
        (record {
          id = λ j. refl;
          submission = λ j. refl;
          period = λ j. refl;
          reserved = λ j. refl;
        })
        (λ j e h. record { settled = h.settled; backed = h.backed }) v in
    record { conserved = w.conserved; holds = w.holds }

requeue_running-Sound :
    {L : Leak} (values : Job → Job) (k : String) (now : ℕ) (db : Db) {db' : Db}
    → Leaves (back_to_queue values now)
    → ((j : Job) → (back_to_queue values now j).status ≡ JobStatus.queued)
    → requeue k JobStatus.running values now db ≡ some db'
    → Sound L db
    → Sound L db'
unfolding requeue terminal
requeue_running-Sound values k now db {db'} l q h v =
    elim (Option-cases (
      cas (has_id k) (λ j. status_eq j.status JobStatus.running) (back_to_queue values now)
        db.jobs)) [
          | inl e ↦ cc (rw (e, requeue) at h)
          | inr (jobs, e) ↦ subst (Sound _) (some-injective _ _ (rw (e, requeue) at h)) (
              rewind-Sound k now _ (
                cas-Sound (λ j. status_eq j.status JobStatus.running) (back_to_queue values now) k
                  db e l
                  (λ j g w. record {
                    settled = λ t. absurd (false≢true (rw (q j) at t));
                    backed = λ n. l.reserved j ∙ w.backed (sym (l.period j) ∙ n);
                  })
                  v))
        ]

pub reset_for_retry-Sound :
    {L : Leak} (k : String) (now : ℕ) (db : Db) → Sound L db → Sound L (reset_for_retry k now db).0
unfolding reset_for_retry
reset_for_retry-Sound k now db v =
    elim (Option-cases (requeue k JobStatus.running run_at_once now db)) [
      | inl e ↦ rw (e, reset_for_retry) v
      | inr (db', e) ↦
          rw (e, reset_for_retry)
            (add_event-Sound k "job.requeued" [] now db' (
              requeue_running-Sound run_at_once k now db
                (record {
                  id = λ j. refl;
                  submission = λ j. refl;
                  period = λ j. refl;
                  reserved = λ j. refl;
                })
                (λ j. refl) e v))
    ]

pub schedule_retry-Sound :
    {L : Leak} (k : String) (stage : StageName) (delay : ℕ) (error : String) (code : Option String)
    (now : ℕ) (db : Db)
    → Sound L db
    → Sound L (schedule_retry k stage delay error code now db).0
unfolding schedule_retry
schedule_retry-Sound k stage delay error code now db v =
    elim (Option-cases (requeue k JobStatus.running (run_later (now + delay)) now db)) [
      | inl e ↦ rw (e, schedule_retry) v
      | inr (db', e) ↦
          rw (e, schedule_retry)
            (add_event-Sound k _ _ now db' (
              requeue_running-Sound (run_later (now + delay)) k now db
                (record {
                  id = λ j. refl;
                  submission = λ j. refl;
                  period = λ j. refl;
                  reserved = λ j. refl;
                })
                (λ j. refl) e v))
    ]
