-- ===== src/History/Log/Steps.antt =====
-- Every step of the history but a deletion writes at most one event, with the next number.
use autonomous_ai_software_e.Prelude.{
  ℕ, ◌+◌, ◌≡◌, refl, ◌∙◌, inl, inr, ◌⊎◌, String, not, ◌&&◌, Option, none, some, List, [], ◌∷◌, ltb,
  cas, Bool-cases, Option-cases,
}
use autonomous_ai_software_e.Model.{
  JobStatus, StageName, Job, Payload, Submission, Db, publishing, status_eq,
}
use autonomous_ai_software_e.Budget.{
  BudgetGuard, has_id, try_reserve, extend, record_usage, under_limit, top_up, before_call,
  after_call, reservation_for,
}
use autonomous_ai_software_e.History.{
  Step, submits, cancels, retries, deletes, claims, progresses, persists, beats, finishes,
  interrupts, postpones, reaps, emits, skips, stages, stores, discards, publishes, published,
  tops_up, spends,
}
use autonomous_ai_software_e.Repository.Statements.{
  GeneratedFile, delete, status_of, update_job, heartbeat, update_stage, skip_pending_stages,
  upsert_files, discard_files, claim_publication, record_publication, set_publication, is_none,
  get_owned,
}
use autonomous_ai_software_e.Repository.Submit.{
  Reservation, reserve_for, collides, insert_job, create,
}
use autonomous_ai_software_e.Repository.Queue.{
  claimable, start, claim, cancel_queued, flag_cancel, cancel_running, skip_stages, request_cancel,
  with_values, finish, abandon, reap,
}
use autonomous_ai_software_e.Repository.Requeue.{
  requeue, run_at_once, run_later, reset_for_retry, schedule_retry, fresh_attempt, reserve_again,
  retry_failed,
}
use autonomous_ai_software_e.History.Log.{
  Logged, quiet, add_event-Logged, log-release, log-requeue, log-reserve_for, log-reserve_again,
  log-try_reserve,
}

create-Logged :
    (id : String) (sub : Submission) (r : Option Reservation) (now : ℕ) (db : Db)
    → Logged db (create id sub r now db).0
unfolding create insert_job
create-Logged id sub r now db = elim (Option-cases (reserve_for id sub r now db)) [
  | inl e ↦ rw (e, create) (quiet refl)
  | inr ((job, d), e) ↦ elim (Bool-cases (collides job d.jobs)) [
    | inl y ↦ rw (e, create) (rw y (quiet refl))
    | inr n ↦
        rw (e, create)
          (rw n (add_event-Logged job.id _ _ now _ (log-reserve_for id sub r now db e)))
  ]
]

cancel_running-Logged : (k : String) (now : ℕ) (db : Db) → Logged db (cancel_running k now db).0
unfolding cancel_running
cancel_running-Logged k now db =
    elim (Option-cases (
      cas (has_id k) (λ j. status_eq j.status JobStatus.running && not j.cancel_requested)
        (flag_cancel now) db.jobs)) [
          | inl e ↦ elim (Option-cases (status_of k db)) [
            | inl n ↦ rw (e, cancel_running) (rw n (quiet refl))
            | inr (s, n) ↦ rw (e, cancel_running) (rw n (quiet refl))
          ]
          | inr (jobs, e) ↦ rw (e, cancel_running) (add_event-Logged k _ _ now _ refl)
        ]

request_cancel-Logged : (k : String) (now : ℕ) (db : Db) → Logged db (request_cancel k now db).0
unfolding request_cancel skip_stages
request_cancel-Logged k now db =
    elim (Option-cases
      (cas (has_id k) (λ j. status_eq j.status JobStatus.queued) (cancel_queued now) db.jobs)) [
        | inl e ↦ rw (e, request_cancel) (cancel_running-Logged k now db)
        | inr (jobs, e) ↦
            rw (e, request_cancel) (add_event-Logged k _ _ now _ (log-release k now _))
      ]

retry_failed-Logged :
    (k owner : String) (r : Option Reservation) (now : ℕ) (db : Db)
    → Logged db (retry_failed k owner r now db).0
unfolding retry_failed
retry_failed-Logged k owner r now db = elim (Option-cases (get_owned k owner db)) [
  | inl e ↦ rw (e, retry_failed) (quiet refl)
  | inr (j, e) ↦ elim (Option-cases (requeue k JobStatus.failed (fresh_attempt r) now db)) [
    | inl n ↦ rw (e, retry_failed) (rw n (quiet refl))
    | inr (d, q) ↦ elim (Option-cases (reserve_again owner r now d)) [
      | inl n ↦ rw (e, retry_failed) (rw q (rw n (quiet refl)))
      | inr (d', g) ↦
          rw (e, retry_failed)
            (rw q (
              rw g (
                add_event-Logged k _ _ now d' (
                  log-reserve_again owner r now d g ∙ log-requeue k _ (fresh_attempt r) now db q))))
    ]
  ]
]

claim-Logged :
    (worker : String) (now : ℕ) (k : String) (db : Db) → Logged db (claim worker now k db).0
unfolding claim
claim-Logged worker now k db =
    elim (Option-cases (cas (has_id k) (claimable now) (start worker now) db.jobs)) [
      | inl e ↦ rw (e, claim) (quiet refl)
      | inr (jobs, e) ↦ rw (e, claim) (quiet refl)
    ]

finish-Logged :
    (k kind : String) (payload : Payload) (values : Job → Job) (now : ℕ) (db : Db)
    → Logged db (finish k kind payload values now db).0
unfolding finish
finish-Logged k kind payload values now db =
    elim (Option-cases (
      cas (has_id k) (λ j. status_eq j.status JobStatus.running) (with_values values now)
        db.jobs)) [
          | inl e ↦ rw (e, finish) (quiet refl)
          | inr (jobs, e) ↦
              rw (e, finish) (add_event-Logged k kind payload now _ (log-release k now _))
        ]

reset_for_retry-Logged : (k : String) (now : ℕ) (db : Db) → Logged db (reset_for_retry k now db).0
unfolding reset_for_retry
reset_for_retry-Logged k now db =
    elim (Option-cases (requeue k JobStatus.running run_at_once now db)) [
      | inl e ↦ rw (e, reset_for_retry) (quiet refl)
      | inr (d, e) ↦
          rw (e, reset_for_retry)
            (add_event-Logged k _ _ now d (log-requeue k _ run_at_once now db e))
    ]

schedule_retry-Logged :
    (k : String) (stage : StageName) (delay : ℕ) (error : String) (code : Option String) (now : ℕ)
    (db : Db)
    → Logged db (schedule_retry k stage delay error code now db).0
unfolding schedule_retry
schedule_retry-Logged k stage delay error code now db =
    elim (Option-cases (requeue k JobStatus.running (run_later (now + delay)) now db)) [
      | inl e ↦ rw (e, schedule_retry) (quiet refl)
      | inr (d, e) ↦
          rw (e, schedule_retry)
            (add_event-Logged k _ _ now d (log-requeue k _ (run_later (now + delay)) now db e))
    ]

reap-Logged : (k : String) (now : ℕ) (db : Db) → Logged db (reap k now db)
unfolding reap
reap-Logged k now db =
    elim (Option-cases
      (cas (has_id k) (λ j. status_eq j.status JobStatus.running) (abandon now) db.jobs)) [
        | inl e ↦ rw (e, reap) (add_event-Logged k _ _ now db refl)
        | inr (jobs, e) ↦ rw (e, reap) (add_event-Logged k _ _ now _ (log-release k now _))
      ]

claim_publication-Logged :
    (k : String) (now : ℕ) (db : Db) → Logged db (claim_publication k now db).0
unfolding claim_publication
claim_publication-Logged k now db =
    elim (Option-cases (
      cas (has_id k) (λ j. status_eq j.status JobStatus.succeeded && is_none j.publication)
        (set_publication (some publishing) now) db.jobs)) [
          | inl e ↦ rw (e, claim_publication) (quiet refl)
          | inr (jobs, e) ↦ rw (e, claim_publication) (quiet refl)
        ]

upsert_files-Logged :
    (k : String) (files : List GeneratedFile) (stage : StageName) (db : Db)
    → Logged db (upsert_files k files stage db)
unfolding upsert_files
upsert_files-Logged k [] stage db = quiet refl
upsert_files-Logged k (f ∷ fs) stage db = quiet refl

under_limit-Logged :
    (g : BudgetGuard) (o : Option ℕ) (now : ℕ) (db : Db) → Logged db (under_limit g o now db).1
unfolding under_limit top_up extend
under_limit-Logged g none now db = quiet refl
under_limit-Logged g (some l) now db = elim (Bool-cases (ltb 0 g.reserved)) [
  | inl y ↦ rw (y, under_limit) (quiet refl)
  | inr n ↦
      let amount = reservation_for g.policy g.limit in
      elim (Option-cases (try_reserve g.principal g.period_start amount l now db)) [
        | inl e ↦ rw (n, under_limit) (rw (e, extend) (quiet refl))
        | inr (d, e) ↦
            rw (n, under_limit)
              (rw (e, extend)
                (quiet (log-try_reserve g.principal g.period_start amount l now db e)))
      ]
]

-- A deletion is told apart: it takes the job's events away.
pub Step-Logged : {d e : Db} → Step d e → Logged d e ⊎ ((k : String) × (e ≡ delete k d))
unfolding update_job heartbeat record_publication skip_pending_stages update_stage discard_files
    before_call after_call record_usage
Step-Logged {d} (submits id sub r now) = inl (create-Logged id sub r now d)
Step-Logged {d} (cancels k now) = inl (request_cancel-Logged k now d)
Step-Logged {d} (retries k owner r now) = inl (retry_failed-Logged k owner r now d)
Step-Logged {d} (deletes k) = inr (k, refl)
Step-Logged {d} (claims worker now k) = inl (claim-Logged worker now k d)
Step-Logged (progresses k stage now) = inl (quiet refl)
Step-Logged (persists k total made now) = inl (quiet refl)
Step-Logged (beats k now) = inl (quiet refl)
Step-Logged {d} (finishes k o now) = inl (finish-Logged k _ _ _ now d)
Step-Logged {d} (interrupts k now) = inl (reset_for_retry-Logged k now d)
Step-Logged {d} (postpones k stage delay error code now) =
    inl (schedule_retry-Logged k stage delay error code now d)
Step-Logged {d} (reaps k now) = inl (reap-Logged k now d)
Step-Logged {d} (emits k kind payload now) = inl (add_event-Logged k kind payload now d refl)
Step-Logged (skips k) = inl (quiet refl)
Step-Logged (stages k stage values) = inl (quiet refl)
Step-Logged {d} (stores k files stage) = inl (upsert_files-Logged k files stage d)
Step-Logged (discards k keep) = inl (quiet refl)
Step-Logged {d} (publishes k now) = inl (claim_publication-Logged k now d)
Step-Logged {d} (published k value kind payload now) =
    inl (add_event-Logged k kind payload now _ refl)
Step-Logged {d} (tops_up g now sync alive) = inl (under_limit-Logged g g.limit now d)
Step-Logged (spends g usage now sync) = inl (quiet refl)
