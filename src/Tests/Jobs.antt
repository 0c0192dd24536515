-- ===== src/Tests/Jobs.antt =====
-- One job of principal "ann" over submission, claim, cancellation, failure and retry.
use autonomous_ai_software_e.Prelude.{
  ◌+◌, ◌≡◌, ◌≢◌, refl, true, false, none, some, [], find, cas, update, sym, ◌∙◌,
}
use autonomous_ai_software_e.Model.{JobStatus, Submission, Job, Db, empty_db, terminal}
use autonomous_ai_software_e.Budget.{has_id, release, clear_reserved, try_reserve, ensure}
use autonomous_ai_software_e.Budget.Rows.{reserved_in, held_by}
use autonomous_ai_software_e.Repository.Statements.{delete, claim_publication, add_event}
use autonomous_ai_software_e.Repository.Submit.{Reservation, new_job, create}
use autonomous_ai_software_e.Repository.Queue.{
  claim, cancel_queued, request_cancel, was_cancelled, finish,
}
use autonomous_ai_software_e.Repository.Requeue.{
  requeue, run_at_once, retried, not_retried, retry_failed,
}
use autonomous_ai_software_e.Orchestrator.Outcomes.{succeeds, outcome_values}
use autonomous_ai_software_e.History.{submits, cancels, deletes, claims, Reach, here, next}
use autonomous_ai_software_e.History.Reservations.{
  leaked, reserved-eq-held, leaked-Guarded, terminal-holds_nothing,
}
use autonomous_ai_software_e.History.Lifecycle.{Move, status-Move, status_in}
use autonomous_ai_software_e.Repository.Races.{cancel-claim, claim_publication_once}
use autonomous_ai_software_e.Repository.Atomic.{Unstored, create-atomic, retry_failed-atomic}
use autonomous_ai_software_e.Repository.Checkpoints.{Checkpoint, requeue-Checkpoint}

abbrev pub order : Submission
order = record {
  owner = "ann";
  title = "library";
  spec = "a library";
  provider = "anthropic";
  model = "m";
  request_id = none;
  trace_context = none;
  stack = "python";
  idempotency_key = none;
  request_hash = none;
}

abbrev ten : Reservation
ten = record { period_start = 0; amount = 10; limit = some 100 }

abbrev pub submitted : Db
submitted = (create "a" order (some ten) 5 empty_db).0

abbrev pub cancelled_db : Db
cancelled_db = (request_cancel "a" 7 submitted).0

abbrev pub running_db : Db
running_db = (claim "w" 6 "a" submitted).0

abbrev succeeded_db : Db
succeeded_db = (finish "a" "job.succeeded" [] (outcome_values 9 (succeeds [])) 9 running_db).0

abbrev pub after_submission : Reach empty_db submitted
after_submission = next here (submits "a" order (some ten) 5)

abbrev after_cancellation : Reach empty_db cancelled_db
after_cancellation = next after_submission (cancels "a" 7)

reserved-eq-held_example :
    reserved_in "ann" 0 submitted.usage
    ≡ held_by "ann" 0 submitted.jobs + leaked after_submission "ann" 0
reserved-eq-held_example = reserved-eq-held after_submission "ann" 0

-- The submission has reserved its ten tokens, so the equation above is not that of two zeros.
ten_reserved : reserved_in "ann" 0 submitted.usage ≡ 10
unfolding create ensure try_reserve find cas
ten_reserved = refl

-- The job is deleted while it waits, and its ten tokens stay in the ledger.
abbrev after_deletion : Reach empty_db (delete "a" submitted)
after_deletion = next after_submission (deletes "a")

ten_leaked : leaked after_deletion "ann" 0 ≡ 10
unfolding create ensure try_reserve find cas
ten_leaked = refl

leaked-Guarded_example : leaked after_cancellation "ann" 0 ≡ 0
leaked-Guarded_example = leaked-Guarded after_cancellation "ann" 0 ((tt, tt), tt)

abbrev ended_job : Job
ended_job = clear_reserved 7 (cancel_queued 7 (new_job "a" order (some 0) 10 5))

ended_there : find (has_id "a") cancelled_db.jobs ≡ some ended_job
unfolding create request_cancel ensure try_reserve find release add_event cas update
ended_there = refl

terminal-holds_nothing_example : ended_job.tokens_reserved ≡ 0
unfolding terminal cancel_queued clear_reserved
terminal-holds_nothing_example = terminal-holds_nothing "a" after_cancellation ended_there refl

status-Move_example :
    Move
      (running_db ≡ delete "a" submitted)
      (status_in "a" submitted.jobs)
      (status_in "a" running_db.jobs)
status-Move_example = status-Move "a" after_submission (claims "w" 6 "a")

cancel_won : request_cancel "a" 7 submitted ≡ (cancelled_db, some was_cancelled)
unfolding create request_cancel ensure try_reserve find add_event cas
cancel_won = refl

cancel-claim_example : claim "w" 8 "a" cancelled_db ≡ (cancelled_db, none)
cancel-claim_example = cancel-claim "w" 7 8 "a" submitted cancel_won

abbrev publishing_db : Db
publishing_db = (claim_publication "a" 20 succeeded_db).0

publication_won : claim_publication "a" 20 succeeded_db ≡ (publishing_db, true)
unfolding create claim finish claim_publication ensure try_reserve find release add_event
    outcome_values cas update
publication_won = refl

claim_publication_once_example : claim_publication "a" 21 publishing_db ≡ (publishing_db, false)
claim_publication_once_example = claim_publication_once 20 21 "a" succeeded_db publication_won

-- A second submission of 95 tokens does not fit beside the ten under the limit of 100.
abbrev too_much : Reservation
too_much = record { period_start = 0; amount = 95; limit = some 100 }

create-atomic_example : Unstored submitted (create "b" order (some too_much) 8 submitted)
create-atomic_example = create-atomic "b" order (some too_much) 8 submitted

refused : (retry_failed "a" "ann" (some ten) 8 submitted).1 ≡ not_retried
unfolding create retry_failed requeue ensure try_reserve find add_event cas
refused = refl

apart : not_retried ≢ retried
apart h = cc

not_failed : (retry_failed "a" "ann" (some ten) 8 submitted).1 ≢ retried
not_failed h = apart (sym refused ∙ h)

retry_failed-atomic_example : (retry_failed "a" "ann" (some ten) 8 submitted).0 ≡ submitted
retry_failed-atomic_example = retry_failed-atomic "a" "ann" (some ten) 8 submitted not_failed

abbrev rewound_db : Db
rewound_db = elim (requeue "a" JobStatus.running run_at_once 30 running_db) [
  | none ↦ running_db
  | some db ↦ db
]

requeued : requeue "a" JobStatus.running run_at_once 30 running_db ≡ some rewound_db
unfolding create claim requeue ensure try_reserve find add_event cas
requeued = refl

requeue-Checkpoint_example : Checkpoint "a" running_db rewound_db
requeue-Checkpoint_example =
    requeue-Checkpoint "a" JobStatus.running run_at_once 30 running_db requeued
