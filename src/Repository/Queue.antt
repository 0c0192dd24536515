-- ===== src/Repository/Queue.antt =====
-- src/autoswe/repository.py: the compare-and-set moves of a job's status, but for those that requeue it:
-- `claim_next`, `request_cancel`, `finish` and `fail_stale`.
use Prim.Native.String.{compare}
use Prim.Native.Nat.{Ordering}
use autonomous_ai_software_e.Prelude.{
  ℕ, ◌-◌, String, Bool, true, false, not, ◌&&◌, Option, none, some, List, [], ◌∷◌, ltb, leb, ◌==◌,
  if◌then◌else◌, cas, update_all,
}
use autonomous_ai_software_e.Model.{JobStatus, Job, Db, Payload, text, status_eq}
use autonomous_ai_software_e.Budget.{has_id, release}
use autonomous_ai_software_e.Repository.Statements.{
  add_event, status_of, of_job, skip, skip_pending_stages,
}

unfoldable pub is_due : ℕ → Option ℕ → Bool
is_due now none = true
is_due now (some t) = leb t now

-- `status = 'queued' AND due`
unfoldable pub claimable : ℕ → Job → Bool
unfolding is_due status_eq
claimable now j = status_eq j.status JobStatus.queued && is_due now j.run_after

-- The order of (created_at, id).
unfoldable pub before : Job → Job → Bool
before a b =
    if a.created_at == b.created_at
    then elim (compare a.id b.id) [ Ordering.lt ↦ true | _ ↦ false ]
    else ltb a.created_at b.created_at

unfoldable pub older : Job → Option Job → Job
unfolding before
older j none = j
older j (some k) = if before k j then k else j

-- `SELECT ... WHERE status = 'queued' AND due ORDER BY created_at, id LIMIT 1`
unfoldable pub candidate : ℕ → List Job → Option Job
unfolding claimable older
candidate now [] = none
candidate now (j ∷ js) =
    let rest = candidate now js in if claimable now j then some (older j rest) else rest

unfoldable pub start : String → ℕ → Job → Job
start worker now j = record j {
  status = JobStatus.running;
  worker_id = some worker;
  started_at = some now;
  heartbeat_at = some now;
  updated_at = now;
}

-- The UPDATE of `claim_next`: the candidate may have been read from an older state.
unfoldable pub claim : String → ℕ → String → Db → Db × Option String
unfolding claimable start
claim worker now k db = elim (cas (has_id k) (claimable now) (start worker now) db.jobs) [
  | none ↦ (db, none)
  | some jobs ↦ (record db { jobs = jobs }, some k)
]

-- Between the SELECT and the UPDATE other processes write `between`.
unfoldable pub claim_next : String → ℕ → (Db → Db) → Db → Db × Option String
unfolding candidate claim
claim_next worker now between db = elim (candidate now db.jobs) [
  | none ↦ (db, none)
  | some j ↦ claim worker now j.id (between db)
]

pub data CancelOutcome : Type 0 where
  was_cancelled : CancelOutcome
  cancel_flagged : CancelOutcome

unfoldable pub cancel_queued : ℕ → Job → Job
cancel_queued now j = record j {
  status = JobStatus.cancelled;
  finished_at = some now;
  updated_at = now;
}

unfoldable pub flag_cancel : ℕ → Job → Job
flag_cancel now j = record j { cancel_requested = true; updated_at = now }

-- The second UPDATE, and what the status says when neither matched.
unfoldable pub cancel_running : String → ℕ → Db → Db × Option CancelOutcome
unfolding flag_cancel status_of
cancel_running k now db =
    elim (cas (has_id k) (λ j. status_eq j.status JobStatus.running && not j.cancel_requested)
      (flag_cancel now) db.jobs) [
        | some jobs ↦ (
          add_event k "job.cancel_requested" [] now (record db { jobs = jobs }),
          some cancel_flagged,
        )
        | none ↦ elim (status_of k db) [
          | none ↦ (db, none)
          | some status ↦
              (db, if status_eq status JobStatus.running then some cancel_flagged else none)
        ]
      ]

unfoldable pub skip_stages : String → Db → Db
unfolding skip
skip_stages k db = record db { stages = update_all (of_job k) skip db.stages }

unfoldable pub request_cancel : String → ℕ → Db → Db × Option CancelOutcome
unfolding cancel_queued cancel_running skip_stages status_eq
request_cancel k now db =
    elim (cas (has_id k) (λ j. status_eq j.status JobStatus.queued) (cancel_queued now) db.jobs) [
      | some jobs ↦ (
        add_event k "job.cancelled" [] now
            (skip_stages k (release k now (record db { jobs = jobs }))),
        some was_cancelled,
      )
      | none ↦ cancel_running k now db
    ]

unfoldable pub with_values : (Job → Job) → ℕ → Job → Job
with_values values now j = values (record j { updated_at = now })

-- `values` are the columns that the caller sets.
unfoldable pub finish : String → String → Payload → (Job → Job) → ℕ → Db → Db × Bool
unfolding with_values status_eq
finish k kind payload values now db =
    elim (cas (has_id k) (λ j. status_eq j.status JobStatus.running) (with_values values now)
      db.jobs) [
        | none ↦ (db, false)
        | some jobs ↦
            (add_event k kind payload now (release k now (record db { jobs = jobs })), true)
      ]

abbrev pub heartbeat_lost : String
heartbeat_lost = "Worker heartbeat lost; job abandoned."

unfoldable pub abandon : ℕ → Job → Job
abandon now j = record j {
  status = JobStatus.failed;
  error = some heartbeat_lost;
  finished_at = some now;
  updated_at = now;
}

unfoldable pub last_sign : Job → ℕ
last_sign j = elim j.heartbeat_at [
  | some t ↦ t
  | none ↦ elim j.started_at [ some t ↦ t | none ↦ j.created_at ]
]

-- The SELECT of `fail_stale`.
unfoldable pub stale_ids : ℕ → List Job → List String
unfolding last_sign status_eq
stale_ids cutoff [] = []
stale_ids cutoff (j ∷ js) =
    let rest = stale_ids cutoff js in
    if status_eq j.status JobStatus.running && ltb (last_sign j) cutoff then j.id ∷ rest else rest

-- The loop's body: the UPDATE may find that the job has left `running`; the event is added anyway.
unfoldable pub reap : String → ℕ → Db → Db
unfolding abandon status_eq
reap k now db =
    add_event k "job.failed" (("error", text heartbeat_lost) ∷ []) now
      (elim (cas (has_id k) (λ j. status_eq j.status JobStatus.running) (abandon now) db.jobs) [
        | none ↦ db
        | some jobs ↦ release k now (record db { jobs = jobs })
      ])

unfoldable pub reap_all : List String → ℕ → Db → Db
unfolding reap
reap_all [] now db = db
reap_all (k ∷ ks) now db = reap_all ks now (reap k now db)

unfoldable pub skip_all : List String → Db → Db
unfolding skip_pending_stages
skip_all [] db = db
skip_all (k ∷ ks) db = skip_all ks (skip_pending_stages k db)

-- `- ` stops at the epoch, before which there is no sign of life either.
unfoldable pub fail_stale : ℕ → ℕ → Db → Db × List String
unfolding stale_ids reap_all skip_all
fail_stale older_than now db =
    let stale = stale_ids (now - older_than) db.jobs in
    (skip_all stale (reap_all stale now db), stale)
