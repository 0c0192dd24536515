-- ===== src/Orchestrator/Settles.antt =====
-- How a run of src/autoswe/pipeline/orchestrator.py leaves its job: not `running`.
use autonomous_ai_software_e.Prelude.{
  ℕ, ◌≡◌, refl, ◌∙◌, inl, inr, String, ◌&&◌, ltb, Option, none, some, List, [], ◌∷◌, find, cas,
  Option-cases, Bool-cases, find-passes, if_cases, eq_iff,
}
use autonomous_ai_software_e.Model.{Job, StageName, Db, TokenUsage, stage_eq}
use autonomous_ai_software_e.Budget.{has_id, release}
use autonomous_ai_software_e.Repository.Statements.{
  status_of, add_event, cancel_requested, contains,
}
use autonomous_ai_software_e.Repository.Queue.{finish, with_values}
use autonomous_ai_software_e.Repository.Races.{
  status_of-release, status_of-cas, outcome_values-id, outcome_values-status, outcome_not_running,
  outcome_status,
}
use autonomous_ai_software_e.Orchestrator.Outcomes.{Outcome, outcome_values}
use autonomous_ai_software_e.Orchestrator.Pipeline.{
  PipelineState, StageResult, Agent, Ran, Attempt, answers, llm_error, crashes, is_cancelled,
  named_files, error_message,
}
use autonomous_ai_software_e.Orchestrator.Ends.{
  Flow, goes_on, returns, raises, interrupted, finish_run, succeed, fail, cancelled,
  handle_interrupt, requeued_or_fail, retry_later, persist_stage,
}
use autonomous_ai_software_e.Orchestrator.Run.{
  known_stack, Settings, begin_stage, end_stage, after_stage, Left, run_stages, run_job, try_job,
  settle, run,
}
use autonomous_ai_software_e.Repository.Leaving.{
  Settled, is_running, cas-Settled, status-Settled, reset-Settled, schedule_retry-Settled,
}

finish_run-Settled :
    (k : String) (o : Outcome) (now : ℕ) (db : Db) → Settled k (finish_run k o now db)
unfolding finish_run finish add_event status_of
finish_run-Settled k o now db =
    elim (Option-cases
      (cas (has_id k) is_running (with_values (outcome_values now o) now) db.jobs)) [
        | inl e ↦
            rw (e, finish_run, finish) (cas-Settled k (with_values (outcome_values now o) now) db e)
        | inr (jobs, e) ↦
            rw (e, finish_run, finish)
              (status-Settled k (release k now (record db { jobs = jobs })) (outcome_status o)
                (status_of-release k now _
                  ∙ status_of-cas is_running _ k db (outcome_status o) e (outcome_values-id now o)
                      (outcome_values-status now o))
                (outcome_not_running o))
      ]

handle_interrupt-Settled : (k : String) (now : ℕ) (db : Db) → Settled k (handle_interrupt k now db)
unfolding handle_interrupt cancelled
handle_interrupt-Settled k now db = elim (Bool-cases (cancel_requested k db)) [
  | inl y ↦ rw (y, handle_interrupt) (finish_run-Settled k _ now _)
  | inr n ↦ rw (n, handle_interrupt) (reset-Settled k now db)
]

fail-Settled :
    (k : String) (stage : Option StageName) (message : String) (code : Option String) (now : ℕ)
    (db : Db)
    → Settled k (fail k stage message code now db)
unfolding fail
fail-Settled k none message code now db = finish_run-Settled k _ now _
fail-Settled k (some stage) message code now db = finish_run-Settled k _ now _

-- A stage that ends its run has settled the job; a stage that goes on, raises or is interrupted leaves
-- that to what comes after it.
abbrev Ended : String → Db × Flow → Type 0
Ended k (db, returns status) = Settled k db
Ended k (db, _) = Unit

requeued_or_fail-Ended :
    (k : String) (stage : StageName) (message : String) (code : Option String) (now : ℕ)
    (r : Db × Option ℕ)
    → ((n : ℕ) → r.1 ≡ some n → Settled k r.0)
    → Ended k (requeued_or_fail k stage message code now r)
unfolding requeued_or_fail
requeued_or_fail-Ended k stage message code now (db, some n) h = h n refl
requeued_or_fail-Ended k stage message code now (db, none) h =
    fail-Settled k (some stage) message code now db

persist-Ended :
    (k : String) (stage : StageName) (result : StageResult) (before : TokenUsage) (ran : Ran)
    → Ended k (persist_stage k stage result before ran)
unfolding persist_stage
persist-Ended k stage result before ran =
    elim (Option-cases (named_files result.files ran.state.files)) [
      | inl e ↦ rw (e, persist_stage) tt
      | inr (files, e) ↦ rw (e, persist_stage) tt
    ]

module _ (o : Settings) where
  end_stage-Ended :
      (k : String) (stage : StageName) (before : TokenUsage) (retries : ℕ) (ran : Ran)
      (attempt : Attempt)
      → Ended k (end_stage o k stage before retries ran attempt)
  unfolding end_stage retry_later
  end_stage-Ended k stage before retries ran (answers result) =
      persist-Ended k stage result before ran
  end_stage-Ended k stage before retries ran (llm_error e' retryable code) =
      if_cases (Ended k) (retryable && ltb retries o.transient_retries) _ _
        (λ y.
          requeued_or_fail-Ended k stage _ code ran.now _
            (λ n e. schedule_retry-Settled k stage _ (error_message stage e') code ran.now _ e))
        (λ n. fail-Settled k (some stage) _ code ran.now _)
  end_stage-Ended k stage before retries ran (crashes name) =
      fail-Settled k (some stage) _ none ran.now _
  end_stage-Ended k stage before retries ran is_cancelled = tt

  -- A run that has left its stages, by a return or by what `_run` catches.
  OnReturn : String → Db → Flow → Type 0
  OnReturn k db (returns status) = Settled k db
  OnReturn k db goes_on = ⊥
  OnReturn k db _ = Unit

  after-OnReturn :
      (k : String) (now : ℕ) (go : Db → Left o) (r : Db × Flow)
      → Ended k r
      → ((db : Db) → OnReturn k (go db).db (go db).flow)
      → OnReturn k (after_stage o now go r).db (after_stage o now go r).flow
  unfolding after_stage OnReturn
  after-OnReturn k now go (db, goes_on) e h = h db
  after-OnReturn k now go (db, returns status) e h = e
  after-OnReturn k now go (db, raises name) e h = tt
  after-OnReturn k now go (db, interrupted) e h = tt

  run_stages-OnReturn :
      (k : String) (agents : List Agent) (restored : List StageName) (retries : ℕ)
      (st : PipelineState) (total : TokenUsage) (now : ℕ) (db : Db)
      → OnReturn k
          (run_stages o k agents restored retries st total now db).db
          (run_stages o k agents restored retries st total now db).flow
  unfolding run_stages OnReturn succeed cancelled
  run_stages-OnReturn k [] restored retries st total now db = finish_run-Settled k _ now db
  run_stages-OnReturn k (agent ∷ rest) restored retries st total now db =
      elim (Bool-cases (contains stage_eq restored agent.stage)) [
        | inl y ↦ rw (y, run_stages) (run_stages-OnReturn k rest restored retries st total now db)
        | inr n ↦ elim (Bool-cases (cancel_requested k db)) [
          | inl y ↦ rw (n, run_stages) (rw y (finish_run-Settled k _ now _))
          | inr q ↦
              rw (n, run_stages)
                (rw q (
                  let ran = agent.run st total now (begin_stage o k agent.stage now db) in
                  after-OnReturn k ran.now
                    (run_stages o k rest restored retries ran.state ran.total ran.now)
                    (end_stage o k agent.stage total retries ran ran.attempt)
                    (end_stage-Ended k agent.stage total retries ran ran.attempt)
                    (λ d.
                      run_stages-OnReturn k rest restored retries ran.state ran.total ran.now d)))
        ]
      ]

  settle-Settled :
      (k : String) (now : ℕ) (db : Db) (flow : Flow)
      → OnReturn k db flow
      → Settled k (settle o k now db flow).0
  unfolding settle OnReturn
  settle-Settled k now db goes_on h = absurd h
  settle-Settled k now db (returns status) h = h
  settle-Settled k now db (raises name) h = fail-Settled k none _ none now db
  settle-Settled k now db interrupted h = handle_interrupt-Settled k now db

  try_job-OnReturn :
      (job : Job) (now : ℕ) (db : Db)
      → OnReturn job.id (try_job o job now db).db (try_job o job now db).flow
  unfolding try_job run_job OnReturn
  try_job-OnReturn job now db = elim (Option-cases (o.registry job.provider)) [
    | inl e ↦ rw (e, try_job) tt
    | inr (llm, e) ↦ elim (Bool-cases (known_stack job.submission.stack)) [
      | inl y ↦ rw (e, try_job) (rw y (run_stages-OnReturn job.id o.agents _ job.retries _ _ now _))
      | inr n ↦ rw (e, try_job) (rw n tt)
    ]
  ]

  -- Whatever the agents do, whatever they and other processes write to the database while they run, and
  -- however they end, with an answer, an error of the provider, a crash or the cancellation of the task:
  -- when the run of a job is over, the job is not left in the status running.
  pub run-Settled : (k : String) (now : ℕ) (db : Db) → Settled k (run o k now db).0
  unfolding run status_of
  run-Settled k now db = elim (Option-cases (find (has_id k) db.jobs)) [
    | inl e ↦ rw (e, run) (λ h. cc (rw (e, status_of) at h))
    | inr (job, e) ↦
        rw (e, run)
          (let left = try_job o job now db in
            settle-Settled k left.now left.db left.flow (
              rw (← (eq_iff job.id k).0 (find-passes (has_id k) db.jobs e))
                (try_job-OnReturn job now db)))
  ]
