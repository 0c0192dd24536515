-- ===== src/Orchestrator/Refines.antt =====
-- A run of src/autoswe/pipeline/orchestrator.py as a sequence of the service's transactions (History).
use autonomous_ai_software_e.Prelude.{
  ℕ, inl, inr, String, ◌&&◌, ltb, Option, none, some, List, [], ◌∷◌, All, Option-cases, Bool-cases,
  if_cases, find,
}
use autonomous_ai_software_e.Model.{Job, StageName, Db, TokenUsage, stage_eq}
use autonomous_ai_software_e.Budget.{has_id}
use autonomous_ai_software_e.Repository.Statements.{contains, cancel_requested}
use autonomous_ai_software_e.Orchestrator.Outcomes.{Outcome, cancels}
use autonomous_ai_software_e.Orchestrator.Pipeline.{
  PipelineState, StageResult, Agent, Ran, Attempt, answers, llm_error, crashes, is_cancelled,
  named_files,
}
use autonomous_ai_software_e.Orchestrator.Ends.{
  Flow, goes_on, returns, raises, interrupted, finish_run, succeed, fail, cancelled,
  handle_interrupt, requeued_or_fail, retry_later, persist_usage, persist_stage,
}
use autonomous_ai_software_e.Orchestrator.Run.{
  Settings, begin_stage, end_stage, after_stage, Left, run_stages, restore, take_checkpoint,
  resumed, announce, Llm, run_job, try_job, known_stack, settle, run,
}
use autonomous_ai_software_e.History.{
  Kept, kept_step, finishes, skips, stages, emits, interrupts, postpones, progresses, persists,
  stores, discards,
}

module _ (base : Db) where
  finish_run-Kept :
      (k : String) (outcome : Outcome) (now : ℕ) {db : Db}
      → Kept base db
      → Kept base (finish_run k outcome now db)
  unfolding finish_run
  finish_run-Kept k outcome now r = kept_step r (finishes k outcome now) tt

  fail-Kept :
      (k : String) (stage : Option StageName) (message : String) (code : Option String) (now : ℕ)
      {db : Db}
      → Kept base db
      → Kept base (fail k stage message code now db)
  unfolding fail
  fail-Kept k none message code now r = finish_run-Kept k _ now (kept_step r (skips k) tt)
  fail-Kept k (some stage) message code now r = finish_run-Kept k _ now (
      kept_step (kept_step (kept_step r (stages k stage _) tt) (emits k "stage.failed" _ now) tt)
        (skips k) tt)

  cancelled-Kept : (k : String) (now : ℕ) {db : Db} → Kept base db → Kept base (cancelled k now db)
  unfolding cancelled
  cancelled-Kept k now r = finish_run-Kept k cancels now (kept_step r (skips k) tt)

  handle_interrupt-Kept :
      (k : String) (now : ℕ) {db : Db} → Kept base db → Kept base (handle_interrupt k now db)
  unfolding handle_interrupt
  handle_interrupt-Kept k now {db} r =
      if_cases (Kept base) (cancel_requested k db) _ _ (λ y. cancelled-Kept k now r)
        (λ n. kept_step r (interrupts k now) tt)

  requeued_or_fail-Kept :
      (k : String) (stage : StageName) (message : String) (code : Option String) (now : ℕ)
      (q : Db × Option ℕ)
      → Kept base q.0
      → Kept base (requeued_or_fail k stage message code now q).0
  unfolding requeued_or_fail
  requeued_or_fail-Kept k stage message code now (db, some n) r = r
  requeued_or_fail-Kept k stage message code now (db, none) r =
      fail-Kept k (some stage) message code now r

  persist_stage-Kept :
      (k : String) (stage : StageName) (result : StageResult) (before : TokenUsage) (ran : Ran)
      → Kept base ran.db
      → Kept base (persist_stage k stage result before ran).0
  unfolding persist_stage
  persist_stage-Kept k stage result before ran r =
      elim (Option-cases (named_files result.files ran.state.files)) [
        | inl e ↦ rw (e, persist_stage) r
        | inr (files, e) ↦
            rw (e, persist_stage)
              (kept_step
                (kept_step
                  (kept_step (kept_step r (stores k files stage) tt)
                    (persists k ran.total _ ran.now) tt)
                  (stages k stage _) tt)
                (emits k "stage.completed" _ ran.now) tt)
      ]

  -- An agent whose writes, and those of the processes beside it, are transactions of the service that
  -- delete only jobs that have ended.
  abbrev pub Transacts : Agent → Type 0
  Transacts agent =
      (st : PipelineState) (total : TokenUsage) (now : ℕ) (db : Db)
      → Kept base db
      → Kept base (agent.run st total now db).db

  module _ (o : Settings) where
    end_stage-Kept :
        (k : String) (stage : StageName) (before : TokenUsage) (retries : ℕ) (ran : Ran)
        (attempt : Attempt)
        → Kept base ran.db
        → Kept base (end_stage o k stage before retries ran attempt).0
    unfolding end_stage retry_later persist_usage
    end_stage-Kept k stage before retries ran (answers result) r =
        persist_stage-Kept k stage result before ran r
    end_stage-Kept k stage before retries ran (llm_error e retryable code) r =
        let paid = kept_step r (persists k ran.total (λ a. a) ran.now) tt in
        if_cases (λ (q : Db × Flow). Kept base q.0) (retryable && ltb retries o.transient_retries) _
          _
          (λ y. requeued_or_fail-Kept k stage _ code ran.now _ (
            kept_step (kept_step paid (emits k "stage.failed" _ ran.now) tt)
              (postpones k stage _ _ code ran.now) tt))
          (λ n. fail-Kept k (some stage) _ code ran.now paid)
    end_stage-Kept k stage before retries ran (crashes name) r =
        fail-Kept k (some stage) _ none ran.now
          (kept_step r (persists k ran.total (λ a. a) ran.now) tt)
    end_stage-Kept k stage before retries ran is_cancelled r = r

    after_stage-Kept :
        (now : ℕ) (go : Db → Left o) (q : Db × Flow)
        → Kept base q.0
        → ((db : Db) → Kept base db → Kept base (go db).db)
        → Kept base (after_stage o now go q).db
    unfolding after_stage
    after_stage-Kept now go (db, goes_on) r h = h db r
    after_stage-Kept now go (db, returns status) r h = r
    after_stage-Kept now go (db, raises name) r h = r
    after_stage-Kept now go (db, interrupted) r h = r

    begin_stage-Kept :
        (k : String) (stage : StageName) (now : ℕ) {db : Db}
        → Kept base db
        → Kept base (begin_stage o k stage now db)
    unfolding begin_stage
    begin_stage-Kept k stage now r =
        kept_step (kept_step (kept_step r (progresses k stage now) tt) (stages k stage _) tt)
          (emits k "stage.started" _ now) tt

    run_stages-Kept :
        (k : String) (agents : List Agent) (restored : List StageName) (retries : ℕ)
        (st : PipelineState) (total : TokenUsage) (now : ℕ) (db : Db)
        → All Transacts agents
        → Kept base db
        → Kept base (run_stages o k agents restored retries st total now db).db
    unfolding run_stages succeed
    run_stages-Kept k [] restored retries st total now db h r = finish_run-Kept k _ now r
    run_stages-Kept k (agent ∷ rest) restored retries st total now db h r =
        elim (Bool-cases (contains stage_eq restored agent.stage)) [
          | inl y ↦
              rw (y, run_stages) (run_stages-Kept k rest restored retries st total now db h.1 r)
          | inr n ↦ elim (Bool-cases (cancel_requested k db)) [
            | inl y ↦ rw (n, run_stages) (rw y (cancelled-Kept k now r))
            | inr q ↦
                rw (n, run_stages)
                  (rw q (
                    let ran = agent.run st total now (begin_stage o k agent.stage now db) in
                    after_stage-Kept ran.now
                      (run_stages o k rest restored retries ran.state ran.total ran.now)
                      (end_stage o k agent.stage total retries ran ran.attempt)
                      (end_stage-Kept k agent.stage total retries ran ran.attempt
                        (h.0 st total now _ (begin_stage-Kept k agent.stage now r)))
                      (λ d s.
                        run_stages-Kept k rest restored retries ran.state ran.total ran.now d h.1
                          s)))
          ]
        ]

    take_checkpoint-Kept :
        (job : Job) (succeeded : List StageName) (q : PipelineState × List StageName) (db : Db)
        → Kept base db
        → Kept base (take_checkpoint o job succeeded q db).2
    unfolding take_checkpoint
    take_checkpoint-Kept job [] (st, restored) db r = r
    take_checkpoint-Kept job (s ∷ ss) (st, restored) db r =
        kept_step r (discards job.id restored) tt

    announce-Kept :
        (job : Job) (llm : Llm) (restored : List StageName) (now : ℕ) {db : Db}
        → Kept base db
        → Kept base (announce o job llm restored now db)
    unfolding announce resumed
    announce-Kept job llm [] now r = kept_step r (emits job.id "job.started" _ now) tt
    announce-Kept job llm (s ∷ ss) now r =
        kept_step (kept_step r (emits job.id "job.resumed" _ now) tt)
          (emits job.id "job.started" _ now) tt

    try_job-Kept :
        (job : Job) (now : ℕ) (db : Db)
        → All Transacts o.agents
        → Kept base db
        → Kept base (try_job o job now db).db
    unfolding try_job run_job restore
    try_job-Kept job now db h r = elim (Option-cases (o.registry job.provider)) [
      | inl e ↦ rw (e, try_job) r
      | inr (llm, e) ↦ elim (Bool-cases (known_stack job.submission.stack)) [
        | inr n ↦ rw (e, try_job) (rw n r)
        | inl y ↦
            rw (e, try_job)
              (rw y (
                run_stages-Kept job.id o.agents _ job.retries _ job.totals now _ h
                  (announce-Kept job llm _ now (take_checkpoint-Kept job _ _ db r))))
      ]
    ]

    settle-Kept :
        (k : String) (now : ℕ) (db : Db) (flow : Flow)
        → Kept base db
        → Kept base (settle o k now db flow).0
    unfolding settle
    settle-Kept k now db goes_on r = r
    settle-Kept k now db (returns status) r = r
    settle-Kept k now db (raises name) r = fail-Kept k none _ none now r
    settle-Kept k now db interrupted r = handle_interrupt-Kept k now r

  -- If what the agents and the processes beside them write are transactions of the service, of which none
  -- deletes a job that has not ended, then so is all that a run writes: the database that a run leaves is
  -- one that such transactions reach.
  pub run-Kept :
      (o : Settings) (k : String) (now : ℕ) {db : Db}
      → All Transacts o.agents
      → Kept base db
      → Kept base (run o k now db).0
  unfolding run
  run-Kept o k now {db} h r = elim (Option-cases (find (has_id k) db.jobs)) [
    | inl e ↦ rw (e, run) r
    | inr (job, e) ↦
        rw (e, run)
          (let left = try_job o job now db in
            settle-Kept o k left.now left.db left.flow (try_job-Kept o job now db h r))
  ]
