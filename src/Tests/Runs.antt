-- ===== src/Tests/Runs.antt =====
-- Runs of the orchestrator over a job with two agents: an analyst that answers, and a reviewer whose
-- provider fails for a while.
use autonomous_ai_software_e.Prelude.{
  ◌+◌, ◌≡◌, refl, String, true, Option, none, some, List, [], ◌∷◌, All, find, cas, update,
}
use autonomous_ai_software_e.Model.{JobStatus, StageName, Job, empty_db}
use autonomous_ai_software_e.Budget.{ensure, try_reserve}
use autonomous_ai_software_e.Repository.Submit.{create, new_job}
use autonomous_ai_software_e.Repository.Queue.{claim}
use autonomous_ai_software_e.Repository.Statements.{
  done_stages, cancel_requested, update_stage, update_job, upsert_files,
}
use autonomous_ai_software_e.Repository.Requeue.{schedule_retry}
use autonomous_ai_software_e.Orchestrator.Outcomes.{set_stage, set_artifacts}
use autonomous_ai_software_e.Orchestrator.Pipeline.{
  PipelineState, Agent, answers, llm_error, Requirements,
}
use autonomous_ai_software_e.Orchestrator.Run.{Settings, run, restore_stages, new_state}
use autonomous_ai_software_e.Orchestrator.Settles.{run-Settled}
use autonomous_ai_software_e.Repository.Leaving.{Settled}
use autonomous_ai_software_e.Orchestrator.Refines.{Transacts, run-Kept}
use autonomous_ai_software_e.History.{Kept, next, claims}
use autonomous_ai_software_e.Tests.Jobs.{order, running_db, after_submission}

abbrev parsed : Option String → Option Requirements
parsed none = none
parsed (some d) = some (record { project_name = "library"; document = d })

abbrev analyst : Agent
analyst = record {
  stage = StageName.analyze;
  run = λ st total now db. record {
    db = db;
    state = record st { requirements = parsed (some "{}") };
    total = total;
    now = now + 3;
    duration = 3;
    attempt = answers (record { summary = "done"; files = [] });
  };
}

abbrev reviewer : Agent
reviewer = record {
  stage = StageName.review;
  run = λ st total now db. record {
    db = db;
    state = st;
    total = total;
    now = now + 2;
    duration = 2;
    attempt = llm_error "overloaded" true (some "overloaded");
  };
}

abbrev service : Settings
service = record {
  agents = analyst ∷ reviewer ∷ [];
  transient_retries = 1;
  retry_base = 30;
  jitter = λ t. 1000;
  registry = λ name. some (record { name = name; model = "m" });
  valid_requirements = parsed;
  valid_architecture = λ d. d;
}

run-Settled_example : Settled "a" (run service "a" 40 running_db).0
run-Settled_example = run-Settled service "a" 40 running_db

-- The transient failure puts the job back in the queue.
put_back : (run service "a" 40 running_db).1 ≡ some JobStatus.queued
unfolding create claim run ensure try_reserve find cas update done_stages cancel_requested
    update_stage update_job upsert_files set_stage set_artifacts schedule_retry
put_back = refl

transacts : All (Transacts empty_db) service.agents
transacts = (λ st total now db r. r, (λ st total now db r. r, tt))

running_reached : Kept empty_db running_db
running_reached = record {
  reach = next after_submission (claims "w" 6 "a");
  guarded = ((tt, tt), tt);
}

run-Kept_example : Kept empty_db (run service "a" 40 running_db).0
run-Kept_example = run-Kept empty_db service "a" 40 transacts running_reached

abbrev analysed : Job
analysed = record (new_job "a" order (some 0) 10 5) {
  artifacts = record {
    project_name = some "library";
    requirements = some "{}";
    architecture = none;
    validation = none;
    review = none;
    test_report = none;
  };
}

abbrev walked : PipelineState × List StageName
walked = restore_stages service service.agents (StageName.analyze ∷ []) analysed (new_state service)
