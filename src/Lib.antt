-- ===== src/Lib.antt =====
-- The service that turns a specification into a project: its job queue, the budget of tokens that its
-- model calls draw on, the run of a job through its stages, and the files that a run may produce.
--
-- Parts of the program, and the files that model them.
--
-- Prelude: lists, Boolean tests and tables (rows with a key) over the native numbers, with the
--   compare-and-set UPDATE that the transactions are made of.
-- Model: src/autoswe/models.py, with the stage names of src/autoswe/pipeline/artifacts.py and the
--   token counts of src/autoswe/llm/base.py. The database is one record of tables (Db).
-- Budget: src/autoswe/budget.py, with UsageRepository (ensure, try_reserve, extend, record_usage for
--   record, release, state) and BudgetGuard (before_call, after_call). Budget.Rows and Budget.Transfer
--   count what the ledger and the jobs hold, Budget.Limits relates the reported state to try_reserve.
-- Repository: src/autoswe/repository.py, with Statements (the single statements), Submit (create),
--   Queue (claim_next, request_cancel, finish, fail_stale) and Requeue (_requeue, reset_for_retry,
--   schedule_retry, retry_failed). The children Reservations, Races, Leaving, Atomic, Duplicates and
--   Checkpoints hold the proofs.
-- Orchestrator: src/autoswe/pipeline/orchestrator.py, with Outcomes (the columns of each end), Pipeline
--   (the state and the protocol of the agents in src/autoswe/pipeline/agents.py), Ends (_finish, _fail,
--   _cancelled, _retry_later, _persist_stage, _handle_interrupt) and Run (_restore, _run_stages,
--   _run_stage, _run). Settles, Resumes and Refines hold the proofs.
-- Metering: src/autoswe/metering.py and the prices of src/autoswe/pricing.py.
-- Worker: src/autoswe/worker.py, the slots of a worker.
-- Validation: src/autoswe/pipeline/validation.py, with Text (str.strip, str.split), Path
--   (normalize_path, path_key) and Sanitize (sanitize_files). Stable and Intake hold the proofs.
-- Publishing: src/autoswe/publishing.py, the check of a repository's name.
-- Security: src/autoswe/security.py, and parsed_api_keys of src/autoswe/config.py (proofs in Accepts).
-- Evals: src/autoswe/evals/recording.py, the recorded calls and their replay (proofs in Replays).
-- Relations: src/autoswe/pipeline/relations.py, normalise. Reaches, Acyclic and Normalised hold the
--   proofs.
-- Sandbox: src/autoswe/sandbox/service.py, the runner (_Gate, authenticate, read_body, run), with Outputs
--   (_read_capped of src/autoswe/sandbox/backends.py) and Verdicts (_classify, _result, and _verdict and
--   _check of src/autoswe/sandbox/inside/entry.py). Admits and Bodies hold the proofs.
-- Api: src/autoswe/api/jobs.py, with Title (_title_from_spec), Submit (create_job, _replay), Manage
--   (cancel_job, retry_job, delete_job), Reading (the GET handlers), Publish (publish_job), Cursor
--   (_event_cursor, the ids of _sse), Stream (generate of stream_events) and Routes (every request and
--   its handler). Isolated, Refines, Replayed, Bounded, Cursor.RoundTrip, Stream.Complete and
--   Stream.Ended hold the proofs.
-- History: the transactions of all these as the steps of one database, in any order. A deletion may find
--   its job in any state. Reservations (the balance, and what a deletion leaks), Lifecycle and Final (the
--   statuses of a job), Keys (idempotency keys) and Log (the events) hold the proofs.
--
-- How they interact. An API request submits a job (create), which takes a reservation from the ledger.
-- A worker claims it and runs it; each model call goes through the guard, which tops the reservation up
-- and turns it into use; the run ends the job (finish), which releases what is left, or puts it back in
-- the queue. The reaper (fail_stale) ends jobs whose worker is silent, and the owner may cancel or retry.
--
-- State and time. A method of the program is a function from the database to the database as its
-- transaction leaves it, with what it returns; a rollback gives the old database back. The time of a
-- transaction is an argument, in microseconds. A compare-and-set is atomic, and History composes
-- transactions in any order, with arguments that may have been read from an older state; in a history, as
-- the results speak of it, a guard that tops up or reports usage agrees with the row of its job, and tops
-- up only while the job has not ended. An agent of a
-- run is any function, so that other processes may write while it works; between the transactions of
-- the orchestrator itself nothing else is interleaved. Between the reads of a request and its
-- transaction, and after that, other processes may write any database. Each turn of an event stream
-- reads the status first and then the events, and others may write between the two; so they may between
-- the SELECT and the UPDATE of claim_next. The number of an event is given in the order of the commits,
-- as on SQLite; on PostgreSQL a sequence gives it at the INSERT, and concurrent transactions may commit
-- in another order, which is not modelled.
--
-- Loops and fuel. Loops over lists are structural. The loop of fill_slots runs on fuel, one turn more
-- than there are free slots: each turn but the last takes one, unless it claims a job that has a task. The search of normalise runs on
-- fuel, two turns more than there are kept relations: each turn takes a name from its stack, and each
-- relation puts one there once.
--
-- Parameters. What Python knows of Unicode (isspace, casefold, NFC, format characters), the size of a
-- text in UTF-8, the validation of a stored artifact by pydantic, the registry of providers, the call
-- of a provider, the random factors of the retry delays, the start of the budget's period, the SHA-256
-- of a body and of a key, what publish_project answers, how pydantic reads a run's request and its
-- report, and how it writes an agent's answer to JSON and reads it back. Texts of issues, spans, metrics, log lines and wake-ups are left out. Prices are whole parts
-- of a micro-dollar, not decimals of 28 digits.
--
-- Not modelled: the list of jobs and the other endpoints, the agents' prompts and templates, the
-- containers and processes of the sandbox backends, the requests to GitHub, the scores of the
-- evaluation harness, the rest of the configuration, and logging.
pub mod Prelude
pub mod Model
pub mod Budget
pub mod Repository
pub mod Orchestrator
pub mod History
pub mod Validation
pub mod Publishing
pub mod Api
pub mod Evals
pub mod Metering
pub mod Relations
pub mod Sandbox
pub mod Security
pub mod Tests
pub mod Worker
