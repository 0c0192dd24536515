-- ===== src/Api.antt =====
-- The HTTP handlers of src/autoswe/api/jobs.py: what they are given and what they answer. A handler goes from
-- the database to the database, the signals it sends and the reply. Between its reads and its
-- transaction, and after that, other processes may write: `meanwhile` and `afterwards`. The texts of
-- the replies, metrics, spans and log lines are left out.
pub mod Title
pub mod Submit
pub mod Manage
pub mod Cursor
pub mod Reading
pub mod Publish
pub mod Routes
pub mod Stream
pub mod Isolated
pub mod Refines
pub mod Replayed
pub mod Bounded
use autonomous_ai_software_e.Prelude.{ℕ, String, Bool, Option, none, some, List, []}
use autonomous_ai_software_e.Model.{Job, JobFile, Db, Json}
use autonomous_ai_software_e.Budget.{BudgetPolicy, BudgetState, limit_for, reservation_for}
use autonomous_ai_software_e.Repository.Submit.{Reservation}

pub record Provider : Type 0 where
  pub name : String
  pub model : String
  pub is_metered : Bool

-- The body of a submission, after the field validators of src/autoswe/schemas.py.
pub record JobCreate : Type 0 where
  pub spec : String
  pub title : Option String
  pub provider : Option String
  pub stack : String

-- `services`: the registry's providers and their default, the budget's policy, the start of its
-- current period, two settings, whether this process runs a worker, and the SHA-256 of a body's JSON.
pub record Services : Type 0 where
  pub providers : List (String × Provider)
  pub default_provider : String
  pub budget : BudgetPolicy
  pub period_start : ℕ → ℕ
  pub max_active : ℕ
  pub publishing_enabled : Bool
  pub has_worker : Bool
  pub request_hash : JobCreate → String
  pub is_space : ℕ → Bool

-- Who asks and when, and what other processes write during the request.
pub record Visit : Type 0 where
  pub principal : String
  pub request_id : Option String
  pub trace_context : Option Json
  pub now : ℕ
  pub meanwhile : Db → Db
  pub afterwards : Db → Db

-- `notify_queue`, `notify_job` and `cancel_local`.
pub data Signal : Type 0 where
  queue_changed : Signal
  job_changed : String → Signal
  stop_task : String → Signal

-- A response, with its status where it is an error; `server_error` is an exception that nobody handles.
pub data HttpReply : Type 0 where
  detail : Job → HttpReply
  replayed : Job → HttpReply
  document : Json → HttpReply
  reviewed : Json → Json → HttpReply
  published : Json → HttpReply
  file_list : List JobFile → HttpReply
  file : JobFile → HttpReply
  archive : Option String → List JobFile → HttpReply
  stream : ℕ → HttpReply
  no_content : HttpReply
  problem : ℕ → HttpReply
  over_budget : BudgetState → HttpReply
  server_error : HttpReply

pub record Handled : Type 0 where
  pub db : Db
  pub signals : List Signal
  pub reply : HttpReply

-- A reply that changes nothing.
abbrev pub answer : Db → HttpReply → Handled
answer db reply = record { db = db; signals = []; reply = reply }

abbrev pub not_found : Db → Handled
not_found db = answer db (problem 404)

-- The reservation of a metered job.
unfoldable pub reservation_of : Services → String → Provider → ℕ → Option Reservation
unfolding limit_for reservation_for
reservation_of sv owner provider now = elim provider.is_metered [
  | Bool.false ↦ none
  | Bool.true ↦ some (record {
    period_start = sv.period_start now;
    amount = reservation_for sv.budget (limit_for sv.budget owner);
    limit = limit_for sv.budget owner;
  })
]
