-- ===== src/Api/Submit.antt =====
-- `create_job` of src/autoswe/api/jobs.py, with `_request_hash` and `_replay`, and `ProviderRegistry.get`
-- of src/autoswe/llm/registry.py. A key has at least one character, by the header's pattern.
use autonomous_ai_software_e.Prelude.{
  String, Option, none, some, [], ◌∷◌, leb, if◌then◌else◌, str_eq, find,
}
use autonomous_ai_software_e.Model.{Submission, Job, Db}
use autonomous_ai_software_e.Budget.{has_id, state}
use autonomous_ai_software_e.Repository.Statements.{count_active}
use autonomous_ai_software_e.Repository.Submit.{
  Created, created, budget_refused, duplicate_submission, integrity, create, same_key,
  by_idempotency_key,
}
use autonomous_ai_software_e.Orchestrator.Pipeline.{lookup}
use autonomous_ai_software_e.Api.{
  Provider, JobCreate, Services, Visit, queue_changed, HttpReply, detail, replayed, problem,
  over_budget, server_error, Handled, answer, reservation_of,
}
use autonomous_ai_software_e.Api.Title.{title_from_spec}

-- `name or self.default`
unfoldable pub provider_key : Services → Option String → String
provider_key sv none = sv.default_provider
provider_key sv (some name) = if str_eq name "" then sv.default_provider else name

unfoldable pub get_provider : Services → Option String → Option Provider
unfolding provider_key lookup
get_provider sv name = lookup (provider_key sv name) sv.providers

unfoldable pub hash_of : Services → Option String → JobCreate → Option String
hash_of sv none payload = none
hash_of sv (some key) payload = some (sv.request_hash payload)

unfoldable pub existing_job : Option String → String → Db → Option Job
existing_job none owner db = none
existing_job (some key) owner db = by_idempotency_key owner key db

unfoldable pub replay : Option String → Job → Db → Handled
unfolding same_key
replay hash job db =
    answer db (if same_key job.submission.request_hash hash then replayed job else problem 422)

unfoldable pub title_of : Services → JobCreate → String
title_of sv payload = elim payload.title [
  | some title ↦ title
  | none ↦ title_from_spec sv.is_space 80 payload.spec
]

-- The arguments of `repo.create`.
unfoldable pub submission_of : Services → Visit → Option String → JobCreate → Provider → Submission
unfolding title_of hash_of
submission_of sv v key payload provider = record {
  owner = v.principal;
  title = title_of sv payload;
  spec = payload.spec;
  provider = provider.name;
  model = provider.model;
  request_id = v.request_id;
  trace_context = v.trace_context;
  stack = payload.stack;
  idempotency_key = key;
  request_hash = hash_of sv key payload;
}

-- What is read again of the job when its transaction has committed.
unfoldable pub refreshed : Option Job → HttpReply
refreshed none = server_error
refreshed (some job) = detail job

unfoldable pub winner : Option String → Option Job → Db → Handled
unfolding replay
winner hash none db = answer db server_error
winner hash (some job) db = replay hash job db

unfoldable pub after_create :
    Services → Visit → Option String → Option String → Db × Created → Handled
unfolding existing_job refreshed winner
after_create sv v key hash (db, created job) = record {
  db = v.afterwards db;
  signals = queue_changed ∷ [];
  reply = refreshed (find (has_id job.id) (v.afterwards db).jobs);
}
after_create sv v key hash (db, duplicate_submission) =
    winner hash (existing_job key v.principal (v.afterwards db)) (v.afterwards db)
after_create sv v key hash (db, budget_refused) =
    answer (v.afterwards db)
      (over_budget (state sv.budget v.principal (sv.period_start v.now) (v.afterwards db)))
after_create sv v key hash (db, integrity) = answer db server_error

-- `id` is the fresh identifier of the job, if there will be one.
unfoldable pub create_job : Services → Visit → String → Option String → JobCreate → Db → Handled
unfolding existing_job replay hash_of get_provider submission_of after_create
create_job sv v id key payload db = elim (existing_job key v.principal db) [
  | some job ↦ replay (hash_of sv key payload) job db
  | none ↦ elim (get_provider sv payload.provider) [
    | none ↦ answer db (problem 422)
    | some provider ↦
        if leb sv.max_active (count_active v.principal db)
        then answer db (problem 429)
        else after_create sv v key (hash_of sv key payload) (
            create id (submission_of sv v key payload provider)
              (reservation_of sv v.principal provider v.now) v.now (v.meanwhile db))
  ]
]
