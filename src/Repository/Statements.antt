-- ===== src/Repository/Statements.antt =====
-- src/autoswe/repository.py: the statements that its transactions share, and the small transactions of
-- one statement each.
use Prim.Native.String.{len}
use autonomous_ai_software_e.Prelude.{
  ℕ, ◌+◌, String, Bool, true, false, not, ◌&&◌, Option, none, some, List, [], ◌∷◌, ◌++◌, ltb,
  if◌then◌else◌, str_eq, find, cas, update, update_all, remove, keep_if, length, map, take,
}
use autonomous_ai_software_e.Model.{
  JobStatus, StageStatus, StageName, Job, StageRun, JobFile, JobEvent, Publication, publishing, Db,
  Payload, status_eq, stage_eq, stage_done, stage_open,
}
use autonomous_ai_software_e.Budget.{has_id}

-- `session.add(JobEvent(...))`, and `add_event`. The number is the one that a database with serial
-- writers gives, as SQLite: in the order of the commits.
unfoldable pub add_event : String → String → Payload → ℕ → Db → Db
add_event k kind payload now db = record db {
  events = db.events ++ event ∷ [];
  next_event = db.next_event + 1;
}
  where
    event : JobEvent
    event = record {
      id = db.next_event;
      job_id = k;
      kind = kind;
      payload = payload;
      created_at = now;
    }

-- `status_of`
unfoldable pub status_of : String → Db → Option JobStatus
status_of k db = elim (find (has_id k) db.jobs) [ none ↦ none | some j ↦ some j.status ]

-- `get`, with the caller's name where there is one
unfoldable pub get_owned : String → String → Db → Option Job
get_owned k owner db = elim (find (has_id k) db.jobs) [
  | none ↦ none
  | some j ↦ if str_eq j.owner owner then some j else none
]

-- `cancel_requested`
unfoldable pub cancel_requested : String → Db → Bool
cancel_requested k db = elim (find (has_id k) db.jobs) [
  | none ↦ false
  | some j ↦ j.cancel_requested
]

unfoldable pub is_active : String → Job → Bool
is_active owner j =
    str_eq j.owner owner
    && (if status_eq j.status JobStatus.queued then true else status_eq j.status JobStatus.running)

unfoldable pub count_active : String → Db → ℕ
unfolding is_active status_eq
count_active owner db = length (keep_if (is_active owner) db.jobs)

unfoldable pub count_queued : Db → ℕ
unfolding status_eq
count_queued db = length (keep_if (λ j. status_eq j.status JobStatus.queued) db.jobs)

unfoldable pub beat : ℕ → Job → Job
beat now j = record j { heartbeat_at = some now; updated_at = now }

unfoldable pub heartbeat : String → ℕ → Db → Db
unfolding beat
heartbeat k now db = record db { jobs = update (has_id k) (beat now) db.jobs }

-- `update_job`: `values` are the columns that the caller sets
unfoldable pub update_job : String → (Job → Job) → ℕ → Db → Db
update_job k values now db = record db {
  jobs = update (has_id k) (λ j. values (record j { updated_at = now })) db.jobs;
}

abbrev pub of_job : String → StageRun → Bool
of_job k s = str_eq s.job_id k

unfoldable pub update_stage : String → StageName → (StageRun → StageRun) → Db → Db
update_stage k stage values db = record db {
  stages = update_all (λ s. of_job k s && stage_eq s.name stage) values db.stages;
}

unfoldable pub skip : StageRun → StageRun
skip s = record s { status = StageStatus.skipped }

unfoldable pub skip_pending_stages : String → Db → Db
unfolding skip stage_open
skip_pending_stages k db = record db {
  stages = update_all (λ s. of_job k s && stage_open s.status) skip db.stages;
}

abbrev pub contains {ℓ} : {A : Type ℓ} → (A → A → Bool) → List A → A → Bool
contains eq [] a = false
contains eq (x ∷ xs) a = if eq x a then true else contains eq xs a

-- A file that a stage produced.
pub record GeneratedFile : Type 0 where
  pub path : String
  pub content : String
  pub description : String

unfoldable pub file_row : String → StageName → GeneratedFile → JobFile
file_row k stage f = record {
  job_id = k;
  path = f.path;
  content = f.content;
  size = len f.content;
  stage = stage;
  description = f.description;
}

-- Its callers pass the accepted files of one merge, whose paths differ (the table's UNIQUE).
unfoldable pub upsert_files : String → List GeneratedFile → StageName → Db → Db
unfolding file_row
upsert_files k [] stage db = db
upsert_files k (f ∷ fs) stage db = record db {
  files =
      keep_if (λ r. not (str_eq r.job_id k && contains str_eq (map (λ g. g.path) (f ∷ fs)) r.path))
        db.files
      ++ map (file_row k stage) (f ∷ fs);
}

unfoldable pub discard_files : String → List StageName → Db → Db
unfolding stage_eq
discard_files k keep db = record db {
  files = keep_if (λ r. not (str_eq r.job_id k && not (contains stage_eq keep r.stage))) db.files;
}

-- The names of the job's stages that succeeded.
unfoldable pub done_stages : String → List StageRun → List StageName
unfolding stage_done
done_stages k stages = map (λ s. s.name) (keep_if (λ s. of_job k s && stage_done s.status) stages)

-- `delete`: the job and, by the foreign keys' CASCADE, all rows that belong to it
unfoldable pub delete : String → Db → Db
delete k db = record db {
  jobs = remove (has_id k) db.jobs;
  stages = keep_if (λ s. not (of_job k s)) db.stages;
  files = keep_if (λ f. not (str_eq f.job_id k)) db.files;
  events = keep_if (λ e. not (str_eq e.job_id k)) db.events;
}

unfoldable pub is_none {ℓ} : {A : Type ℓ} → Option A → Bool
is_none none = true
is_none (some a) = false

unfoldable pub set_publication : Option Publication → ℕ → Job → Job
set_publication value now j = record j { publication = value; updated_at = now }

unfoldable pub claim_publication : String → ℕ → Db → Db × Bool
unfolding status_eq is_none set_publication
claim_publication k now db =
    elim (cas (has_id k) (λ j. status_eq j.status JobStatus.succeeded && is_none j.publication)
      (set_publication (some publishing) now) db.jobs) [
        | none ↦ (db, false)
        | some jobs ↦ (record db { jobs = jobs }, true)
      ]

unfoldable pub record_publication : String → Option Publication → String → Payload → ℕ → Db → Db
unfolding set_publication
record_publication k value event payload now db =
    add_event k event payload now
      (record db { jobs = update (has_id k) (set_publication value now) db.jobs })

-- The log is in the order of its numbers.
unfoldable pub events_after : String → ℕ → ℕ → Db → List JobEvent
events_after k after_id limit db =
    take limit (keep_if (λ e. str_eq e.job_id k && ltb after_id e.id) db.events)
