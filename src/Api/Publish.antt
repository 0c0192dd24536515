-- ===== src/Api/Publish.antt =====
-- `publish_job` of src/autoswe/api/jobs.py. What other processes write while GitHub is called is `afterwards`.
use Prim.Native.String.{◌++◌ as str_append, find as str_find, len}
use package.text.Mathlib.TextBridge.{of_list}
use autonomous_ai_software_e.Prelude.{
  String, Bool, true, false, Option, none, some, [], ◌∷◌, map, if◌then◌else◌, leb, str_eq, length,
  take,
}
use autonomous_ai_software_e.Model.{
  JobStatus, Job, JobFile, Publication, recorded, Db, text, status_eq,
}
use autonomous_ai_software_e.Repository.Statements.{
  GeneratedFile, get_owned, claim_publication, record_publication,
}
use autonomous_ai_software_e.Validation.Text.{codes}
use autonomous_ai_software_e.Publishing.{
  Project, PublishEnd, pull_request, publish_error, Github, repository_name_problem,
}
use autonomous_ai_software_e.Api.{Services, Visit, published, problem, Handled, answer, not_found}
use autonomous_ai_software_e.Api.Title.{chars}
use autonomous_ai_software_e.Api.Reading.{files_of}

pub record PublishRequest : Type 0 where
  pub repository : String
  pub visibility : String
  pub description : Option String

unfoldable pub generated : JobFile → GeneratedFile
generated f = record { path = f.path; content = f.content; description = "" }

-- `payload.description or job.title`
unfoldable pub description_of : Option String → Job → String
description_of none job = job.submission.title
description_of (some d) job = if str_eq d "" then job.submission.title else d

unfoldable pub project_of : Github → PublishRequest → String → Job → Db → Project
unfolding generated description_of files_of chars
project_of github payload k job db = record {
  name = payload.repository;
  visibility = payload.visibility;
  description = description_of payload.description job;
  files = map generated (files_of k db);
  branch = str_append "autoswe/" (of_list (take 8 (chars k)));
  title = str_append "AutoSWE: " job.submission.title;
  body = github.pull_request_body job (length (files_of k db));
}

-- `"was created" in message`
unfoldable pub was_created : String → Bool
was_created message = leb (str_find message "was created") (len message)

-- A failure before the repository existed is forgotten, so that the job can be published later.
unfoldable pub failed_publication : Github → String → String → Option Publication
unfolding was_created
failed_publication github message code =
    if was_created message then some (recorded (github.failed_document message code)) else none

unfoldable pub after_publish : Github → Visit → String → PublishEnd → Db → Handled
unfolding failed_publication
after_publish github v k (pull_request repository url document) db =
    answer
      (record_publication k (some (recorded document)) "job.published"
        (("repository", text repository) ∷ ("pull_request_url", text url) ∷ []) v.now db)
      (published document)
after_publish github v k (publish_error message code status) db =
    answer
      (record_publication k (failed_publication github message code) "job.publish_failed"
        (("error", text message) ∷ ("code", text code) ∷ []) v.now db)
      (problem status)

unfoldable pub after_claim : Github → Visit → PublishRequest → String → Job → Db × Bool → Handled
unfolding project_of after_publish
after_claim github v payload k job (db, false) = answer db (problem 409)
after_claim github v payload k job (db, true) =
    after_publish github v k (github.publish_project (project_of github payload k job db))
      (v.afterwards db)

unfoldable pub publish_job : Services → Github → PublishRequest → Visit → String → Db → Handled
unfolding status_eq after_claim repository_name_problem
publish_job sv github payload v k db = elim (get_owned k v.principal db) [
  | none ↦ not_found db
  | some job ↦
      if sv.publishing_enabled
      then if repository_name_problem (codes payload.repository)
        then answer db (problem 422)
        else if status_eq job.status JobStatus.succeeded
        then after_claim github v payload k job (claim_publication k v.now (v.meanwhile db))
        else answer db (problem 409)
      else answer db (problem 503)
]
