-- ===== src/Api/Reading.antt =====
-- The reading handlers of src/autoswe/api/jobs.py, with `list_files`, `list_file_meta` and `get_file` of
-- src/autoswe/repository.py. The language that a file's entry shows, a function of its path, is left out,
-- and an archive is the project's name and the files that go into it.
use Prim.Native.String.{compare}
use Prim.Native.Nat.{Ordering}
use autonomous_ai_software_e.Prelude.{
  ℕ, String, Bool, true, false, ◌&&◌, Option, none, some, List, if◌then◌else◌, str_eq, find,
  keep_if, sort_by,
}
use autonomous_ai_software_e.Model.{JobStatus, Job, JobFile, Db, Json, status_eq}
use autonomous_ai_software_e.Repository.Statements.{get_owned}
use autonomous_ai_software_e.Validation.Text.{Text}
use autonomous_ai_software_e.Api.{
  Visit, HttpReply, detail, document, reviewed, file_list, file, archive, stream, problem,
  server_error, Handled, answer, not_found,
}
use autonomous_ai_software_e.Api.Cursor.{event_cursor}

-- ORDER BY path
unfoldable pub path_le : JobFile → JobFile → Bool
path_le a b = elim (compare a.path b.path) [ Ordering.gt ↦ false | _ ↦ true ]

unfoldable pub files_of : String → Db → List JobFile
unfolding path_le sort_by
files_of k db = sort_by path_le (keep_if (λ f. str_eq f.job_id k) db.files)

unfoldable pub file_at : String → String → Db → Option JobFile
file_at k path db = find (λ f. str_eq f.job_id k && str_eq f.path path) db.files

-- What a handler answers from the job alone, for its owner.
unfoldable pub of_owned : (Job → HttpReply) → Visit → String → Db → Handled
of_owned reply v k db = elim (get_owned k v.principal db) [
  | none ↦ not_found db
  | some job ↦ answer db (reply job)
]

unfoldable pub get_job : Visit → String → Db → Handled
unfolding of_owned
get_job = of_owned detail

unfoldable pub or_missing : Option Json → HttpReply
or_missing none = problem 404
or_missing (some json) = document json

unfoldable pub get_requirements : Visit → String → Db → Handled
unfolding of_owned or_missing
get_requirements = of_owned (λ job. or_missing job.artifacts.requirements)

unfoldable pub get_architecture : Visit → String → Db → Handled
unfolding of_owned or_missing
get_architecture = of_owned (λ job. or_missing job.artifacts.architecture)

unfoldable pub get_test_report : Visit → String → Db → Handled
unfolding of_owned or_missing
get_test_report = of_owned (λ job. or_missing job.artifacts.test_report)

unfoldable pub review_reply : Option Json → Option Json → HttpReply
review_reply (some review) (some validation) = reviewed review validation
review_reply _ _ = problem 404

unfoldable pub get_review : Visit → String → Db → Handled
unfolding of_owned review_reply
get_review = of_owned (λ job. review_reply job.artifacts.review job.artifacts.validation)

unfoldable pub list_files : Visit → String → Db → Handled
unfolding of_owned files_of
list_files v k db = of_owned (λ job. file_list (files_of k db)) v k db

unfoldable pub file_reply : Option JobFile → HttpReply
file_reply none = problem 404
file_reply (some f) = file f

unfoldable pub get_file : String → Visit → String → Db → Handled
unfolding of_owned file_at file_reply
get_file path v k db = of_owned (λ job. file_reply (file_at k path db)) v k db

unfoldable pub download_archive : Visit → String → Db → Handled
unfolding of_owned files_of status_eq
download_archive v k db =
    of_owned
      (λ job.
        if status_eq job.status JobStatus.succeeded
        then archive job.artifacts.project_name (files_of k db)
        else problem 409)
      v k db

unfoldable pub stream_reply : Option ℕ → HttpReply
stream_reply none = server_error
stream_reply (some cursor) = stream cursor

-- What `stream_events` answers before its stream runs.
unfoldable pub stream_events : (ℕ → Bool) → Option Text → Option ℕ → Visit → String → Db → Handled
unfolding of_owned event_cursor stream_reply
stream_events space last_event_id after =
    of_owned (λ job. stream_reply (event_cursor space last_event_id after))
