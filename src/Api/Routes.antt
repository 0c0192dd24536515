-- ===== src/Api/Routes.antt =====
-- The router of src/autoswe/api/jobs.py: every request but the list of jobs, and its handler.
use autonomous_ai_software_e.Prelude.{ℕ, String, Option}
use autonomous_ai_software_e.Model.{Db}
use autonomous_ai_software_e.Validation.Text.{Text}
use autonomous_ai_software_e.Publishing.{Github}
use autonomous_ai_software_e.Api.{JobCreate, Services, Visit, Handled}
use autonomous_ai_software_e.Api.Submit.{create_job}
use autonomous_ai_software_e.Api.Manage.{cancel_job, retry_job, delete_job}
use autonomous_ai_software_e.Api.Reading.{
  get_job, get_requirements, get_architecture, get_review, get_test_report, list_files, get_file,
  download_archive, stream_events,
}
use autonomous_ai_software_e.Api.Publish.{PublishRequest, publish_job}

pub data JobRequest : Type 0 where
  shows : JobRequest
  cancels : JobRequest
  retries : JobRequest
  deletes : JobRequest
  requirements : JobRequest
  architecture : JobRequest
  review : JobRequest
  tests : JobRequest
  publishes : PublishRequest → JobRequest
  files : JobRequest
  file : String → JobRequest
  archive : JobRequest
  follows : Option Text → Option ℕ → JobRequest

unfoldable pub handle : Services → Github → JobRequest → Visit → String → Db → Handled
handle sv github shows = get_job
handle sv github cancels = cancel_job sv
handle sv github retries = retry_job sv
handle sv github deletes = delete_job
handle sv github requirements = get_requirements
handle sv github architecture = get_architecture
handle sv github review = get_review
handle sv github tests = get_test_report
handle sv github (publishes payload) = publish_job sv github payload
handle sv github files = list_files
handle sv github (file path) = get_file path
handle sv github archive = download_archive
handle sv github (follows last_event_id after) = stream_events sv.is_space last_event_id after

-- A submission, with the identifier that its job would get, or a request about a job.
pub data Request : Type 0 where
  submits : String → Option String → JobCreate → Request
  about : String → JobRequest → Request

unfoldable pub serve : Services → Github → Request → Visit → Db → Handled
unfolding handle
serve sv github (submits id key payload) v db = create_job sv v id key payload db
serve sv github (about k r) v db = handle sv github r v k db
