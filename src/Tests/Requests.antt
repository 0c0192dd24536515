-- ===== src/Tests/Requests.antt =====
-- Requests of principals "ann" and "bob", and the event stream of ann's job.
use Prim.Native.Nat.{◌<◌}
use mathlib.Core.Option.{some-injective}
use mathlib.Core.Bool.{false≢true}
use autonomous_ai_software_e.Prelude.{
  ℕ, ◌^◌, ◌≤◌, ◌≡◌, ◌≢◌, refl, ap, ◌∙◌, eq_iff, String, true, false, none, some, [], ◌∷◌, arith,
  ◌==◌, str_eq, if◌then◌else◌, find, cas, length,
}
use autonomous_ai_software_e.Model.{Submission, Job, Db, empty_db}
use autonomous_ai_software_e.Budget.{has_id, ensure, try_reserve}
use autonomous_ai_software_e.Repository.Statements.{count_active}
use autonomous_ai_software_e.Repository.Submit.{create, new_job}
use autonomous_ai_software_e.History.{Kept, unchanged_Kept, here, next, submits}
use autonomous_ai_software_e.Publishing.{Github, pull_request}
use autonomous_ai_software_e.Api.{
  Provider, JobCreate, Services, Visit, replayed, problem, answer, not_found,
}
use autonomous_ai_software_e.Api.Title.{chars, title_from_spec, title_from_spec-Short}
use autonomous_ai_software_e.Api.Submit.{create_job, submission_of}
use autonomous_ai_software_e.Api.Manage.{retry_job}
use autonomous_ai_software_e.Api.Routes
use autonomous_ai_software_e.Api.Routes.{handle, serve}
use autonomous_ai_software_e.Api.Isolated.{handle-Isolated}
use autonomous_ai_software_e.Api.Refines.{Beside, serve-Kept}
use autonomous_ai_software_e.Api.Replayed.{create_job-Replayed}
use autonomous_ai_software_e.Api.Bounded.{Alone, active-Bounded}
use autonomous_ai_software_e.Api.Cursor.{decimal, is_digit, max_str_digits, event_cursor}
use autonomous_ai_software_e.Api.Cursor.RoundTrip.{event_cursor-decimal}
use autonomous_ai_software_e.Tests.Jobs.{order, submitted, after_submission}

abbrev hosted : Provider
hosted = record { name = "anthropic"; model = "m"; is_metered = true }

abbrev service : Services
service = record {
  providers = ("anthropic", hosted) ∷ [];
  default_provider = "anthropic";
  budget = record { default_limit = some 100; limits = []; reservation = 10 };
  period_start = λ now. 0;
  max_active = 1;
  publishing_enabled = true;
  has_worker = true;
  request_hash = λ payload. payload.spec;
  is_space = λ c. c == 32;
}

abbrev github : Github
github = record {
  publish_project = λ project. pull_request project.name "url" "{}";
  pull_request_body = λ job n. "body";
  failed_document = λ message code. message;
}

-- A visit during which nobody else writes.
abbrev visit : String → ℕ → Visit
visit who now = record {
  principal = who;
  request_id = none;
  trace_context = none;
  now = now;
  meanwhile = λ db. db;
  afterwards = λ db. db;
}

abbrev ann_job : Job
ann_job = new_job "a" order (some 0) 10 5

foreign : (j : Job) → find (has_id "a") submitted.jobs ≡ some j → j.owner ≢ "bob"
unfolding create find try_reserve cas ensure new_job
foreign j there same =
    let mine : "ann" ≡ j.owner = ap (λ (i : Job). i.owner) (some-injective ann_job j there) in
    false≢true ((eq_iff "ann" "bob").1 (mine ∙ same))

handle-Isolated_example :
    handle service github Routes.deletes (visit "bob" 9) "a" submitted ≡ not_found submitted
handle-Isolated_example =
    handle-Isolated (visit "bob" 9) "a" submitted foreign service github Routes.deletes

alone : Alone (visit "ann" 9)
alone = record { meanwhile = λ d. refl; afterwards = λ d. refl }

beside : Beside (visit "ann" 9)
beside = record { meanwhile = λ d. unchanged_Kept; afterwards = λ d. unchanged_Kept }

serve-Kept_example :
    Kept submitted
      (serve service github (Routes.about "a" Routes.cancels) (visit "ann" 9) submitted).db
serve-Kept_example =
    serve-Kept service (visit "ann" 9) beside github (Routes.about "a" Routes.cancels) submitted
      (λ k e. refl)

abbrev library : JobCreate
library = record { spec = "a library"; title = some "lib"; provider = none; stack = "python" }

one_active : count_active "ann" submitted ≤ 1
unfolding count_active create try_reserve cas ensure find
one_active = omega arith

active-Bounded_example :
    (count_active "ann" (create_job service (visit "ann" 9) "b" none library submitted).db ≤ 1)
    × (count_active "ann" (retry_job service (visit "ann" 9) "a" submitted).db ≤ 1)
active-Bounded_example =
    active-Bounded service (visit "ann" 9) alone submitted after_submission one_active "b" "a" none
      library

abbrev made : Submission
made = submission_of service (visit "ann" 5) (some "k") library hosted

abbrev keyed_db : Db
keyed_db = (create "c" made none 5 empty_db).0

abbrev keyed_job : Job
keyed_job = new_job "c" made none 0 5

keyed_there : find (has_id "c") keyed_db.jobs ≡ some keyed_job
unfolding create find
keyed_there = refl

keyed_made : keyed_job.submission ≡ made
unfolding new_job
keyed_made = refl

create_job-Replayed_example :
    create_job service (visit "ann" 9) "d" (some "k") library keyed_db
    ≡ answer keyed_db (if str_eq library.spec library.spec then replayed keyed_job else problem 422)
create_job-Replayed_example =
    create_job-Replayed service (visit "ann" 5) (visit "ann" 9) hosted "c" "d" "k" library library
      (next here (submits "c" made none 5)) keyed_there keyed_made refl

digit_not_space : (c : ℕ) → is_digit c ≡ true → service.is_space c ≡ false
unfolding is_digit
digit_not_space c h = ground arith

event_cursor-decimal_example :
    event_cursor service.is_space (some (decimal 1207)) (some 3) ≡ some 1207
event_cursor-decimal_example =
    event_cursor-decimal service.is_space digit_not_space 1207 (some 3) small
  where
    small : 1207 < 10 ^ max_str_digits
    small = omega arith

title_from_spec-Short_example :
    length (chars (title_from_spec service.is_space 20 "An inventory service with alerts")) ≤ 20
title_from_spec-Short_example =
    title_from_spec-Short service.is_space 20 "An inventory service with alerts" (omega arith)

shortened :
    title_from_spec service.is_space 20 "An inventory service, with alerts" ≡ "An inventory…"
unfolding title_from_spec
shortened = refl
