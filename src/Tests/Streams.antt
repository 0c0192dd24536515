-- ===== src/Tests/Streams.antt =====
-- The event stream of a job that is cancelled while it is followed.
use autonomous_ai_software_e.Prelude.{
  ◌≡◌, refl, false, some, List, [], ◌∷◌, ◌++◌, find, cas, update, ◌≢◌, length, none,
}
use autonomous_ai_software_e.Model.{empty_db, JobStatus, Db}
use autonomous_ai_software_e.Budget.{has_id, ensure, try_reserve, release}
use autonomous_ai_software_e.Repository.Statements.{add_event}
use autonomous_ai_software_e.Repository.Submit.{create}
use autonomous_ai_software_e.Repository.Queue.{request_cancel}
use autonomous_ai_software_e.History.{Reach, next, cancels}
use autonomous_ai_software_e.History.Log.Grows.{log_of, Lasting, still, then_step}
use autonomous_ai_software_e.Api.Stream.{Poll, generate, last_id}
use autonomous_ai_software_e.Api.Stream.Complete.{sent, after, generate-Complete}
use autonomous_ai_software_e.Api.Stream.Ended.{end_of, AnyPoll, Replayed, generate-Ended}
use autonomous_ai_software_e.Tests.Jobs.{submitted, after_submission, cancelled_db}

abbrev poll : Db → Poll
poll db = record { at_status = db; between = λ d. d; disconnected = false; quiet = false }

abbrev polls : List Poll
polls = poll submitted ∷ poll submitted ∷ poll cancelled_db ∷ poll cancelled_db ∷ []

reached : Reach empty_db cancelled_db
reached = next after_submission (cancels "a" 7)

stays : find (has_id "a") cancelled_db.jobs ≢ none
unfolding create request_cancel ensure try_reserve find release add_event cas update
stays h = cc

grew : Reach empty_db submitted × Lasting "a" submitted cancelled_db
grew = (after_submission, then_step still (cancels "a" 7) stays)

before : Reach empty_db submitted × Lasting "a" submitted submitted
before = (after_submission, still)

kept : Reach empty_db cancelled_db × Lasting "a" cancelled_db cancelled_db
kept = (reached, still)

generate-Complete_example :
    sent (generate "a" 0 polls)
      ++ after (last_id 0 (sent (generate "a" 0 polls))) (log_of "a" cancelled_db)
    ≡ after 0 (log_of "a" cancelled_db)
generate-Complete_example =
    generate-Complete "a" cancelled_db 0 polls reached (grew, (grew, (kept, (kept, tt))))

two_events : length (sent (generate "a" 0 polls)) ≡ 2
unfolding create request_cancel ensure try_reserve find release add_event cas update generate
two_events = refl

ends_cancelled : end_of (generate "a" 0 polls) ≡ some (some JobStatus.cancelled)
unfolding create request_cancel ensure try_reserve find release add_event cas update generate
ends_cancelled = refl

generate-Ended_example :
    AnyPoll (Replayed "a" JobStatus.cancelled (last_id 0 (sent (generate "a" 0 polls)))) polls
generate-Ended_example =
    generate-Ended "a" JobStatus.cancelled 0 polls (before, (before, (kept, (kept, tt))))
      ends_cancelled
