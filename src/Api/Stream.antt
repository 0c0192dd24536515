-- ===== src/Api/Stream.antt =====
-- The event stream of src/autoswe/api/jobs.py: `generate` of `stream_events`, and `_sse`. Each turn of its
-- loop reads the status first and then the events, in two statements between which others may write.
pub mod Complete
pub mod Ended
use autonomous_ai_software_e.Prelude.{
  ℕ, String, Bool, true, false, ◌&&◌, Option, none, some, List, [], ◌∷◌, ◌++◌, map, if◌then◌else◌,
}
use autonomous_ai_software_e.Model.{JobStatus, JobEvent, Db, terminal}
use autonomous_ai_software_e.Repository.Statements.{status_of, events_after}
use autonomous_ai_software_e.Validation.Text.{Text, codes, is_empty}
use autonomous_ai_software_e.Api.Cursor.{decimal}

-- `_sse`, of the event's name and the JSON text of its data.
unfoldable pub id_line : Option ℕ → Text
unfolding decimal
id_line none = []
id_line (some id) = codes "id: " ++ decimal id ++ 10 ∷ []

unfoldable pub sse : Option ℕ → Text → Text → Text
unfolding id_line
sse event_id event json =
    id_line event_id ++ codes "event: " ++ event ++ 10 ∷ codes "data: " ++ json ++ 10 ∷ 10 ∷ []

-- What one turn sees: the database from which the status is read, what others then write before the
-- events are read, whether the client has gone, and whether nothing has been sent for longer than
-- `SSE_KEEPALIVE_S`.
pub record Poll : Type 0 where
  pub at_status : Db
  pub between : Db → Db
  pub disconnected : Bool
  pub quiet : Bool

-- The database from which the events are read.
abbrev pub at_events : Poll → Db
at_events p = p.between p.at_status

-- An event, a keep-alive comment, or `end` with the status, which is none when the job was deleted.
pub data Frame : Type 0 where
  event : JobEvent → Frame
  keep_alive : Frame
  ended : Option JobStatus → Frame

-- `cursor = event.id` for each event.
unfoldable pub last_id : ℕ → List JobEvent → ℕ
last_id cursor [] = cursor
last_id cursor (e ∷ es) = last_id e.id es

-- `job_status is None or (job_status.terminal and not events)`
unfoldable pub is_over : Option JobStatus → List JobEvent → Bool
unfolding terminal
is_over none events = true
is_over (some status) events = terminal status && is_empty events

unfoldable pub keep_alive_if : Bool → List Frame
keep_alive_if true = keep_alive ∷ []
keep_alive_if false = []

-- The frames that are sent in so many turns, after `retry: 2000`.
unfoldable pub generate : String → ℕ → List Poll → List Frame
unfolding status_of events_after last_id is_over keep_alive_if
generate k cursor [] = []
generate k cursor (p ∷ ps) =
    let status = status_of k p.at_status in
    let events = events_after k cursor 200 (at_events p) in
    let rest = generate k (last_id cursor events) ps in
    if is_over status events
    then map event events ++ ended status ∷ []
    else if p.disconnected
    then map event events
    else map event events ++ keep_alive_if p.quiet ++ rest
